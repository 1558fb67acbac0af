-- ===== src/Tests/Payments.antt =====
-- Payments in decimal, on the small node of `Demo`.
use xrpcserver.Prelude.{◌≡◌, refl, inr, stoll, to_string, arith, if◌then◌else◌, leb}
use xrpcserver.Base.{xrpc_server_account_balance_not_enough}
use xrpcserver.Rpc.{State}
use xrpcserver.Demo.{demo}
use xrpcserver.Utility.{transaction_make_transfer_out}
use xrpcserver.Handler.{accept, fail, check_funds}
use xrpcserver.Handler.Payment.{check_funds-to_string}
use xrpcserver.Tests.Requests.{asking, payment}

-- A payment of 20 by Ann, who has 500, completed.
abbrev paying : State ⦃E = demo⦄
paying = record (asking (payment "20")) {
  tx =
      transaction_make_transfer_out ⦃E = demo⦄ "ann" "bob" "$$" "20" 5 7 (asking (payment "20")).tx;
}

check_funds-to_string_example : check_funds ⦃E = demo⦄ "ann" "$$" (to_string 20) paying ≡ (
    if leb 20 500
    then accept ⦃E = demo⦄ paying
    else fail ⦃E = demo⦄ xrpc_server_account_balance_not_enough paying)
unfolding stoll to_string transaction_make_transfer_out
check_funds-to_string_example =
    check_funds-to_string ⦃E = demo⦄ paying "ann" "$$" 500 20 refl refl refl (omega arith)
      (omega arith) (inr (7, refl, refl))
