-- ===== src/Tests/Gifts.antt =====
-- A gift, on the small node of `Demo`.
use xrpcserver.Prelude.{[], ◌≡◌, refl, true, done, pos}
use xrpcserver.Rpc.{State, string_in, int64_in}
use xrpcserver.Demo.{text, int, obj, no_fields, field, DemoStore, demo, demo_json_laws}
use xrpcserver.Handler.{give, blank, test_genesis_account_address}
use xrpcserver.Handler.Quiet.{IsSubmitted}
use xrpcserver.Handler.Answers.{Result}
use xrpcserver.Handler.Giving.{gift_of, give-Result}
use xrpcserver.Utility.{transaction_make_transfer_out}

abbrev new_account : DemoStore
new_account = record { balance = "0"; settle = []; receive = []; known = true; last_hash = 7 }

abbrev gift_state : State ⦃E = demo⦄
gift_state = record (blank ⦃E = demo⦄ (record { store = new_account; sent = []; ticks = 0 })) {
  root = obj (field "destination" (text "bob") (field "timestamp" (int (pos 5)) no_fields));
}

give-Result_example :
    ((give ⦃E = demo⦄ gift_state).0 ≡ done tt)
    × IsSubmitted ⦃E = demo⦄ gift_state.world (give ⦃E = demo⦄ gift_state).1
    × Result ⦃E = demo⦄ 1 (give ⦃E = demo⦄ gift_state).1
    × ((give ⦃E = demo⦄ gift_state).1.tx ≡ gift_of ⦃E = demo⦄ gift_state "bob" (pos 5) 7)
unfolding string_in int64_in transaction_make_transfer_out
give-Result_example =
    give-Result ⦃E = demo⦄ demo_json_laws gift_state "bob" (pos 5) (7, test_genesis_account_address)
      7 refl refl refl refl refl (record { exists = refl; none_pending = refl; none_received = tt })
      refl
