-- ===== src/Tests/Checks.antt =====
-- Requests that are checked before they are sent, on the small node of `Demo`.
use xrpcserver.Prelude.{String, [], ◌∷◌, ◌≡◌, ◌⊎◌, refl, false, done, pos, codes}
use xrpcserver.Rpc.{State, World, string_in}
use xrpcserver.Demo.{text, int, obj, no_fields, field, DemoStore, demo}
use xrpcserver.Handler.{handle_request, transfer_in, blank, action_of}
use xrpcserver.Handler.Quiet.{IsQuiet, IsSubmitted}
use xrpcserver.Handler.Keys.{IsPropertyKey}
use xrpcserver.Handler.Verdict.{IsFresh}
use xrpcserver.Handler.Receipt.{transfer_in-IsFresh}
use xrpcserver.Handler.Guarded.{handle_request-create, handle_request-set}
use xrpcserver.Handler.Session.{serve_all, IsOrdinary, IsAfter, serve_all-IsAfter}

abbrev node : DemoStore
node = record { balance = "500"; settle = []; receive = []; known = false; last_hash = 7 }

abbrev pub node_world : World ⦃E = demo⦄
node_world = record { store = node; sent = []; ticks = 0 }

-- A signed request of Ann's, for an action.
abbrev pub signed : String → State ⦃E = demo⦄
signed action = record (blank ⦃E = demo⦄ node_world) {
  root = obj (
      field "action" (text action) (
        field "account" (text "ann") (
          field "property_key" (text "@name") (
            field "property_value" (text "Ann") (
              field "timestamp" (int (pos 5))
                (field "last_digest" (text "d") (field "signature" (text "good") no_fields)))))));
}

handle_request-create_example :
    IsQuiet ⦃E = demo⦄ node_world (handle_request ⦃E = demo⦄ (signed "account_create")).1
    ⊎ ((account : String) × (string_in ⦃E = demo⦄ (signed "account_create").root "account"
          ≡ done account)
        × (node.known ≡ false)
        × IsSubmitted ⦃E = demo⦄ node_world (handle_request ⦃E = demo⦄ (signed "account_create")).1)
unfolding string_in
handle_request-create_example = handle_request-create ⦃E = demo⦄ (signed "account_create") refl

handle_request-set_example :
    IsQuiet ⦃E = demo⦄ node_world (handle_request ⦃E = demo⦄ (signed "set_property")).1
    ⊎ ((key : String) × (string_in ⦃E = demo⦄ (signed "set_property").root "property_key"
          ≡ done key)
        × IsPropertyKey (codes key)
        × IsSubmitted ⦃E = demo⦄ node_world (handle_request ⦃E = demo⦄ (signed "set_property")).1)
unfolding string_in
handle_request-set_example = handle_request-set ⦃E = demo⦄ (signed "set_property") refl

transfer_in-IsFresh_example :
    IsQuiet ⦃E = demo⦄ node_world (transfer_in ⦃E = demo⦄ false (signed "transfer_in")).1
    ⊎ (IsSubmitted ⦃E = demo⦄ node_world (transfer_in ⦃E = demo⦄ false (signed "transfer_in")).1
        × IsFresh ⦃E = demo⦄ node
            (transfer_in ⦃E = demo⦄ false (signed "transfer_in")).1.tx.sender_addr
            (transfer_in ⦃E = demo⦄ false (signed "transfer_in")).1.tx)
transfer_in-IsFresh_example = transfer_in-IsFresh ⦃E = demo⦄ false (signed "transfer_in")

give-IsOrdinary : IsOrdinary ⦃E = demo⦄ "give"
unfolding string_in action_of
give-IsOrdinary action e = let same : action ≡ "give" = cc in rw same refl

bad-IsOrdinary : IsOrdinary ⦃E = demo⦄ "bad"
unfolding string_in action_of
bad-IsOrdinary action e = let same : action ≡ "" = cc in rw same refl

serve_all-IsAfter_example :
    IsAfter ⦃E = demo⦄ 3 node_world (serve_all ⦃E = demo⦄ ("give" ∷ "bad" ∷ "give" ∷ []) node_world)
serve_all-IsAfter_example =
    serve_all-IsAfter ⦃E = demo⦄ ("give" ∷ "bad" ∷ "give" ∷ []) node_world
      (give-IsOrdinary, (bad-IsOrdinary, (give-IsOrdinary, tt)))
