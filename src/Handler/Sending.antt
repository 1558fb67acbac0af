-- ===== src/Handler/Sending.antt =====
-- xrpc_handler.cpp: signed requests to create an account, to set a property and to take a transfer
-- in, which are sent.
use xrpcserver.Prelude.{
  is_empty, if◌then◌else◌, ◌+◌, String, ◌≡◌, refl, ◌∙◌, true, false, ℤ, done, codes, to_uint64,
}
use xrpcserver.Env.{Env, JsonLaws}
use xrpcserver.Rpc.{Tx, State, ◌>>=◌, string_in, int64_in, c_string_in}
use xrpcserver.Utility.{
  transaction_make_account_create, transaction_make_transfer_in, transaction_set_property,
  json_string_to_hash, json_string_to_signature,
}
use xrpcserver.Handler.Submit.{last_digest_set, tx_digest_signature_set}
use xrpcserver.Handler.Transfer.{check_input, accept, account_create, set_property, transfer_in}
use xrpcserver.Handler.Quiet.{IsSubmitted}
use xrpcserver.Handler.Accepted.{accept-Result}
use xrpcserver.Handler.Answers.{Result}
use xrpcserver.Handler.Checks.{create_input, set_input}
use xrpcserver.Handler.Keys.{IsPropertyKey, is_bad_key_iff}
use xrpcserver.Handler.Verdict.{IsFresh}
use xrpcserver.Handler.Payment.{is_stale_lem}

module _ ⦃E : Env⦄ where
  -- The state in which a method accepts `t`, after one reading of the clock.
  abbrev completed : State → Tx → State
  completed s t = record s { tx = t; world = record s.world { ticks = s.ticks + 1 } }

  -- The transaction as the request signs it.
  abbrev signed : String → State → Tx → Tx
  signed signature s t = record t {
    tx_signature = json_string_to_signature signature;
    edge_timestamp = E.timestamp_now_ms s.ticks;
  }

  -- The members of a signed request to create an account.
  pub record AsksCreate (s : State) : Type 0 where
    pub account : String
    pub amount : String
    pub timestamp : ℤ
    pub signature : String
    pub action : string_in s.root "action" ≡ done "account_create"
    pub account_member : string_in s.root "account" ≡ done account
    pub amount_member : string_in s.root "amount" ≡ done amount
    pub timestamp_member : int64_in s.root "timestamp" ≡ done timestamp
    pub signature_member : string_in s.root "signature" ≡ done signature

  abbrev unsigned_creation : (s : State) → AsksCreate s → Tx
  unsigned_creation s r = record s.tx {
    transaction_type = E.type_create_account;
    sender_addr = r.account;
    receiver_addr = r.account;
    property_key = "$$";
    transaction_params = if is_empty r.amount then "0" else r.amount;
    timestamp = to_uint64 r.timestamp;
    last_msg_digest = E.zero_hash;
    random_nounce = 0;
    work_proof = 0;
  }

  abbrev pub creation_of : (s : State) → AsksCreate s → Tx
  creation_of s r =
      signed r.signature s
        (record (unsigned_creation s r) { tx_digest = E.sha256 (unsigned_creation s r) })

  account_create_lem :
      (s : State) (r : AsksCreate s)
      → E.exist_account s.store r.account ≡ false
      → E.tx_hash_and_sign_verify (creation_of s r) ≡ true
      → account_create false s ≡ accept (completed s (creation_of s r))
  unfolding account_create tx_digest_signature_set transaction_make_account_create ◌>>=◌
  account_create_lem s r new v =
      let checked : check_input s ≡ (done true, s) =
        create_input s r.account r.action r.account_member ∙ rw new refl in
      rw (checked, r.account_member, r.amount_member, r.timestamp_member, r.signature_member, v)
        refl

  -- The members of a signed request to set a property.
  pub record AsksSet (s : State) : Type 0 where
    pub account : String
    pub key : String
    pub params : String
    pub timestamp : ℤ
    pub digest : String
    pub last_hash : E.Hash
    pub signature : String
    pub action : string_in s.root "action" ≡ done "set_property"
    pub account_member : string_in s.root "account" ≡ done account
    pub account_c_string : c_string_in s.root "account" ≡ done account
    pub key_member : string_in s.root "property_key" ≡ done key
    pub value_member : string_in s.root "property_value" ≡ done params
    pub timestamp_member : int64_in s.root "timestamp" ≡ done timestamp
    pub last_digest_member : string_in s.root "last_digest" ≡ done digest
    pub hash_reads : json_string_to_hash digest ≡ done last_hash
    pub signature_member : string_in s.root "signature" ≡ done signature

  abbrev unsigned_setting : (s : State) → AsksSet s → Tx
  unsigned_setting s r = record s.tx {
    transaction_type = E.type_data_property_operation;
    sender_addr = r.account;
    receiver_addr = r.account;
    property_key = r.key;
    transaction_params = r.params;
    timestamp = to_uint64 r.timestamp;
    last_msg_digest = r.last_hash;
    random_nounce = 0;
    work_proof = 0;
  }

  abbrev pub setting_of : (s : State) → AsksSet s → Tx
  setting_of s r =
      signed r.signature s
        (record (unsigned_setting s r) { tx_digest = E.sha256 (unsigned_setting s r) })

  set_property_lem :
      (s : State) (r : AsksSet s)
      → IsPropertyKey (codes r.key)
      → E.tx_hash_and_sign_verify (setting_of s r) ≡ true
      → set_property false s ≡ accept (completed s (setting_of s r))
  unfolding set_property last_digest_set transaction_set_property tx_digest_signature_set ◌>>=◌
  set_property_lem s r good v =
      let checked : check_input s ≡ (done true, s) =
        set_input s r.key r.action r.key_member ∙ rw ((is_bad_key_iff r.key).1 good) refl in
      rw
        (
          checked, r.account_c_string, r.last_digest_member, r.hash_reads, r.account_member,
          r.key_member, r.value_member, r.timestamp_member, r.signature_member, v,
        )
        refl

  -- The members of a signed request to take a transfer in.
  pub record AsksIn (s : State) : Type 0 where
    pub account : String
    pub timestamp : ℤ
    pub digest : String
    pub last_hash : E.Hash
    pub tx_digest : String
    pub tx_hash : E.Hash
    pub sender : String
    pub amount : String
    pub signature : String
    pub account_member : string_in s.root "account" ≡ done account
    pub timestamp_member : int64_in s.root "timestamp" ≡ done timestamp
    pub last_digest_member : string_in s.root "last_digest" ≡ done digest
    pub hash_reads : json_string_to_hash digest ≡ done last_hash
    pub tx_digest_member : string_in s.root "tx_digest" ≡ done tx_digest
    pub tx_hash_reads : json_string_to_hash tx_digest ≡ done tx_hash
    pub sender_member : string_in s.root "sender" ≡ done sender
    pub amount_member : string_in s.root "amount" ≡ done amount
    pub signature_member : string_in s.root "signature" ≡ done signature

  abbrev unsigned_receipt : (s : State) → AsksIn s → Tx
  unsigned_receipt s r = record s.tx {
    transaction_type = E.type_transfer_asset_in;
    sender_addr = r.account;
    receiver_addr = r.account;
    property_key = "";
    transaction_params = E.hash_bytes r.tx_hash;
    timestamp = to_uint64 r.timestamp;
    last_msg_digest = r.last_hash;
    random_nounce = 0;
    work_proof = 0;
  }

  abbrev pub receipt_of : (s : State) → AsksIn s → Tx
  receipt_of s r =
      record (signed r.signature s
        (record (unsigned_receipt s r) { tx_digest = E.sha256 (unsigned_receipt s r) })) {
          origin_sender = r.sender;
          origin_amount = r.amount;
        }

  transfer_in_lem :
      (s : State) (r : AsksIn s)
      → E.tx_hash_and_sign_verify (receipt_of s r) ≡ true
      → IsFresh s.store (receipt_of s r).sender_addr (receipt_of s r)
      → transfer_in false s ≡ accept (completed s (receipt_of s r))
  unfolding transfer_in last_digest_set tx_digest_signature_set transaction_make_transfer_in ◌>>=◌
  transfer_in_lem s r v fresh =
      rw
        (
          r.timestamp_member,
          r.account_member,
          r.last_digest_member,
          r.hash_reads,
          r.tx_digest_member,
          r.tx_hash_reads,
          r.signature_member,
          r.sender_member,
          r.amount_member,
          v,
          is_stale_lem (completed s (receipt_of s r)) (receipt_of s r).sender_addr fresh,
        )
        refl

  module _ (L : JsonLaws E.json) where
    -- A signed request to create an account is sent, as one message that carries this creation, and
    -- its "Result" is 1, where the account does not exist, and the hash and the signature are
    -- verified.
    pub account_create-Result :
        (s : State) (r : AsksCreate s)
        → E.keyed s.rsp ≡ true
        → E.exist_account s.store r.account ≡ false
        → E.tx_hash_and_sign_verify (creation_of s r) ≡ true
        → ((account_create false s).0 ≡ done tt)
          × IsSubmitted s.world (account_create false s).1
          × Result 1 (account_create false s).1
          × ((account_create false s).1.tx ≡ creation_of s r)
    account_create-Result s r k new v =
        rw (account_create_lem s r new v) (accept-Result L (completed s (creation_of s r)) k v)

    -- A signed request to set a property is sent, as one message that carries this property, and its
    -- "Result" is 1, where the key begins with "@" and has neither "#" nor "$" after it, and the hash
    -- and the signature are verified.
    pub set_property-Result :
        (s : State) (r : AsksSet s)
        → E.keyed s.rsp ≡ true
        → IsPropertyKey (codes r.key)
        → E.tx_hash_and_sign_verify (setting_of s r) ≡ true
        → ((set_property false s).0 ≡ done tt)
          × IsSubmitted s.world (set_property false s).1
          × Result 1 (set_property false s).1
          × ((set_property false s).1.tx ≡ setting_of s r)
    set_property-Result s r k good v =
        rw (set_property_lem s r good v) (accept-Result L (completed s (setting_of s r)) k v)

    -- A signed request to take a transfer in is sent, as one message that carries this receipt, and
    -- its "Result" is 1, where the hash and the signature are verified, and the store has no last
    -- hash of the account, or the one that is the receipt's last digest.
    pub transfer_in-Result :
        (s : State) (r : AsksIn s)
        → E.keyed s.rsp ≡ true
        → E.tx_hash_and_sign_verify (receipt_of s r) ≡ true
        → IsFresh s.store (receipt_of s r).sender_addr (receipt_of s r)
        → ((transfer_in false s).0 ≡ done tt)
          × IsSubmitted s.world (transfer_in false s).1
          × Result 1 (transfer_in false s).1
          × ((transfer_in false s).1.tx ≡ receipt_of s r)
    transfer_in-Result s r k v fresh =
        rw (transfer_in_lem s r v fresh) (accept-Result L (completed s (receipt_of s r)) k v)
