-- ===== src/Handler/Payment.antt =====
-- xrpc_handler.cpp: a payment that meets every check of `transfer_out` is sent.
use xrpcserver.Prelude.{
  Bool-cases, leb, to_string, ◌^◌, ◌<◌, if◌then◌else◌, ℕ, ◌+◌, String, ◌≡◌, refl, inl, inr, true,
  false, ℤ, pos, negsuc, ltb_ℤ, eq_ℤ, done, some, str_eq, stoll, arith, to_uint64,
}
use xrpcserver.Prelude.Text.RoundTrip.{stoll-to_string}
use xrpcserver.Base.{xrpc_server_account_balance_not_enough}
use xrpcserver.Env.{Env, JsonLaws}
use xrpcserver.Rpc.{Tx, State, ◌>>=◌, string_in, int64_in}
use xrpcserver.Utility.{
  transaction_make_transfer_out, json_string_to_hash, json_string_to_signature,
}
use xrpcserver.Handler.Response.{fail}
use xrpcserver.Handler.Submit.{last_digest_set, tx_digest_signature_set}
use xrpcserver.Handler.Transfer.{is_stale, accept, check_funds, transfer_out}
use xrpcserver.Handler.Accepted.{accept-Result}
use xrpcserver.Handler.Quiet.{IsSubmitted}
use xrpcserver.Handler.Verdict.{IsFresh, IsFunded}
use xrpcserver.Handler.Answers.{Result}

module _ ⦃E : Env⦄ where
  -- Nothing stale, where the last hash is the transaction's.
  pub is_stale_lem :
      (s : State) (account : String)
      → IsFresh s.store account s.tx
      → is_stale account s ≡ (done false, s)
  unfolding is_stale ◌>>=◌
  is_stale_lem s account (inl e) = rw e refl
  is_stale_lem s account (inr (h, e, same)) = rw (e, same) refl

  check_funds_lem :
      (s : State) (account asset amount : String)
      → IsFunded s.store account asset amount
      → IsFresh s.store account s.tx
      → check_funds account asset amount s ≡ accept s
  unfolding check_funds ◌>>=◌
  check_funds_lem s account asset amount f fresh =
      let enough : ltb_ℤ f.funds f.wanted ≡ false = ground (arith, f.enough) in
      rw
        (
          f.exists,
          f.has_asset,
          f.balance_reads,
          f.amount_reads,
          enough,
          is_stale_lem s account fresh,
        )
        refl

  -- Where the sender has a balance of the asset that reads as a natural number, and the last hash
  -- is the transaction's: an amount that reads as a negative number is accepted.
  pub check_funds-negative :
      (s : State) (account asset amount : String) (m n : ℕ)
      → eq_ℤ E.account_not_exist (E.get_account_balance s.store account asset).0 ≡ false
      → eq_ℤ E.no_property_key (E.get_account_balance s.store account asset).0 ≡ false
      → stoll (E.get_account_balance s.store account asset).1 ≡ some (pos m)
      → stoll amount ≡ some (negsuc n)
      → IsFresh s.store account s.tx
      → check_funds account asset amount s ≡ accept s
  check_funds-negative s account asset amount m n e₁ e₂ e₃ e₄ fresh =
      check_funds_lem s account asset amount
        (record {
          funds = pos m;
          wanted = negsuc n;
          exists = e₁;
          has_asset = e₂;
          balance_reads = e₃;
          amount_reads = e₄;
          enough = omega arith;
        })
        fresh

  -- The members of a signed request for a payment.
  pub record Asks (s : State) : Type 0 where
    pub src : String
    pub dst : String
    pub asset : String
    pub amount : String
    pub timestamp : ℤ
    pub digest : String
    pub last_hash : E.Hash
    pub signature : String
    pub source : string_in s.root "source" ≡ done src
    pub destination : string_in s.root "destination" ≡ done dst
    pub property_key : string_in s.root "property_key" ≡ done asset
    pub amount_member : string_in s.root "amount" ≡ done amount
    pub timestamp_member : int64_in s.root "timestamp" ≡ done timestamp
    pub last_digest_member : string_in s.root "last_digest" ≡ done digest
    pub hash_reads : json_string_to_hash digest ≡ done last_hash
    pub signature_member : string_in s.root "signature" ≡ done signature

  abbrev unsigned_payment : (s : State) → Asks s → Tx
  unsigned_payment s r = record s.tx {
    transaction_type = E.type_transfer_asset_out;
    sender_addr = r.src;
    receiver_addr = r.dst;
    property_key = r.asset;
    transaction_params = r.amount;
    timestamp = to_uint64 r.timestamp;
    last_msg_digest = r.last_hash;
    random_nounce = 0;
    work_proof = 0;
  }

  -- The transaction of such a request, as it is sent.
  abbrev pub payment_of : (s : State) → Asks s → Tx
  payment_of s r = record (unsigned_payment s r) {
    tx_digest = E.sha256 (unsigned_payment s r);
    tx_signature = json_string_to_signature r.signature;
    edge_timestamp = E.timestamp_now_ms s.ticks;
  }

  abbrev signed : (s : State) → Asks s → State
  signed s r = record s { tx = payment_of s r; world = record s.world { ticks = s.ticks + 1 } }

  transfer_out_lem :
      (s : State) (r : Asks s)
      → str_eq r.src r.dst ≡ false
      → E.tx_hash_and_sign_verify (payment_of s r) ≡ true
      → transfer_out false s ≡ check_funds r.src r.asset r.amount (signed s r)
  unfolding transfer_out last_digest_set tx_digest_signature_set transaction_make_transfer_out ◌>>=◌
  transfer_out_lem s r e v =
      rw
        (
          r.source, r.destination, r.property_key, r.amount_member, r.timestamp_member, e,
          r.last_digest_member, r.hash_reads, r.signature_member, v,
        )
        refl

  module _ (L : JsonLaws E.json) where
    -- A signed request for a payment is sent, as one message that carries this payment, and its
    -- "Result" is 1, where the sender is not the receiver, the hash and the signature are verified,
    -- the sender has the funds, and the last hash is the sender's.
    pub transfer_out-Result :
        (s : State) (r : Asks s)
        → E.keyed s.rsp ≡ true
        → str_eq r.src r.dst ≡ false
        → E.tx_hash_and_sign_verify (payment_of s r) ≡ true
        → IsFunded s.store r.src r.asset r.amount
        → IsFresh s.store r.src (payment_of s r)
        → ((transfer_out false s).0 ≡ done tt)
          × IsSubmitted s.world (transfer_out false s).1
          × Result 1 (transfer_out false s).1
          × ((transfer_out false s).1.tx ≡ payment_of s r)
    transfer_out-Result s r k e v funded fresh =
        rw
          (
            transfer_out_lem s r e v,
            check_funds_lem (signed s r) r.src r.asset r.amount funded fresh,
          )
          (accept-Result L (signed s r) k v)

  -- Where the account has the asset, the balance and the amount are the decimal texts of `m` and
  -- `n`, which fit `long long`, and the last hash is the transaction's: the transaction is accepted
  -- if `n` is at most `m`, and is refused for want of funds if it is more.
  pub check_funds-to_string :
      (s : State) (account asset : String) (m n : ℕ)
      → eq_ℤ E.account_not_exist (E.get_account_balance s.store account asset).0 ≡ false
      → eq_ℤ E.no_property_key (E.get_account_balance s.store account asset).0 ≡ false
      → (E.get_account_balance s.store account asset).1 ≡ to_string m
      → m < 2 ^ 63
      → n < 2 ^ 63
      → IsFresh s.store account s.tx
      → check_funds account asset (to_string n) s
        ≡ (if leb n m then accept s else fail xrpc_server_account_balance_not_enough s)
  unfolding check_funds ◌>>=◌
  check_funds-to_string s account asset m n e₁ e₂ e₃ hm hn fresh =
      let reads : stoll (E.get_account_balance s.store account asset).1 ≡ some (pos m) =
        rw e₃ (stoll-to_string m hm) in
      elim (Bool-cases (leb n m)) [
        | inl enough ↦ rw enough (
            check_funds_lem s account asset (to_string n)
              (record {
                funds = pos m;
                wanted = pos n;
                exists = e₁;
                has_asset = e₂;
                balance_reads = reads;
                amount_reads = stoll-to_string n hn;
                enough = ground arith;
              })
              fresh)
        | inr short ↦
            let less : ltb_ℤ (pos m) (pos n) ≡ true = ground arith in
            rw (short, e₁, e₂, reads, stoll-to_string n hn, less) refl
      ]
