-- ===== src/Api/Unsubscribe/RoundTrip.antt =====
-- A token that the service mints, when it comes back (internal/api/unsubscribe.go).
use komodo_accounts_api.Db.Account.{get_account}
use komodo_accounts_api.Api.Settings.{missing_error}
use komodo_accounts_api.Models.{Account, valid_communication_channels}
use komodo_accounts_api.Dynamo.{DynamoDb}
use komodo_accounts_api.Api.Service.{Service, second}
use komodo_accounts_api.Api.Unsubscribe.{
  get_account, missing_error, rethrow, pure, Exec, valid_communication_channels, leb_ℤ,
  record_unsubscribe, ltb, minted_payload, length, DynamoDb, signed_token, truncated,
  signed_payload, parse_unsub_token, UnsubPayload, verify_and_record_unsubscribe, second,
  LawfulTokens, Tokens, mint_unsubscribe_token, unix,
}
use komodo_accounts_api.Prelude.{
  inr, inl, Bool-cases, eq_iff, drop-length-append, take-length-append, ◌-◌, text_length, ltb,
  length-append, length, truncated, arith, ◌==◌, refl, ◌++◌, ◌≡◌, ◌≢◌,
}
use komodo_accounts_api.Exec.{rethrow, pure, Exec, bind-ok, ok}
use komodo_accounts_api.Prelude.{ℕ, String, true, false, some}
use komodo_accounts_api.Prelude.{◌≤◌, ◌+◌, ◌/◌}
use komodo_accounts_api.Prelude.Int.{leb_ℤ, ◌≤ℤ◌}

unix_mono : (a b : ℕ) → a ≤ b → unix a ≤ℤ unix b
unix_mono a b h = let seconds : a / second ≤ b / second = omega arith in ground arith

module _ (t : Tokens) (laws : LawfulTokens t) (key : String) (p : UnsubPayload) where
  signed_payload-signed :
      signed_payload t key (t.decode_string (signed_token t key p)) ≡ ok (t.marshal_payload p)
  signed_payload-signed =
      let payload = t.marshal_payload p in
      let raw = payload ++ t.mac_sum key payload in
      let long : length raw ≡ length payload + 32 =
        rw (length-append payload (t.mac_sum key payload), laws.mac_length key payload) in
      let whole : ltb (length raw) 32 ≡ false = rw long (ground arith) in
      let cut : length raw - 32 ≡ length payload = rw long (omega arith) in
      rw
        (
          laws.decode-encode raw,
          whole,
          cut,
          take-length-append payload (t.mac_sum key payload),
          drop-length-append payload (t.mac_sum key payload),
          (laws.mac_equal_iff (t.mac_sum key payload) (t.mac_sum key payload)).1 refl,
        )
        refl

-- A token that is minted is accepted until its time to live is over: presenting it then does just
-- what recording the payload does that it was minted for, if the payload can be read back and its
-- identifier is not empty and has at most 256 characters.
pub verify_and_record_unsubscribe-minted :
    (d : DynamoDb) (stamp : ℕ → String) (t : Tokens) (laws : LawfulTokens t) (svc : Service)
    (now : ℕ) (fresh account_id channel token : String) (s : d.State)
    → (mint_unsubscribe_token d stamp t svc now fresh account_id channel s).0 ≡ ok token
    → (let p = minted_payload d stamp t svc now fresh account_id channel in
        t.unmarshal_payload (t.marshal_payload p) ≡ some p)
    → fresh ≢ ""
    → text_length fresh ≤ 256
    → (later : ℕ) (ip_addr user_agent : String) (s' : d.State) → later ≤ now + svc.unsub_token_ttl
    → verify_and_record_unsubscribe d stamp t svc later token ip_addr user_agent s'
      ≡ record_unsubscribe d stamp later ip_addr user_agent
          (minted_payload d stamp t svc now fresh account_id channel)
          s'
unfolding mint_unsubscribe_token verify_and_record_unsubscribe parse_unsub_token truncated
verify_and_record_unsubscribe-minted d stamp t laws svc now fresh account_id channel token s minted
      read named short later ip_addr user_agent s' timely =
    let p = minted_payload d stamp t svc now fresh account_id channel in
    let kept : ltb 256 (text_length fresh) ≡ false = ground arith in
    let due : leb_ℤ (unix later) p.exp ≡ true =
      unix_mono later (now + svc.unsub_token_ttl) timely in
    let given : (fresh == "") ≡ false = ground (arith, eq_iff fresh "") in
    elim (Bool-cases (svc.unsubscribe_key == "")) [
      | inl blank ↦ cc (rw blank at minted)
      | inr keyed ↦ elim (Bool-cases (valid_communication_channels channel)) [
        | inr unknown ↦ cc (rw (keyed, unknown) at minted)
        | inl known ↦
            let answer : Account → Exec d.State String =
              λ account. pure (signed_token t svc.unsubscribe_key p) in
            let (account, found, made, _) =
              bind-ok (rethrow missing_error (get_account d account_id)) answer s token
                (rw (keyed, known) at minted) in
            let is_token : signed_token t svc.unsubscribe_key p ≡ token = cc (made) in
            rw
              (
                keyed,
                ← is_token,
                signed_payload-signed t laws svc.unsubscribe_key p,
                read,
                given,
                due,
                known,
                kept,
              )
              refl
      ]
    ]
