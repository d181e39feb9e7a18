-- ===== src/Api/Unsubscribe.antt =====
-- internal/api/unsubscribe.go. The encodings and the signature are the standard library's: a record
-- of operations, with the documented behaviour as the laws of LawfulTokens.
pub mod Signed
pub mod RoundTrip
pub mod AppendOnly
use komodo_accounts_api.Db.Account.{get_account}
use komodo_accounts_api.Api.Settings.{missing_error}
use komodo_accounts_api.Db.Consent.{append_consent_log, get_latest_consent}
use komodo_accounts_api.Api.{
  status_created, status_no_content, respond, global_unauthorized, global_bad_request, require,
  invalid_unsubscribe_channel, with_body, Reply, Request,
}
use komodo_accounts_api.Errors.{
  invalid_unsubscribe_channel, other, is_not_found, invalid_unsubscribe_token,
}
use komodo_accounts_api.Api.Service.{second, Service}
use komodo_accounts_api.Models.{
  MintUnsubscribeTokenResponse, valid_communication_channels, UnsubscribeRequest,
  MintUnsubscribeTokenRequest, ConsentLog,
}
use komodo_accounts_api.Dynamo.{DynamoDb}
use komodo_accounts_api.Prelude.{not, ltb, ◌+◌, leb, ◌↔◌, ◌/◌, truncated, ◌≡◌, ◌==◌, ◌++◌, ◌-◌}
use komodo_accounts_api.Exec.{rethrow, lift, pure, attempt, raise, err, Exec, Result, ok, ◌>>=◌}
use komodo_accounts_api.Prelude.{
  ℕ, String, List, Bool, true, false, Option, none, some, if◌then◌else◌,
}
use komodo_accounts_api.Prelude.Int.{negsuc, ℤ, pos, leb_ℤ}
use komodo_accounts_api.Prelude.{take, drop, length}

pub record UnsubPayload : Type 0 where
  pub account_id : String
  pub channel : String
  pub exp : ℤ
  pub jti : String

pub record Tokens : Type 1 where
  pub Byte : Type 0
  -- `json.Marshal` and `json.Unmarshal` of a payload
  pub marshal_payload : UnsubPayload → List Byte
  pub unmarshal_payload : List Byte → Option UnsubPayload
  -- `base64.RawURLEncoding`
  pub encode_to_string : List Byte → String
  pub decode_string : String → Option (List Byte)
  -- the HMAC of SHA-256, and `hmac.Equal`
  pub mac_sum : (key : String) → List Byte → List Byte
  pub mac_equal : List Byte → List Byte → Bool

pub record LawfulTokens (t : Tokens) : Type 0 where
  pub decode-encode :
      (bytes : List t.Byte) → t.decode_string (t.encode_to_string bytes) ≡ some bytes
  pub mac_length : (key : String) (bytes : List t.Byte) → length (t.mac_sum key bytes) ≡ 32
  pub mac_equal_iff : (a b : List t.Byte) → (t.mac_equal a b ≡ true) ↔ (a ≡ b)

-- `Time.Unix`: the seconds since 1970 of an instant, which is in nanoseconds since the year 1.
abbrev pub unix : ℕ → ℤ
unix instant =
    let seconds = instant / second in
    if leb 62_135_596_800 seconds
    then pos (seconds - 62_135_596_800)
    else negsuc (62_135_596_800 - 1 - seconds)

abbrev pub latest_jti : Option ConsentLog → Option String
latest_jti none = none
latest_jti (some existing) = existing.source_ref

abbrev pub same_text : Option String → String → Bool
same_text none t = false
same_text (some s) t = s == t

abbrev pub parsed_payload : (now : ℕ) → Option UnsubPayload → Result UnsubPayload
parsed_payload now none = err invalid_unsubscribe_token
parsed_payload now (some p) =
    if p.jti == ""
    then err invalid_unsubscribe_token
    else if not (leb_ℤ (unix now) p.exp)
    then err invalid_unsubscribe_token
    else if not (valid_communication_channels p.channel)
    then err invalid_unsubscribe_channel
    else ok (record p { jti = truncated 256 p.jti })

module _ (t : Tokens) where
  unfoldable pub parse_unsub_token : (now : ℕ) → List t.Byte → Result UnsubPayload
  unfolding truncated
  parse_unsub_token now payload_bytes = parsed_payload now (t.unmarshal_payload payload_bytes)

  -- The payload that a token carries, if its signature is right.
  abbrev pub signed_payload : (key : String) → Option (List t.Byte) → Result (List t.Byte)
  signed_payload key none = err invalid_unsubscribe_token
  signed_payload key (some raw) =
      if ltb (length raw) 32
      then err invalid_unsubscribe_token
      else (let payload = take (length raw - 32) raw in
          if not (t.mac_equal (t.mac_sum key payload) (drop (length raw - 32) raw))
          then err invalid_unsubscribe_token
          else ok payload)

  -- What `MintUnsubscribeToken` makes of a payload.
  abbrev pub signed_token : (key : String) → UnsubPayload → String
  signed_token key p =
      let payload = t.marshal_payload p in t.encode_to_string (payload ++ t.mac_sum key payload)

abbrev pub opt_out : (ip_addr user_agent : String) → UnsubPayload → ConsentLog
opt_out ip_addr user_agent p = record {
  action = "opt_out";
  channel = p.channel;
  ip_address = some ip_addr;
  recorded_at = 0;
  source = "unsubscribe_link";
  source_ref = some p.jti;
  user_agent = some user_agent;
}

module _ (d : DynamoDb) (stamp : ℕ → String) where
  -- `err != nil && !errors.Is(err, db.ErrNotFound)`
  abbrev latest_or_none : Result (Option ConsentLog) → Exec d.State (Option ConsentLog)
  latest_or_none (ok latest) = pure latest
  latest_or_none (err e) = if is_not_found e then pure none else raise e

  -- The second half of `VerifyAndRecordUnsubscribe`: a token that was used last is not recorded again.
  unfoldable pub record_unsubscribe :
      (now : ℕ) (ip_addr user_agent : String) → UnsubPayload → Exec d.State (Unit {0})
  unfolding truncated
  record_unsubscribe now ip_addr user_agent p = do
    read ← attempt (get_latest_consent d p.account_id p.channel)
    existing ← latest_or_none read
    if same_text (latest_jti existing) p.jti
        then pure tt
        else append_consent_log d stamp now p.account_id
            (opt_out (truncated 256 ip_addr) (truncated 256 user_agent) p)

module _ (d : DynamoDb) (stamp : ℕ → String) (t : Tokens) (svc : Service) where
  unfoldable pub verify_and_record_unsubscribe :
      (now : ℕ) (token ip_addr user_agent : String) → Exec d.State (Unit {0})
  unfolding parse_unsub_token record_unsubscribe
  verify_and_record_unsubscribe now token ip_addr user_agent =
      if svc.unsubscribe_key == "" then raise other else (do
        payload_bytes ← lift (signed_payload t svc.unsubscribe_key (t.decode_string token))
        p ← lift (parse_unsub_token t now payload_bytes)
        record_unsubscribe d stamp now ip_addr user_agent p)

  -- `fresh` is the identifier that `ksuid.New()` draws.
  abbrev pub minted_payload : (now : ℕ) (fresh account_id channel : String) → UnsubPayload
  minted_payload now fresh account_id channel = record {
    account_id = account_id;
    channel = channel;
    exp = unix (now + svc.unsub_token_ttl);
    jti = fresh;
  }

  unfoldable pub mint_unsubscribe_token :
      (now : ℕ) (fresh account_id channel : String) → Exec d.State String
  mint_unsubscribe_token now fresh account_id channel =
      if svc.unsubscribe_key == ""
      then raise other
      else if not (valid_communication_channels channel)
      then raise invalid_unsubscribe_channel
      else (do
        account ← rethrow missing_error (get_account d account_id)
        pure (signed_token t svc.unsubscribe_key (minted_payload now fresh account_id channel)))

  unfoldable pub unsubscribe_handler :
      (now : ℕ) → Request UnsubscribeRequest → d.State → Reply (Unit {0}) × d.State
  unsubscribe_handler now req = with_body req.body (λ input.
      require input.token global_bad_request (
        respond (λ done. status_no_content)
          (verify_and_record_unsubscribe now input.token req.client_key req.user_agent)))

  unfoldable pub mint_unsubscribe_token_handler :
      (now : ℕ) (fresh : String)
      → Request MintUnsubscribeTokenRequest
      → d.State
      → Reply MintUnsubscribeTokenResponse × d.State
  mint_unsubscribe_token_handler now fresh req = require req.path_id global_unauthorized (
      with_body req.body (λ input. require input.channel global_bad_request (
        respond (λ token. status_created (record { token = some token }))
          (mint_unsubscribe_token now fresh req.path_id input.channel))))
