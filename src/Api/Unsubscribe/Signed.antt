-- ===== src/Api/Unsubscribe/Signed.antt =====
-- Which tokens are accepted (internal/api/unsubscribe.go).
use komodo_accounts_api.Api.Service.{Service}
use komodo_accounts_api.Dynamo.{DynamoDb}
use komodo_accounts_api.Models.{valid_communication_channels}
use komodo_accounts_api.Api.Unsubscribe.{
  lift, record_unsubscribe, Exec, drop, leb_ℤ, take, ltb, Service, DynamoDb, parse_unsub_token,
  valid_communication_channels, length, verify_and_record_unsubscribe, unix, signed_payload,
  parsed_payload, LawfulTokens, Tokens, UnsubPayload,
}
use komodo_accounts_api.Prelude.{
  ◌∙◌, take-append-drop, drop, eq_iff, take, inr, inl, ltb, ◌-◌, Bool-cases, length, ◌==◌, refl,
  ◌++◌, ◌≡◌, ◌≢◌,
}
use komodo_accounts_api.Exec.{◌>>=◌, lift, Exec, bind-ok, ok}
use komodo_accounts_api.Prelude.{ℕ, String, List, true, Option, none, some}
use komodo_accounts_api.Prelude.Int.{leb_ℤ, ◌≤ℤ◌}

pub parsed_payload-ok :
    (now : ℕ) (o : Option UnsubPayload) (p : UnsubPayload)
    → parsed_payload now o ≡ ok p
    → (q : UnsubPayload) × (o ≡ some q)
      × (q.jti ≢ "")
      × (unix now ≤ℤ q.exp)
      × (valid_communication_channels q.channel ≡ true)
parsed_payload-ok now none p h = cc
parsed_payload-ok now (some q) p h = elim (Bool-cases (q.jti == "")) [
  | inl blank ↦ cc (rw blank at h)
  | inr named ↦ elim (Bool-cases (leb_ℤ (unix now) q.exp)) [
    | inr late ↦ cc (rw (named, late) at h)
    | inl timely ↦ elim (Bool-cases (valid_communication_channels q.channel)) [
      | inr unknown ↦ cc (rw (named, timely, unknown) at h)
      | inl known ↦ (q, refl, λ blank. cc ((eq_iff q.jti "").1 blank, named), timely, known)
    ]
  ]
]

pub parse_unsub_token-ok :
    (t : Tokens) (now : ℕ) (payload : List t.Byte) (p : UnsubPayload)
    → parse_unsub_token t now payload ≡ ok p
    → (q : UnsubPayload) × (t.unmarshal_payload payload ≡ some q)
      × (q.jti ≢ "")
      × (unix now ≤ℤ q.exp)
      × (valid_communication_channels q.channel ≡ true)
unfolding parse_unsub_token
parse_unsub_token-ok t now payload p h = parsed_payload-ok now (t.unmarshal_payload payload) p h

-- An unsubscription that succeeds is the recording of some payload.
pub verify_and_record_unsubscribe-records :
    (d : DynamoDb) (stamp : ℕ → String) (t : Tokens) (svc : Service) (now : ℕ)
    (token ip_addr user_agent : String) (s : d.State)
    → (verify_and_record_unsubscribe d stamp t svc now token ip_addr user_agent s).0 ≡ ok tt
    → (p : UnsubPayload) × (verify_and_record_unsubscribe d stamp t svc now token ip_addr user_agent
          s
        ≡ record_unsubscribe d stamp now ip_addr user_agent p s)
unfolding verify_and_record_unsubscribe
verify_and_record_unsubscribe-records d stamp t svc now token ip_addr user_agent s h =
    let record_it : UnsubPayload → Exec d.State (Unit {0}) =
      λ p. record_unsubscribe d stamp now ip_addr user_agent p in
    let parse : List t.Byte → Exec d.State (Unit {0}) =
      λ payload. lift (parse_unsub_token t now payload) >>= record_it in
    let carried = signed_payload t svc.unsubscribe_key (t.decode_string token) in
    elim (Bool-cases (svc.unsubscribe_key == "")) [
      | inl blank ↦ cc (rw blank at h)
      | inr keyed ↦
          let whole : ((lift carried >>= parse) s).0 ≡ ok tt = rw keyed at h in
          let (payload, signed, rest, first) = bind-ok (lift carried) parse s tt whole in
          let (p, parsed, _, second) =
            bind-ok (lift (parse_unsub_token t now payload)) record_it s tt rest in
          (p, rw keyed (first ∙ second))
    ]

module _ (t : Tokens) (laws : LawfulTokens t) where
  pub signed_payload-ok :
      (key : String) (o : Option (List t.Byte)) (payload : List t.Byte)
      → signed_payload t key o ≡ ok payload
      → o ≡ some (payload ++ t.mac_sum key payload)
  signed_payload-ok key none payload h = cc
  signed_payload-ok key (some raw) payload h =
      let n = length raw - 32 in
      elim (Bool-cases (ltb (length raw) 32)) [
        | inl short ↦ cc (rw short at h)
        | inr long ↦ elim (Bool-cases (t.mac_equal (t.mac_sum key (take n raw)) (drop n raw))) [
          | inr forged ↦ cc (rw (long, forged) at h)
          | inl signed ↦
              let same : take n raw ≡ payload = cc (rw (long, signed) at h) in
              let mac : t.mac_sum key (take n raw) ≡ drop n raw =
                (laws.mac_equal_iff _ _).0 signed in
              rw (← same, mac, take-append-drop n raw)
        ]
      ]

  -- A token is accepted only if it decodes to a payload followed by the signature of the payload with
  -- the service's key, and the payload reads as one that has an identifier and a known channel and
  -- has not expired.
  pub verify_and_record_unsubscribe-signed :
      (d : DynamoDb) (stamp : ℕ → String) (svc : Service) (now : ℕ)
      (token ip_addr user_agent : String) (s : d.State)
      → (verify_and_record_unsubscribe d stamp t svc now token ip_addr user_agent s).0 ≡ ok tt
      → (payload : List t.Byte) × (p : UnsubPayload) × (t.decode_string token
          ≡ some (payload ++ t.mac_sum svc.unsubscribe_key payload))
        × (t.unmarshal_payload payload ≡ some p)
        × (svc.unsubscribe_key ≢ "")
        × (p.jti ≢ "")
        × (unix now ≤ℤ p.exp)
        × (valid_communication_channels p.channel ≡ true)
  unfolding verify_and_record_unsubscribe
  verify_and_record_unsubscribe-signed d stamp svc now token ip_addr user_agent s h =
      let record_it : UnsubPayload → Exec d.State (Unit {0}) =
        λ p. record_unsubscribe d stamp now ip_addr user_agent p in
      let parse : List t.Byte → Exec d.State (Unit {0}) =
        λ payload. lift (parse_unsub_token t now payload) >>= record_it in
      let carried = signed_payload t svc.unsubscribe_key (t.decode_string token) in
      elim (Bool-cases (svc.unsubscribe_key == "")) [
        | inl blank ↦ cc (rw blank at h)
        | inr keyed ↦
            let whole : ((lift carried >>= parse) s).0 ≡ ok tt = rw keyed at h in
            let (payload, signed, rest, _) = bind-ok (lift carried) parse s tt whole in
            let (p, parsed, _, _) =
              bind-ok (lift (parse_unsub_token t now payload)) record_it s tt rest in
            let (q, read, named, timely, known) = parse_unsub_token-ok t now payload p parsed in
            (
              payload,
              q,
              signed_payload-ok svc.unsubscribe_key (t.decode_string token) payload signed,
              read,
              λ blank. cc ((eq_iff svc.unsubscribe_key "").1 blank, keyed),
              named,
              timely,
              known,
            )
      ]
