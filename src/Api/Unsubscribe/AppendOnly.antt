-- ===== src/Api/Unsubscribe/AppendOnly.antt =====
-- What an unsubscription writes (internal/api/unsubscribe.go).
use komodo_accounts_api.Errors.{is_not_found}
use komodo_accounts_api.Api.Unsubscribe.Signed.{verify_and_record_unsubscribe-records}
use komodo_accounts_api.Api.Service.{Service}
use komodo_accounts_api.Api.Unsubscribe.{
  latest_jti, same_text, is_not_found, append_consent_log, truncated, verify_and_record_unsubscribe,
  opt_out, UnsubPayload, Service, Tokens, record_unsubscribe,
}
use komodo_accounts_api.Db.Consent.{append_consent_log, latest_query, get_latest_consent}
use komodo_accounts_api.Dynamo.Laws.{Lawful}
use komodo_accounts_api.Dynamo.{DynamoDb}
use komodo_accounts_api.Prelude.{Bool-cases, ◌∙◌, sym, ap, fun_ext, truncated, ◌≡◌, inl, inr}
use komodo_accounts_api.Exec.{Result-cases, ok}
use komodo_accounts_api.Prelude.{ℕ, String}
use komodo_accounts_api.Db.Consent.AppendOnly.{append_consent_log-Grows, Grows}

module _ (d : DynamoDb) (laws : Lawful d) where
  -- Reading the latest entry leaves the table as it is.
  pub get_latest_consent-keeps :
      (account_id channel : String) (s : d.State)
      → d.table (get_latest_consent d account_id channel s).1 ≡ d.table s
  unfolding get_latest_consent
  get_latest_consent-keeps account_id channel s =
      let q = latest_query account_id channel in
      elim (Result-cases (d.query q s).0) [
        | inl (its, read) ↦ rw read (fun_ext (laws.query_keeps q s))
        | inr (e, failed) ↦ rw failed (fun_ext (laws.query_keeps q s))
      ]

  -- Whatever an unsubscription finds, if it succeeds every item that was in the table is there
  -- unchanged: entries of the log are added, never replaced.
  pub record_unsubscribe-Grows :
      (stamp : ℕ → String) (now : ℕ) (ip_addr user_agent : String) (p : UnsubPayload) (s : d.State)
      → (record_unsubscribe d stamp now ip_addr user_agent p s).0 ≡ ok tt
      → Grows (d.table s) (d.table (record_unsubscribe d stamp now ip_addr user_agent p s).1)
  unfolding record_unsubscribe
  record_unsubscribe-Grows stamp now ip_addr user_agent p s h =
      let r = get_latest_consent d p.account_id p.channel s in
      let entry = opt_out (truncated 256 ip_addr) (truncated 256 user_agent) p in
      let before : d.table r.1 ≡ d.table s = get_latest_consent-keeps p.account_id p.channel s in
      let appended : (append_consent_log d stamp now p.account_id entry r.1).0 ≡ ok tt
          → Grows (d.table s) (d.table (append_consent_log d stamp now p.account_id entry r.1).1) =
        λ done k it found.
          append_consent_log-Grows d laws stamp now p.account_id entry r.1 done k it
            (ap (λ t. t k) before ∙ found) in
      elim (Result-cases r.0) [
        | inr (e, failed) ↦ elim (Bool-cases (is_not_found e)) [
          | inr broken ↦ cc (rw (failed, broken) at h)
          | inl missing ↦ rw (failed, missing) (appended (rw (failed, missing) at h))
        ]
        | inl (latest, found) ↦ elim (Bool-cases (same_text (latest_jti latest) p.jti)) [
          | inl replayed ↦ rw (found, replayed) (λ k it there. rw before there)
          | inr fresh ↦ rw (found, fresh) (appended (rw (found, fresh) at h))
        ]
      ]

  -- An unsubscription that succeeds, a replay included, leaves every item of the table there,
  -- unchanged: the log of consents is only added to.
  pub verify_and_record_unsubscribe-Grows :
      (stamp : ℕ → String) (t : Tokens) (svc : Service) (now : ℕ)
      (token ip_addr user_agent : String) (s : d.State)
      → (verify_and_record_unsubscribe d stamp t svc now token ip_addr user_agent s).0 ≡ ok tt
      → Grows
          (d.table s)
          (d.table (verify_and_record_unsubscribe d stamp t svc now token ip_addr user_agent s).1)
  verify_and_record_unsubscribe-Grows stamp t svc now token ip_addr user_agent s h =
      let (p, same) =
        verify_and_record_unsubscribe-records d stamp t svc now token ip_addr user_agent s h in
      let recorded : (record_unsubscribe d stamp now ip_addr user_agent p s).0 ≡ ok tt =
        ap (λ r. r.0) (sym same) ∙ h in
      λ k it found.
        ap (λ r. d.table r.1 k) same
        ∙ record_unsubscribe-Grows stamp now ip_addr user_agent p s recorded k it found
