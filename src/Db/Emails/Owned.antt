-- ===== src/Db/Emails/Owned.antt =====
-- The emails of a table stay reserved by their owners, whatever is called (internal/db/account.go).
use komodo_accounts_api.Db.Settings.{settings_key}
use komodo_accounts_api.Db.Emails.Elsewhere.{
  append_consent_log-Elsewhere, delete_passkey-Elsewhere, create_passkey-Elsewhere,
  delete_payment-Elsewhere, upsert_payment-Elsewhere, delete_address-Elsewhere,
  update_address-Elsewhere, Elsewhere,
}
use komodo_accounts_api.Db.Emails.{
  address_updated, address_deleted, payment_upserted, payment_deleted, passkey_created,
  passkey_deleted, consent_appended,
}
use komodo_accounts_api.Db.Address.Created.{create_address-stores}
use komodo_accounts_api.Db.Settings.Locking.{update_settings_partial-commits}
use komodo_accounts_api.Db.Emails.Erased.{delete_account-Owned}
use komodo_accounts_api.Db.Keys.{addr_sk, create_pk, email_reservation_pk}
use komodo_accounts_api.Db.Emails.Kept.{
  update_account_credentials-Patches, update_account-Patches, Patches,
}
use komodo_accounts_api.Models.{Account, CreateAccountRequest}
use komodo_accounts_api.Dynamo.Items.{
  key_eq_refl, assign, key_eq_sound, get_string, Item, Key, key_eq,
}
use komodo_accounts_api.Dynamo.Laws.{Lawful, Table}
use komodo_accounts_api.Dynamo.{DynamoDb}
use komodo_accounts_api.Prelude.{
  prefixed-ne, Option-cases, prefixed, to_lower, Bool-cases, sym, ap, arith, prefixed_cancel, ◌==◌,
  refl, ◌≡◌, inl, inr, ◌∙◌,
}
use komodo_accounts_api.Exec.{ok}
use komodo_accounts_api.Prelude.{ℕ, String, true, false, none, some}
use komodo_accounts_api.Db.Account.{email_reservation, profile_record, profile_key}
use komodo_accounts_api.Db.Account.Registered.{create_account-registers, reservation_key}
use komodo_accounts_api.Db.Account.{create_account, marshal}
use komodo_accounts_api.Db.Emails.{
  Owned, Reach, Step, here, step, registered, updated, signed_in_by, erased, settings_updated,
  address_created, unchanged,
}

other_sk : (k j : Key) → (k.sk == j.sk) ≡ false → key_eq k j ≡ false
other_sk k j h = rw h (ground arith)

-- A write under another kind of key.
other_write-Owned :
    (k : Key) (t t' : Table)
    → (k.sk == "PROFILE") ≡ false
    → (k.sk == "EMAIL") ≡ false
    → ((j : Key) → key_eq k j ≡ false → t' j ≡ t j)
    → Owned t
    → Owned t'
other_write-Owned k t t' not_profile not_email kept owned a p there =
    let before : t (profile_key a) ≡ some p =
      sym (kept (profile_key a) (other_sk k (profile_key a) not_profile)) ∙ there in
    let (r, reserved, owner) = owned a p before in
    let at = reservation_key (get_string "email" p) in
    (r, kept at (other_sk k at not_email) ∙ reserved, owner)

same-Owned : (t t' : Table) → ((j : Key) → t' j ≡ t j) → Owned t → Owned t'
same-Owned t t' same owned a p there =
    let (r, reserved, owner) = owned a p (sym (same (profile_key a)) ∙ there) in
    (r, same (reservation_key (get_string "email" p)) ∙ reserved, owner)

account_of : (a b : String) → key_eq (profile_key a) (profile_key b) ≡ true → a ≡ b
account_of a b h =
    prefixed_cancel "ACCOUNT#" a b (ap (λ k. k.pk) (key_eq_sound (profile_key a) (profile_key b) h))

module _ (d : DynamoDb) (laws : Lawful d) where
  Patches-Owned :
      (account_id : String) (s s' : d.State)
      → Patches d account_id s s'
      → Owned (d.table s)
      → Owned (d.table s')
  Patches-Owned account_id s s' (xs, skips, after) owned a p there =
      let key = profile_key account_id in
      let at : Item → Key = λ (q : Item). reservation_key (get_string "email" q) in
      let kept : (q : Item) → d.table s' (at q) ≡ d.table s (at q) =
        λ q. after (at q) ∙ rw (other_sk key (at q) refl) refl in
      elim (Bool-cases (key_eq key (profile_key a))) [
        | inr other ↦
            let before : d.table s (profile_key a) ≡ some p =
              sym (rw other at (after (profile_key a))) ∙ there in
            let (r, reserved, owner) = owned a p before in (r, kept p ∙ reserved, owner)
        | inl same ↦ elim (Option-cases (d.table s (profile_key a))) [
          | inl missing ↦
              let absent : d.table s' (profile_key a) ≡ none =
                rw (same, missing) at (after (profile_key a)) in
              cc (absent, there)
          | inr (q, before) ↦
              let now_p : assign xs q ≡ p =
                cc (rw (same, before) at (after (profile_key a)), there) in
              let email : get_string "email" p ≡ get_string "email" q =
                rw (← now_p, skips.keeps q) refl in
              let (r, reserved, owner) = owned a q before in
              (r, rw email (kept q ∙ reserved), owner)
        ]
      ]

  create_account-Owned :
      (now : ℕ) (account_id : String) (req : CreateAccountRequest) (s : d.State) (a : Account)
      → (create_account d now account_id req s).0 ≡ ok a
      → Owned (d.table s)
      → Owned (d.table (create_account d now account_id req s).1)
  create_account-Owned now account_id req s a h owned b p there =
      let email = to_lower req.email in
      let ((no_profile, no_settings, free), after) =
        create_account-registers d laws now account_id req s a h in
      let at : Item → Key = λ (q : Item). reservation_key (get_string "email" q) in
      let at_profile = after (profile_key b) in
      let not_email = other_sk (reservation_key email) (profile_key b) refl in
      let not_settings = other_sk (settings_key account_id) (profile_key b) refl in
      elim (Bool-cases (key_eq (profile_key account_id) (profile_key b))) [
        | inl same ↦
            let stored : marshal (profile_record now account_id email req) ≡ p =
              cc (rw (not_email, not_settings, same) at at_profile, there) in
            let written : d.table (create_account d now account_id req s).1 (reservation_key email)
                ≡ some (email_reservation account_id email) =
              rw (key_eq_refl (reservation_key email)) at (after (reservation_key email)) in
            (
              email_reservation account_id email,
              rw (← stored) written,
              account_of account_id b same,
            )
        | inr other ↦
            let before : d.table s (profile_key b) ≡ some p =
              sym (rw (not_email, not_settings, other) at at_profile) ∙ there in
            let (r, reserved, owner) = owned b p before in
            elim (Bool-cases (key_eq (reservation_key email) (at p))) [
              | inl taken ↦ cc (
                ap (d.table s) (key_eq_sound (reservation_key email) (at p) taken),
                free,
                reserved,
              )
              | inr apart ↦ (
                r,
                after (at p) ∙ rw (apart, other_sk (settings_key account_id) (at p) refl) reserved,
                owner,
              )
            ]
      ]

  Elsewhere-Owned : (s s' : d.State) → Elsewhere d s s' → Owned (d.table s) → Owned (d.table s')
  Elsewhere-Owned s s' (k, (not_profile, not_email), kept) =
      other_write-Owned k (d.table s) (d.table s') not_profile not_email kept

  pub step-Owned : (s s' : d.State) → Step d s s' → Owned (d.table s) → Owned (d.table s')
  step-Owned _ _ (registered now id req s a h) = create_account-Owned now id req s a h
  step-Owned _ _ (updated now id req s a h) =
      Patches-Owned id s _ (update_account-Patches d laws now id req s a h)
  step-Owned _ _ (signed_in_by now id req s h) =
      Patches-Owned id s _ (update_account_credentials-Patches d laws now id req s h)
  step-Owned _ _ (erased id s h) = delete_account-Owned d laws id s h
  step-Owned _ _ (settings_updated now id req version s h) =
      other_write-Owned (settings_key id) (d.table s) _ refl refl (λ j other.
        (update_settings_partial-commits d laws now id req version s h).1 j ∙ rw other refl)
  step-Owned _ _ (address_created fresh id addr a s h) =
      other_write-Owned (record { pk = create_pk id; sk = addr_sk a.address_id }) (d.table s) _
        (prefixed-ne "ADDR#" a.address_id "PROFILE" refl refl)
        (prefixed-ne "ADDR#" a.address_id "EMAIL" refl refl)
        (λ j other. (create_address-stores d laws fresh id addr a s h).1 j ∙ rw other refl)
  step-Owned _ _ (address_updated id aid req s h) =
      Elsewhere-Owned s _ (update_address-Elsewhere d laws id aid req s h)
  step-Owned _ _ (address_deleted id aid s h) =
      Elsewhere-Owned s _ (delete_address-Elsewhere d laws id aid s h)
  step-Owned _ _ (payment_upserted fresh id method stored s h) =
      Elsewhere-Owned s _ (upsert_payment-Elsewhere d laws fresh id method stored s h)
  step-Owned _ _ (payment_deleted id pid s h) =
      Elsewhere-Owned s _ (delete_payment-Elsewhere d laws id pid s h)
  step-Owned _ _ (passkey_created now id cred stored s h) =
      Elsewhere-Owned s _ (create_passkey-Elsewhere d laws now id cred stored s h)
  step-Owned _ _ (passkey_deleted id cid s h) =
      Elsewhere-Owned s _ (delete_passkey-Elsewhere d laws id cid s h)
  step-Owned _ _ (consent_appended stamp now id entry s h) =
      Elsewhere-Owned s _ (append_consent_log-Elsewhere d laws stamp now id entry s h)
  step-Owned _ _ (unchanged s s' same) = same-Owned (d.table s) (d.table s') same

  reach-Owned : (start s : d.State) → Reach d start s → Owned (d.table start) → Owned (d.table s)
  reach-Owned start _ here owned = owned
  reach-Owned start _ (step before s path taken) owned =
      step-Owned before s taken (reach-Owned start before path owned)

  -- From a table without profiles, any sequence of registrations, updates, erasures, changes of
  -- credentials and settings, addresses, payment methods and passkeys stored or deleted, addresses
  -- updated and consents recorded that succeed, and of calls that change nothing, leads to a table
  -- in which two profiles with one email, compared in lower case, belong to one account.
  pub reach-email_unique :
      (start s : d.State)
      → ((account_id : String) → d.table start (profile_key account_id) ≡ none)
      → Reach d start s
      → (a b : String) (p q : Item) → d.table s (profile_key a) ≡ some p
      → d.table s (profile_key b) ≡ some q
      → to_lower (get_string "email" p) ≡ to_lower (get_string "email" q)
      → a ≡ b
  unfolding email_reservation_pk
  reach-email_unique start s empty path a b p q at_a at_b same =
      let owned : Owned (d.table s) = reach-Owned start s path (λ c r there. cc (empty c, there)) in
      let (r, reserved, owner) = owned a p at_a in
      let (r', reserved', owner') = owned b q at_b in
      let key : reservation_key (get_string "email" p) ≡ reservation_key (get_string "email" q) =
        ap (λ e. record { pk = prefixed "EMAIL#" e; sk = "EMAIL" }) same in
      let one : r ≡ r' = cc (ap (d.table s) key, reserved, reserved') in cc (owner, owner', one)
