-- ===== src/Api/Account/Erased.antt =====
-- What the erasure of a profile leaves (internal/api/account.go).
use komodo_accounts_api.TtlCache.Lookup.{get-delete}
use komodo_accounts_api.Models.{Account}
use komodo_accounts_api.Db.Erasure.{delete_account}
use komodo_accounts_api.Clients.Events.{account_deleted, new_event_for, NewInput}
use komodo_accounts_api.Api.Service.{World, Service, ObjectStore}
use komodo_accounts_api.Dynamo.{DynamoDb}
use komodo_accounts_api.TtlCache.{get, delete}
use komodo_accounts_api.Api.Account.{
  none, get, trim_space, Account, get_profile, ℕ, equal_fold, to_lower, delete_profile,
  account_deleted, new_event_for, delete_keys, delete_account, prefixed, delete_s3_exports,
  publish_account_event, World, delete_avatar_object, Service, NewInput, ObjectStore, DynamoDb,
  erase_profile,
}
use komodo_accounts_api.Prelude.{
  none, trim_space, to_lower-nil, eq_iff, equal_fold_sound, true, ℕ, to_lower, equal_fold, sym, ap,
  ◌++ₛ◌, Bool-cases, prefixed, ◌==◌, refl, [], ◌∷◌, ◌≡◌, inl, inr, ◌∙◌, ◌&&◌,
}
use komodo_accounts_api.Exec.{Result-cases, ok}
use komodo_accounts_api.Prelude.{String, List, Bool, false}

empty_lower : to_lower "" ≡ ""
unfolding to_lower
empty_lower = refl

-- What agrees with a text that is not empty is not empty.
confirmed_written :
    (confirmation email : String)
    → (confirmation == "") ≡ false
    → equal_fold confirmation email ≡ true
    → (email == "") ≡ false
confirmed_written confirmation email written same = elim (Bool-cases (email == "")) [
  | inr other ↦ other
  | inl blank ↦
      let lower : to_lower confirmation ≡ "" =
        equal_fold_sound confirmation email same
        ∙ ap to_lower ((eq_iff email "").0 blank)
        ∙ empty_lower in
      cc ((eq_iff confirmation "").1 (to_lower-nil confirmation lower), written)
]

module _ (d : DynamoDb) (o : ObjectStore) (builds : NewInput → Bool) (svc : Service) where
  -- All but the objects and the events.
  abbrev Beside : World d o → World d o → Type 0
  Beside w w' =
      (w'.table ≡ w.table)
      × (w'.profile_cache ≡ w.profile_cache)
      × (w'.credentials_cache ≡ w.credentials_cache)

  delete_keys-Beside :
      (keys : List String) (w : World d o) → Beside w (delete_keys d o builds svc keys w).1
  delete_keys-Beside [] w = (refl, refl, refl)
  delete_keys-Beside (k ∷ ks) w = (refl, refl, refl)

  delete_s3_exports-Beside :
      (account_id : String) (w : World d o)
      → Beside w (delete_s3_exports d o builds svc account_id w).1
  unfolding delete_s3_exports
  delete_s3_exports-Beside account_id w =
      let listing =
        o.list_objects svc.export_bucket (prefixed "exports/" (account_id ++ₛ "/")) w.objects in
      elim (Bool-cases svc.has_s3) [
        | inr bare ↦ rw bare (refl, refl, refl)
        | inl stored ↦ elim (Result-cases listing.0) [
          | inr (e, failed) ↦ rw (stored, failed) (refl, refl, refl)
          | inl (keys, found) ↦
              rw (stored, found) (delete_keys-Beside keys (record w { objects = listing.1 }))
        ]
      ]

  delete_avatar_object-Beside :
      (account_id : String) (w : World d o)
      → Beside w (delete_avatar_object d o builds svc account_id w).1
  unfolding delete_avatar_object
  delete_avatar_object-Beside account_id w = elim (Bool-cases svc.has_s3) [
    | inr bare ↦ rw bare (refl, refl, refl)
    | inl stored ↦ rw stored (refl, refl, refl)
  ]

  publish-Beside :
      (event : NewInput) (w : World d o) → Beside w (publish_account_event d o builds svc event w).1
  unfolding publish_account_event
  publish-Beside event w = elim (Bool-cases (builds event && svc.has_publisher)) [
    | inl published ↦ rw published (refl, refl, refl)
    | inr dropped ↦ rw dropped (refl, refl, refl)
  ]

  -- An erasure under way that succeeds: the repository erased the account from the table as it was,
  -- and the caches hold neither its profile nor its credentials.
  erase_profile-erases :
      (account_id email : String) (w : World d o)
      → (email == "") ≡ false
      → (erase_profile d o builds svc account_id email w).0 ≡ ok tt
      → (let w' = (erase_profile d o builds svc account_id email w).1 in
          ((delete_account d account_id w.table).0 ≡ ok tt)
          × (w'.table ≡ (delete_account d account_id w.table).1)
          × (w'.profile_cache ≡ delete account_id w.profile_cache)
          × (w'.credentials_cache ≡ delete email w.credentials_cache))
  unfolding erase_profile
  erase_profile-erases account_id email w written h =
      let w₁ = (delete_s3_exports d o builds svc account_id w).1 in
      let w₂ = (delete_avatar_object d o builds svc account_id w₁).1 in
      let (t₁, p₁, c₁) = delete_s3_exports-Beside account_id w in
      let (t₂, p₂, c₂) = delete_avatar_object-Beside account_id w₁ in
      let table : w₂.table ≡ w.table = t₂ ∙ t₁ in
      elim (Result-cases (delete_s3_exports d o builds svc account_id w).0) [
        | inr (e, failed) ↦ cc (rw failed at h)
        | inl (_, e₁) ↦ elim (Result-cases (delete_avatar_object d o builds svc account_id w₁).0) [
          | inr (e, failed) ↦ cc (rw (e₁, failed) at h)
          | inl (_, e₂) ↦ elim (Result-cases (delete_account d account_id w₂.table).0) [
            | inr (e, failed) ↦ cc (rw (e₁, e₂, failed) at h)
            | inl (_, e₃) ↦
                let (t₃, p₃, c₃) =
                  publish-Beside (new_event_for account_id (account_deleted account_id))
                    (record w₂ {
                      table = (delete_account d account_id w₂.table).1;
                      profile_cache = delete account_id w₂.profile_cache;
                      credentials_cache = delete email w₂.credentials_cache;
                    }) in
                (
                  ap (λ s. (delete_account d account_id s).0) (sym table) ∙ e₃,
                  rw (e₁, e₂, e₃, written) (t₃ ∙ ap (λ s. (delete_account d account_id s).1) table),
                  rw (e₁, e₂, e₃, written) (p₃ ∙ ap (delete account_id) (p₂ ∙ p₁)),
                  rw (e₁, e₂, e₃, written) (c₃ ∙ ap (delete email) (c₂ ∙ c₁)),
                )
          ]
        ]
      ]

  -- An erasure of a profile that succeeds was confirmed with the email of the profile that was read,
  -- compared without case; the repository has erased the account from the table as it was after the
  -- read; and afterwards the caches give neither the profile nor the credentials under the email.
  pub delete_profile-erases :
      (now : ℕ) (account_id confirm_email : String) (w : World d o)
      → (delete_profile d o builds svc now account_id confirm_email w).0 ≡ ok tt
      → (let w₀ = (get_profile d o builds svc now account_id w).1 in
          let w' = (delete_profile d o builds svc now account_id confirm_email w).1 in
          (profile : Account) × ((get_profile d o builds svc now account_id w).0 ≡ ok profile)
          × (equal_fold (trim_space confirm_email) (to_lower (trim_space profile.email)) ≡ true)
          × ((delete_account d account_id w₀.table).0 ≡ ok tt)
          × (w'.table ≡ (delete_account d account_id w₀.table).1)
          × ((later : ℕ) → (get later account_id w'.profile_cache).0 ≡ none)
          × ((later : ℕ)
              → (get later (to_lower (trim_space profile.email)) w'.credentials_cache).0 ≡ none))
  unfolding delete_profile
  delete_profile-erases now account_id confirm_email w h =
      let confirmation = trim_space confirm_email in
      let w₀ = (get_profile d o builds svc now account_id w).1 in
      elim (Bool-cases (confirmation == "")) [
        | inl blank ↦ cc (rw blank at h)
        | inr written ↦ elim (Result-cases (get_profile d o builds svc now account_id w).0) [
          | inr (e, failed) ↦ cc (rw (written, failed) at h)
          | inl (profile, read) ↦
              let email = to_lower (trim_space profile.email) in
              elim (Bool-cases (equal_fold confirmation email)) [
                | inr foreign ↦ cc (rw (written, read, foreign) at h)
                | inl confirmed ↦
                    let (done, table, profiles, credentials) =
                      erase_profile-erases account_id email w₀
                        (confirmed_written confirmation email written confirmed)
                        (rw (written, read, confirmed) at h) in
                    (
                      profile,
                      read,
                      confirmed,
                      done,
                      rw (written, read, confirmed) table,
                      λ later.
                          rw (written, read, confirmed, profiles)
                            (get-delete later account_id w₀.profile_cache),
                      λ later.
                          rw (written, read, confirmed, credentials)
                            (get-delete later email w₀.credentials_cache),
                    )
              ]
        ]
      ]
