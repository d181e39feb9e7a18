-- ===== src/Api/Account/Caches.antt =====
-- The cache of profiles after a change of the profile (internal/api/account.go).
use komodo_accounts_api.TtlCache.Lookup.{get-delete}
use komodo_accounts_api.Db.Account.{update_account}
use komodo_accounts_api.Models.{Account, UpdateAccountRequest}
use komodo_accounts_api.Clients.Events.{
  account_phone_changed, account_profile_updated, new_event_for, NewInput,
}
use komodo_accounts_api.Api.Service.{World, Service, ObjectStore}
use komodo_accounts_api.Dynamo.{DynamoDb}
use komodo_accounts_api.Prelude.{
  ap, inr, inl, ◌∙◌, ◌&&◌, none, Bool-cases, ◌≡◌, Option, List, String, ℕ, Bool, ◌==◌, refl, [],
  ◌∷◌,
}
use komodo_accounts_api.Exec.{Result-cases, pure, Exec, ok}
use komodo_accounts_api.TtlCache.{get}
use komodo_accounts_api.Api.Account.{
  update_profile_changed_fields, account_phone_changed, update_account, some, prior_phone, pure,
  publish_changed, account_profile_updated, none, Exec, new_event_for, publish_phone, Account,
  World, UpdateAccountRequest, Option, List, String, ℕ, publish_account_event, Service, Bool,
  NewInput, ObjectStore, DynamoDb, update_profile,
}
use komodo_accounts_api.Exec.{ok, ◌>>◌}
use komodo_accounts_api.Prelude.{◌==◌, refl, [], ◌∷◌}

module _ (d : DynamoDb) (o : ObjectStore) (builds : NewInput → Bool) (svc : Service) where
  publish-keeps :
      (event : NewInput) (w : World d o)
      → (publish_account_event d o builds svc event w).1.profile_cache ≡ w.profile_cache
  unfolding publish_account_event
  publish-keeps event w = elim (Bool-cases (builds event && svc.has_publisher)) [
    | inl published ↦ rw published refl
    | inr dropped ↦ rw dropped refl
  ]

  publish-ok :
      (event : NewInput) (w : World d o) → (publish_account_event d o builds svc event w).0 ≡ ok tt
  unfolding publish_account_event
  publish-ok event w = elim (Bool-cases (builds event && svc.has_publisher)) [
    | inl published ↦ rw published refl
    | inr dropped ↦ rw dropped refl
  ]

  abbrev announced :
      (now : ℕ) (account_id : String)
      → List String
      → (phone before : Option String) → Account
      → Exec (World d o) Account
  announced now account_id fields phone before updated = do
    publish_changed d o builds svc now account_id fields
    publish_phone d o builds svc account_id phone before
    pure updated

  phone-keeps :
      (account_id : String) (phone before : Option String) (updated : Account) (w : World d o)
      → ((publish_phone d o builds svc account_id phone before >> pure updated) w).1.profile_cache
        ≡ w.profile_cache
  phone-keeps account_id none before updated w = refl
  phone-keeps account_id (some p) none updated w = refl
  phone-keeps account_id (some p) (some q) updated w = elim (Bool-cases (q == p)) [
    | inl same ↦ rw same refl
    | inr changed ↦
        rw (changed, publish-ok (new_event_for account_id (account_phone_changed account_id q p)) w)
          (publish-keeps (new_event_for account_id (account_phone_changed account_id q p)) w)
  ]

  announced-keeps :
      (now : ℕ) (account_id : String) (fields : List String) (phone before : Option String)
      (updated : Account) (w : World d o)
      → (announced now account_id fields phone before updated w).1.profile_cache ≡ w.profile_cache
  announced-keeps now account_id [] phone before updated w =
      phone-keeps account_id phone before updated w
  announced-keeps now account_id (f ∷ fs) phone before updated w =
      rw (publish-ok (new_event_for account_id (account_profile_updated account_id (f ∷ fs) now)) w)
        (phone-keeps account_id phone before updated _
          ∙ publish-keeps
              (new_event_for account_id (account_profile_updated account_id (f ∷ fs) now)) w)

  -- After an update of a profile that succeeds the cache holds no profile of the account, so the
  -- next read goes to the table.
  pub update_profile-invalidates :
      (now : ℕ) (account_id : String) (req : UpdateAccountRequest) (w : World d o) (a : Account)
      → (update_profile d o builds svc now account_id req w).0 ≡ ok a
      → (later : ℕ)
      → (get later account_id
          (update_profile d o builds svc now account_id req w).1.profile_cache).0
        ≡ none
  unfolding update_profile
  update_profile-invalidates now account_id req w a h later =
      let w₁ = (prior_phone d o builds svc now account_id req.phone w).1 in
      elim (Result-cases (prior_phone d o builds svc now account_id req.phone w).0) [
        | inr (e, failed) ↦ cc (rw failed at h)
        | inl (before, prior) ↦
            elim (Result-cases (update_account d now account_id req w₁.table).0) [
              | inr (e, failed) ↦ cc (rw (prior, failed) at h)
              | inl (updated, done) ↦
                  rw (prior, done)
                    (ap (λ c. (get later account_id c).0)
                        (announced-keeps now account_id (update_profile_changed_fields req)
                          req.phone before updated _)
                      ∙ get-delete later account_id w₁.profile_cache)
            ]
      ]
