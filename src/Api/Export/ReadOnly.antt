-- ===== src/Api/Export/ReadOnly.antt =====
-- What an export leaves as it was (internal/api/export.go).
use komodo_accounts_api.Db.Account.{to_model, unmarshal}
use komodo_accounts_api.Api.Settings.{missing_error}
use komodo_accounts_api.Models.{ExportProfileResponse, Account, ProfileExport}
use komodo_accounts_api.Db.Account.{get_account}
use komodo_accounts_api.Api.Service.{Service, on_table, on_objects, World, ObjectStore}
use komodo_accounts_api.Db.Passkeys.{get_account_passkeys}
use komodo_accounts_api.Db.Consent.{list_consent_history}
use komodo_accounts_api.Db.Payments.{list_payments}
use komodo_accounts_api.Db.Address.{get_account_addresses}
use komodo_accounts_api.Db.Preferences.{get_account_preferences}
use komodo_accounts_api.Db.Settings.{get_settings}
use komodo_accounts_api.Dynamo.Items.{Key, Item}
use komodo_accounts_api.Api.Export.{
  export_key, prefixed, export_of, ExportProfileResponse, ProfileExportData, missing_error,
  store_export, ProfileExport, Account, get_account, ℕ, World, on_objects, on_table, Service,
  export_profile, ObjectStore, get_account_passkeys, list_consent_history, list_payments,
  get_account_addresses, get_account_preferences, is_not_found, pure, get_settings,
  gather_profile_export_data, optional, tolerate,
}
use komodo_accounts_api.Dynamo.Laws.{Lawful}
use komodo_accounts_api.Errors.{is_not_found, Err}
use komodo_accounts_api.Dynamo.{QueryInput, DynamoDb}
use komodo_accounts_api.Prelude.{◌+◌, prefixed, ℕ, Bool-cases, refl, [], ◌≡◌, inl, inr, ◌∙◌}
use komodo_accounts_api.Exec.{pure, lift, rethrow, Result-cases, Exec, Result, ok, ◌>>=◌}
use komodo_accounts_api.Prelude.{String, List, none, some}

module _ (d : DynamoDb) where
  -- A call that leaves the table as it is, whatever its outcome.
  pub record Reads {A : Type 0} (m : Exec d.State A) : Type 0 where
    pub kept : (s : d.State) (j : Key) → d.table (m s).1 j ≡ d.table s j

  bind-Reads :
      {A B : Type 0} (m : Exec d.State A) (f : A → Exec d.State B)
      → Reads m
      → ((a : A) → Reads (f a))
      → Reads (m >>= f)
  bind-Reads m f first later = record {
    kept = λ s j. elim (Result-cases (m s).0) [
      | inl (a, found) ↦ rw found ((later a).kept (m s).1 j ∙ first.kept s j)
      | inr (e, failed) ↦ rw failed (first.kept s j)
    ];
  }

  still-Reads : {A : Type 0} (r : Result A) → Reads (λ s. (r, s))
  still-Reads r = record { kept = λ s j. refl }

  rethrow-Reads : {A : Type 0} (h : Err → Err) (m : Exec d.State A) → Reads m → Reads (rethrow h m)
  rethrow-Reads h m reads = record { kept = reads.kept }

  tolerate-Reads :
      {A : Type 0} (absent : A) (m : Exec d.State A) → Reads m → Reads (tolerate absent m)
  tolerate-Reads absent m reads = record {
    kept = λ s j. elim (Result-cases (m s).0) [
      | inl (a, found) ↦ rw found (reads.kept s j)
      | inr (e, failed) ↦ elim (Bool-cases (is_not_found e)) [
        | inl missing ↦ rw (failed, missing) (reads.kept s j)
        | inr broken ↦ rw (failed, broken) (reads.kept s j)
      ]
    ];
  }

module _ (d : DynamoDb) (laws : Lawful d) where
  keyed-Reads :
      {A : Type 0} (pk sk : String) (f : Item → A)
      → Reads d (lift (d.build_key pk sk) >>= λ key. d.get_item key >>= λ it. pure (f it))
  keyed-Reads pk sk f =
      bind-Reads d (lift (d.build_key pk sk)) (λ key. d.get_item key >>= λ it. pure (f it))
        (still-Reads d (d.build_key pk sk))
        (λ key.
          bind-Reads d (d.get_item key) (λ it. pure (f it)) (record { kept = laws.get_keeps key })
            (λ it. still-Reads d (ok (f it))))

  listed-Reads :
      {A : Type 0} (q : QueryInput) (f : List Item → A)
      → Reads d (d.query q >>= λ its. pure (f its))
  listed-Reads q f =
      bind-Reads d (d.query q) (λ its. pure (f its)) (record { kept = laws.query_keeps q })
        (λ its. still-Reads d (ok (f its)))

  optional-Reads : {A : Type 0} (m : Exec d.State A) → Reads d m → Reads d (optional m)
  optional-Reads m reads =
      bind-Reads d m (λ a. pure (some a)) reads (λ a. still-Reads d (ok (some a)))

  gather_profile_export_data-Reads :
      (account_id : String) → Reads d (gather_profile_export_data d account_id)
  unfolding gather_profile_export_data get_settings get_account_preferences get_account_addresses
      list_payments list_consent_history get_account_passkeys
  gather_profile_export_data-Reads account_id =
      bind-Reads d _ _ (tolerate-Reads d none _ (optional-Reads _ (keyed-Reads _ _ _))) (λ settings.
        bind-Reads d _ _ (tolerate-Reads d none _ (optional-Reads _ (keyed-Reads _ _ _))) (λ prefs.
          bind-Reads d _ _ (tolerate-Reads d [] _ (listed-Reads _ _)) (λ addrs.
            bind-Reads d _ _ (tolerate-Reads d [] _ (listed-Reads _ _)) (λ payments.
              bind-Reads d _ _ (tolerate-Reads d [] _ (listed-Reads _ _)) (λ history.
                bind-Reads d _ _ (tolerate-Reads d [] _ (listed-Reads _ _))
                  (λ passkeys. still-Reads d (ok _)))))))

module _ (d : DynamoDb) (o : ObjectStore) where
  -- Only the objects may differ.
  abbrev pub Untouched : World d o → World d o → Type 0
  Untouched w w' =
      ((j : Key) → d.table w'.table j ≡ d.table w.table j)
      × (w'.profile_cache ≡ w.profile_cache)
      × (w'.credentials_cache ≡ w.credentials_cache)
      × (w'.events ≡ w.events)

  record Still {A : Type 0} (m : Exec (World d o) A) : Type 0 where
    kept : (w : World d o) → Untouched w (m w).1

  bind-Still :
      {A B : Type 0} (m : Exec (World d o) A) (f : A → Exec (World d o) B)
      → Still m
      → ((a : A) → Still (f a))
      → Still (m >>= f)
  bind-Still m f first later = record {
    kept = λ w.
        let (table, profiles, credentials, events) = first.kept w in
        elim (Result-cases (m w).0) [
          | inr (e, failed) ↦ rw failed (first.kept w)
          | inl (a, found) ↦
              let (table', profiles', credentials', events') = (later a).kept (m w).1 in
              rw found (
                (λ j. table' j ∙ table j),
                profiles' ∙ profiles,
                credentials' ∙ credentials,
                events' ∙ events,
              )
        ];
  }

  on_table-Still : {A : Type 0} (m : Exec d.State A) → Reads d m → Still (on_table m)
  on_table-Still m reads = record { kept = λ w. (reads.kept w.table, refl, refl, refl) }

  on_objects-Still : {A : Type 0} (m : Exec o.State A) → Still (on_objects m)
  on_objects-Still m = record { kept = λ w. ((λ j. refl), refl, refl, refl) }

  answer-Still : {A : Type 0} (r : Result A) → Still (λ w. (r, w))
  answer-Still r = record { kept = λ w. ((λ j. refl), refl, refl, refl) }

  store_export-Still :
      (svc : Service) (now : ℕ) (export_id account_id : String) (export : ProfileExport)
      → Still (store_export d o svc now export_id account_id export)
  store_export-Still svc now export_id account_id export =
      let key = export_key account_id export_id in
      let put : Exec (World d o) (Unit {0}) =
        on_objects (o.put_object svc.export_bucket key export) in
      let presign : Exec (World d o) String =
        on_objects (o.presign_get svc.export_bucket key svc.presign_ttl) in
      let response : String → Exec (World d o) ExportProfileResponse = λ url. pure (record {
        download_url = some url;
        expires_at = some (now + svc.presign_ttl);
        export_id = some export_id;
      }) in
      bind-Still put (λ done. presign >>= response)
        (on_objects-Still (o.put_object svc.export_bucket key export))
        (λ done.
          bind-Still presign response
            (on_objects-Still (o.presign_get svc.export_bucket key svc.presign_ttl))
            (λ url. answer-Still (
              ok (record {
                download_url = some url;
                expires_at = some (now + svc.presign_ttl);
                export_id = some export_id;
              }))))

  -- Whatever the outcome of an export, the table, the two caches and the published events are as
  -- before: only the objects may differ.
  pub export_profile-read_only :
      (laws : Lawful d) (svc : Service) (now : ℕ) (export_id account_id : String) (w : World d o)
      → Untouched w (export_profile d o svc now export_id account_id w).1
  unfolding export_profile get_account
  export_profile-read_only laws svc now export_id account_id w =
      let profile_read : Exec (World d o) Account =
        rethrow missing_error (on_table (get_account d account_id)) in
      let gathered_read : Exec (World d o) ProfileExportData =
        on_table (gather_profile_export_data d account_id) in
      let profile_reads : Reads d (get_account d account_id) =
        keyed-Reads d laws (prefixed "ACCOUNT#" account_id) "PROFILE"
          (λ it. to_model (unmarshal it)) in
      let finish : Account → ProfileExportData → Exec (World d o) ExportProfileResponse =
        λ profile gathered.
          store_export d o svc now export_id account_id (export_of profile gathered) in
      elim (Bool-cases svc.has_s3) [
        | inr bare ↦ rw bare ((λ j. refl), refl, refl, refl)
        | inl stored ↦ rw stored (
            (bind-Still profile_read (λ profile. gathered_read >>= finish profile)
                (record {
                  kept =
                      (on_table-Still (get_account d account_id) (keyed-Reads d laws _ _ _)).kept;
                })
                (λ profile.
                  bind-Still gathered_read (finish profile)
                    (on_table-Still (gather_profile_export_data d account_id)
                      (gather_profile_export_data-Reads d laws account_id))
                    (λ gathered.
                      store_export-Still svc now export_id account_id
                        (export_of profile gathered)))).kept
              w)
      ]
