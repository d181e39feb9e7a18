-- ===== src/Db/Settings/Versions.antt =====
-- Optimistic concurrency of the settings: the version that a writer expects, and the next one.
use komodo_accounts_api.Db.Draft.Apply.{IsPlain}
use komodo_accounts_api.Db.Settings.{
  settings_update, touch_clauses, settings_draft, Key, add_one, number, boolean, time, string,
  status_clauses, version_draft,
}
use komodo_accounts_api.Dynamo.Items.{Key, number, time, boolean, string, Attr}
use komodo_accounts_api.Db.Draft.{clause_if, field, Draft}
use komodo_accounts_api.Db.Draft.Resolve.{
  resolve-clause_bound, Binds-clause_if, Resolves-clause_if, Binds, Resolves,
}
use komodo_accounts_api.Models.{UpdateSettingsRequest}
use komodo_accounts_api.Prelude.Int.{add_one, ℤ}
use komodo_accounts_api.Prelude.{
  refl, false, ap, ◌==◌, ◌≡◌, none, some, ◌++◌, [], ◌∷◌, List, Option, ℕ, String,
}

abbrev pub fields_assigned : (now : ℕ) → UpdateSettingsRequest → List (String × Attr)
fields_assigned now req =
    []
    ++ field "email_verified" boolean req.email_verified
    ++ field "email_verified_at" time req.email_verified_at
    ++ field "phone_verified" boolean req.phone_verified
    ++ field "phone_verified_at" time req.phone_verified_at
    ++ field "status" string req.status
    ++ field "status_changed_at" (λ _. time now) req.status
    ++ field "status_reason" string req.status_reason

-- What an update assigns: the fields that the request holds, the time, and the next version.
abbrev pub assigned : (now : ℕ) → UpdateSettingsRequest → ℤ → List (String × Attr)
assigned now req version =
    fields_assigned now req ++ ("updated_at", time now) ∷ ("version", number (add_one version)) ∷ []

version_draft-Resolves :
    (version : ℤ)
    → Resolves
        (("#ev", ":ev")
          ∷ ("#evat", ":evat")
          ∷ ("#pv", ":pv")
          ∷ ("#pvat", ":pvat")
          ∷ ("#st", ":st")
          ∷ ("#scat", ":scat")
          ∷ ("#sr", ":sr")
          ∷ ("#ua", ":ua")
          ∷ [])
        (version_draft version)
        []
version_draft-Resolves version = record {
  free = (
    refl,
    refl,
    (
      refl,
      refl,
      (refl, refl, (refl, refl, (refl, refl, (refl, refl, (refl, refl, (refl, refl, tt)))))),
    ),
  );
  resolved = refl;
}

status_clauses_lem :
    (now : ℕ) (status : Option String) (d : Draft)
    → status_clauses now status d
      ≡ clause_if "#scat" ":scat" "status_changed_at"
          (λ _. time now)
          status
          (clause_if "#st" ":st" "status" string status d)
status_clauses_lem now none d = refl
status_clauses_lem now (some status) d = refl

-- The draft before its last two clauses.
abbrev pub fields_draft : (now : ℕ) → UpdateSettingsRequest → ℤ → Draft
fields_draft now req version = clause_if "#sr" ":sr" "status_reason" string req.status_reason (
    clause_if "#scat" ":scat" "status_changed_at" (λ _. time now) req.status
      (clause_if "#st" ":st" "status" string req.status (
        clause_if "#pvat" ":pvat" "phone_verified_at" time req.phone_verified_at (
          clause_if "#pv" ":pv" "phone_verified" boolean req.phone_verified (
            clause_if "#evat" ":evat" "email_verified_at" time req.email_verified_at (
              clause_if "#ev" ":ev" "email_verified" boolean req.email_verified
                (version_draft version)))))))

fields_draft-Resolves :
    (now : ℕ) (req : UpdateSettingsRequest) (version : ℤ)
    → Resolves (("#ua", ":ua") ∷ []) (fields_draft now req version) (
        []
        ++ field "email_verified" boolean req.email_verified
        ++ field "email_verified_at" time req.email_verified_at
        ++ field "phone_verified" boolean req.phone_verified
        ++ field "phone_verified_at" time req.phone_verified_at
        ++ field "status" string req.status
        ++ field "status_changed_at" (λ _. time now) req.status
        ++ field "status_reason" string req.status_reason)
fields_draft-Resolves now req version =
    Resolves-clause_if _ _ _ string req.status_reason _ _ _ refl (
      Resolves-clause_if _ _ _ (λ _. time now) req.status _ _ _ refl
        (Resolves-clause_if _ _ _ string req.status _ _ _ refl (
          Resolves-clause_if _ _ _ time req.phone_verified_at _ _ _ refl (
            Resolves-clause_if _ _ _ boolean req.phone_verified _ _ _ refl (
              Resolves-clause_if _ _ _ time req.email_verified_at _ _ _ refl (
                Resolves-clause_if _ _ _ boolean req.email_verified _ _ _ refl
                  (version_draft-Resolves version)))))))

fields_draft-Binds :
    (now : ℕ) (req : UpdateSettingsRequest) (version : ℤ) (v : String) (x : Attr)
    → Binds "#v" v "version" x (version_draft version)
    → (":ev" == v) ≡ false
    → (":evat" == v) ≡ false
    → (":pv" == v) ≡ false
    → (":pvat" == v) ≡ false
    → (":st" == v) ≡ false
    → (":scat" == v) ≡ false
    → (":sr" == v) ≡ false
    → Binds "#v" v "version" x (fields_draft now req version)
fields_draft-Binds now req version v x h e₁ e₂ e₃ e₄ e₅ e₆ e₇ =
    Binds-clause_if _ _ _ string req.status_reason _ _ _ _ _ refl e₇ (
      Binds-clause_if _ _ _ (λ _. time now) req.status _ _ _ _ _ refl e₆
        (Binds-clause_if _ _ _ string req.status _ _ _ _ _ refl e₅ (
          Binds-clause_if _ _ _ time req.phone_verified_at _ _ _ _ _ refl e₄ (
            Binds-clause_if _ _ _ boolean req.phone_verified _ _ _ _ _ refl e₃ (
              Binds-clause_if _ _ _ time req.email_verified_at _ _ _ _ _ refl e₂
                (Binds-clause_if _ _ _ boolean req.email_verified _ _ _ _ _ refl e₁ h))))))

pub settings_draft_lem :
    (now : ℕ) (req : UpdateSettingsRequest) (version : ℤ)
    → settings_draft now req version ≡ touch_clauses now (fields_draft now req version)
unfolding settings_draft
settings_draft_lem now req version =
    ap (λ d. touch_clauses now (clause_if "#sr" ":sr" "status_reason" string req.status_reason d))
      (status_clauses_lem now req.status _)

new_version-Binds :
    (now : ℕ) (req : UpdateSettingsRequest) (version : ℤ)
    → Binds "#v" ":newV" "version" (number (add_one version)) (fields_draft now req version)
new_version-Binds now req version =
    fields_draft-Binds now req version ":newV" _ (record { name = refl; value = refl }) refl refl
      refl refl refl refl refl

pub expected-Binds :
    (now : ℕ) (req : UpdateSettingsRequest) (version : ℤ)
    → Binds "#v" ":expected" "version" (number version) (fields_draft now req version)
expected-Binds now req version =
    fields_draft-Binds now req version ":expected" _ (record { name = refl; value = refl }) refl
      refl refl refl refl refl refl

pub settings_update-IsPlain :
    (key : Key) (now : ℕ) (req : UpdateSettingsRequest) (version : ℤ)
    → IsPlain (settings_update key (settings_draft now req version)) (assigned now req version)
settings_update-IsPlain key now req version = rw (settings_draft_lem now req version) (record {
  resolved =
      resolve-clause_bound "#ua" ":ua" "updated_at" (time now) "#v" ":newV" "version"
        (number (add_one version)) (fields_draft now req version) _ refl refl
        (fields_draft-Resolves now req version) (new_version-Binds now req version);
  adds = refl;
  deletes = refl;
  guarded = refl;
})
