-- ===== src/Db/Settings/Locking.antt =====
-- What an update of the settings tells its writer: the version it expected was the one stored, or
-- another writer was first.
use komodo_accounts_api.Db.Draft.Apply.{update-patched, patched}
use komodo_accounts_api.Dynamo.Items.{named}
use komodo_accounts_api.Db.Draft.{Draft}
use komodo_accounts_api.Dynamo.Laws.{Lawful}
use komodo_accounts_api.Dynamo.{DynamoDb}
use komodo_accounts_api.Db.Settings.{
  settings_key, String, update_settings_partial, Draft, repo_not_found, string_set, none,
  repo_version_conflict, settings_answer, err, settings_condition_failure_error, Result, boolean,
  string, DynamoDb, time, number, settings_update, settings_draft,
}
use komodo_accounts_api.Models.{UpdateSettingsRequest}
use komodo_accounts_api.Dynamo.Items.{
  booleans, strings, compare_numbers, time, lookup-insert, number, holds, Item, lookup,
  UpdateRequest, Attr, Key,
}
use komodo_accounts_api.Prelude.Int.{eqb_ℤ_iff, eqb_ℤ, ℤ}
use komodo_accounts_api.Prelude.{
  Option-cases, String, if◌then◌else◌, ap, Bool-cases, inr, none, false, ◌≢◌, inl, sym, ◌∙◌, some,
  refl, true, ◌≡◌, ℕ, Option,
}
use komodo_accounts_api.Errors.{
  is_conditional, other, condition_failure, repo_not_found, from_client, repo_version_conflict,
  conditional_check_failed, is, Err,
}
use komodo_accounts_api.Exec.{Result-cases, err, Result, ok}
use komodo_accounts_api.Db.Settings.Versions.{
  settings_update-IsPlain, assigned, expected-Binds, fields_draft, settings_draft_lem,
}

eqb_ℤ-self : (a : ℤ) → eqb_ℤ a a ≡ true
eqb_ℤ-self a = (eqb_ℤ_iff a a).1 refl

compare_version :
    (o : Option Attr) (v : ℤ)
    → compare_numbers eqb_ℤ o (some (number v)) ≡ true
    → o ≡ some (number v)
compare_version (some (number a)) v h = rw ((eqb_ℤ_iff a v).0 h) refl
compare_version none v h = cc
compare_version (some (string _)) v h = cc
compare_version (some (boolean _)) v h = cc
compare_version (some (time _)) v h = cc
compare_version (some (strings _)) v h = cc
compare_version (some (string_set _)) v h = cc
compare_version (some (booleans _)) v h = cc

abbrev stopped : Err → Result (Unit {0})
stopped e = err e

versioned_lem :
    (key : Key) (draft : Draft) (version : ℤ) (it : Item)
    → lookup "#v" draft.names ≡ some "version"
    → lookup ":expected" draft.values ≡ some (number version)
    → holds (settings_update key draft) (some it)
      ≡ compare_numbers eqb_ℤ (lookup "version" it) (some (number version))
versioned_lem key draft version it n e = rw (named, n, e) refl

module _ (key : Key) (now : ℕ) (req : UpdateSettingsRequest) (version : ℤ) where
  abbrev sent : UpdateRequest
  sent = settings_update key (settings_draft now req version)

  expected_name : lookup "#v" (settings_draft now req version).names ≡ some "version"
  expected_name =
      rw
        (
          settings_draft_lem now req version,
          lookup-insert "#ua" "#v" "updated_at" (fields_draft now req version).names,
        )
        (expected-Binds now req version).name

  expected_value :
      lookup ":expected" (settings_draft now req version).values ≡ some (number version)
  expected_value =
      rw
        (
          settings_draft_lem now req version,
          lookup-insert ":ua" ":expected" (time now) (fields_draft now req version).values,
        )
        (expected-Binds now req version).value

  holds_lem :
      (it : Item)
      → holds sent (some it) ≡ compare_numbers eqb_ℤ (lookup "version" it) (some (number version))
  holds_lem it =
      versioned_lem key (settings_draft now req version) version it expected_name expected_value

  holds-version :
      (it : Item) → holds sent (some it) ≡ true → lookup "version" it ≡ some (number version)
  holds-version it h = compare_version (lookup "version" it) version (sym (holds_lem it) ∙ h)

  version-holds :
      (it : Item) → lookup "version" it ≡ some (number version) → holds sent (some it) ≡ true
  version-holds it h = holds_lem it ∙ rw h (eqb_ℤ-self version)

abbrev pub answered :
    (d : DynamoDb) (key : Key) (r : UpdateRequest) (s : d.State) → Result (Unit {0}) × d.State
answered d key r s = settings_answer d key (d.update_item r s).0 (d.update_item r s).1

-- What the code answers, by the result of the update and of the look at the item after it.
module _ (d : DynamoDb) (laws : Lawful d) (key : Key) where
  failure-conflict :
      (s : d.State)
      → (settings_condition_failure_error d key s).0 ≡ err repo_version_conflict
      → (d.table s key ≢ none)
        × ((j : Key) → d.table (settings_condition_failure_error d key s).1 j ≡ d.table s j)
  failure-conflict s h = elim (Result-cases (d.get_item key s).0) [
    | inl (it, found) ↦
        (λ absent. cc (laws.get_ok key s it found, absent), λ j. rw found (laws.get_keeps key s j))
    | inr (x, failed) ↦ absurd (not_mine x (laws.get_err key s x failed) (rw failed at h))
  ]
    where
      not_mine :
          (x : Err)
          → from_client x ≡ true
          → (stopped (if is x repo_not_found then repo_not_found else x))
            ≢ err repo_version_conflict
      not_mine conditional_check_failed h k = cc
      not_mine (condition_failure i) h k = cc
      not_mine repo_not_found h k = cc
      not_mine other h k = cc
      not_mine _ h k = cc

  failure-not_ok : (s : d.State) → (settings_condition_failure_error d key s).0 ≢ ok tt
  failure-not_ok s h = elim (Result-cases (d.get_item key s).0) [
    | inl (it, found) ↦ cc (rw found at h)
    | inr (x, failed) ↦ cc (rw failed at h)
  ]

  module _ (r : UpdateRequest) (s : d.State) where
    pub answer-ok :
        (answered d key r s).0 ≡ ok tt
        → (it : Item) × ((d.update_item r s).0 ≡ ok it)
          × ((answered d key r s).1 ≡ (d.update_item r s).1)
    answer-ok h = elim (Result-cases (d.update_item r s).0) [
      | inl (it, done) ↦ (it, done, rw done refl)
      | inr (e, failed) ↦ elim (Bool-cases (is e conditional_check_failed)) [
        | inl same_tag ↦ absurd (failure-not_ok (d.update_item r s).1 (rw (failed, same_tag) at h))
        | inr other_tag ↦ cc (rw (failed, other_tag) at h)
      ]
    ]

    answer-conflict :
        (answered d key r s).0 ≡ err repo_version_conflict
        → (holds r (d.table s r.key) ≡ false)
          × (d.table s key ≢ none)
          × ((j : Key) → d.table (answered d key r s).1 j ≡ d.table s j)
    answer-conflict h = elim (Result-cases (d.update_item r s).0) [
      | inl (it, done) ↦ cc (rw done at h)
      | inr (e, failed) ↦ elim (Bool-cases (is e conditional_check_failed)) [
        | inl same_tag ↦
            let (refused, kept) =
              laws.update_refused r s (failed ∙ ap err (is_conditional e same_tag)) in
            let (there, same) =
              failure-conflict (d.update_item r s).1 (rw (failed, same_tag) at h) in
            (
              refused,
              λ absent. there (kept key ∙ absent),
              λ j. rw (failed, same_tag) (same j ∙ kept j),
            )
        | inr other_tag ↦
            let e_is : stopped e ≡ err repo_version_conflict = rw (failed, other_tag) at h in
            let known : from_client e ≡ true = laws.update_err r s e failed in
            let e_is' : e ≡ repo_version_conflict = cc in cc (rw e_is' at known)
      ]
    ]

module _ (d : DynamoDb) (laws : Lawful d) where
  update_settings_partial-built :
      (now : ℕ) (account_id : String) (req : UpdateSettingsRequest) (version : ℤ) (s : d.State)
      → update_settings_partial d now account_id req version s
        ≡ answered d (settings_key account_id) (sent (settings_key account_id) now req version) s
  unfolding update_settings_partial
  update_settings_partial-built now account_id req version s = rw laws.build_key_lem refl

  pub update_settings_partial-commits :
      (now : ℕ) (account_id : String) (req : UpdateSettingsRequest) (version : ℤ) (s : d.State)
      → (update_settings_partial d now account_id req version s).0 ≡ ok tt
      → ((old : Item) × (d.table s (settings_key account_id) ≡ some old)
          × (lookup "version" old ≡ some (number version)))
        × ((j : Key)
            → d.table (update_settings_partial d now account_id req version s).1 j
              ≡ patched (settings_key account_id) (assigned now req version) (d.table s) j)
  update_settings_partial-commits now account_id req version s e =
      let key = settings_key account_id in
      let r = sent key now req version in
      let built = update_settings_partial-built now account_id req version s in
      let (it, done, state) = answer-ok d laws key r s (ap (λ p. p.0) (sym built) ∙ e) in
      let (there, _, after) =
        update-patched d laws r (assigned now req version) s it
          (settings_update-IsPlain key now req version) done in
      let (permitted, _, _) = laws.update_ok r s it done in
      elim (Option-cases (d.table s key)) [
        | inl missing ↦ absurd (there missing)
        | inr (old, found) ↦ (
          (
            old,
            found,
            holds-version key now req version old (ap (holds r) (sym found) ∙ permitted),
          ),
          λ j. ap (λ p. d.table p.1 j) built ∙ ap (λ t. d.table t j) state ∙ after j,
        )
      ]

  -- A version conflict is reported only if the settings exist with another version than the one
  -- expected, and then the table has not changed.
  pub update_settings_partial-conflict :
      (now : ℕ) (account_id : String) (req : UpdateSettingsRequest) (version : ℤ) (s : d.State)
      → (update_settings_partial d now account_id req version s).0 ≡ err repo_version_conflict
      → ((old : Item) × (d.table s (settings_key account_id) ≡ some old)
          × (lookup "version" old ≢ some (number version)))
        × ((j : Key)
            → d.table (update_settings_partial d now account_id req version s).1 j ≡ d.table s j)
  update_settings_partial-conflict now account_id req version s e =
      let key = settings_key account_id in
      let r = sent key now req version in
      let built = update_settings_partial-built now account_id req version s in
      let (refused, there, kept) = answer-conflict d laws key r s (ap (λ p. p.0) (sym built) ∙ e) in
      elim (Option-cases (d.table s key)) [
        | inl missing ↦ absurd (there missing)
        | inr (old, found) ↦ (
          (
            old,
            found,
            λ same.
                let held = version-holds key now req version old same in
                let refused' : holds r (some old) ≡ false = ap (holds r) (sym found) ∙ refused in
                cc,
          ),
          λ j. ap (λ p. d.table p.1 j) built ∙ kept j,
        )
      ]
