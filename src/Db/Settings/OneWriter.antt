-- ===== src/Db/Settings/OneWriter.antt =====
-- Two writers of the settings that read the same version (internal/db/settings.go).
use komodo_accounts_api.Db.Settings.Locking.{update_settings_partial-commits}
use komodo_accounts_api.Dynamo.Laws.{Lawful}
use komodo_accounts_api.Dynamo.Items.{
  assign-append, lookup-insert, key_eq_refl, time, insert, lookup, assign, number, Item, Attr,
}
use komodo_accounts_api.Models.{UpdateSettingsRequest}
use komodo_accounts_api.Dynamo.{DynamoDb}
use komodo_accounts_api.Db.Settings.{
  time, insert, number, Item, DynamoDb, Attr, UpdateSettingsRequest, settings_key,
  update_settings_partial,
}
use komodo_accounts_api.Db.Settings.Versions.{fields_assigned, assigned}
use komodo_accounts_api.Prelude.{◌∙◌, refl, [], ◌∷◌, ◌++◌, ◌≡◌, ◌≢◌}
use komodo_accounts_api.Exec.{ok}
use komodo_accounts_api.Prelude.{ℕ, String, List, some}
use komodo_accounts_api.Prelude.Int.{ℤ, add_one, add_one-ne}

-- A list of assignments that leaves a value at a name, whatever it starts from.
abbrev Leaves : String → Attr → List (String × Attr) → Type 0
Leaves n v xs = (it : Item) → lookup n (assign xs it) ≡ some v

append-Leaves :
    (n : String) (v : Attr) (xs ys : List (String × Attr)) → Leaves n v ys → Leaves n v (xs ++ ys)
append-Leaves n v xs ys h it = rw (assign-append xs ys it) (h (assign xs it))

assigned-Leaves :
    (now : ℕ) (req : UpdateSettingsRequest) (version : ℤ)
    → Leaves "version" (number (add_one version)) (assigned now req version)
assigned-Leaves now req version =
    let last = number (add_one version) in
    append-Leaves "version" last (fields_assigned now req)
      (("updated_at", time now) ∷ ("version", last) ∷ [])
      (λ it. lookup-insert "version" "version" last (insert "updated_at" (time now) it))

-- Of two updates that expect the same version, and of which the first succeeds, the second does not
-- succeed if it comes next: no update is lost. The version may wrap round.
pub update_settings_partial-one_writer :
    (d : DynamoDb) (laws : Lawful d) (now now' : ℕ) (account_id : String)
    (req req' : UpdateSettingsRequest) (version : ℤ) (s : d.State)
    → (update_settings_partial d now account_id req version s).0 ≡ ok tt
    → (update_settings_partial d now' account_id req' version
        (update_settings_partial d now account_id req version s).1).0
      ≢ ok tt
update_settings_partial-one_writer d laws now now' account_id req req' version s first second =
    let s' = (update_settings_partial d now account_id req version s).1 in
    let key = settings_key account_id in
    let ((old, found, _), after) =
      update_settings_partial-commits d laws now account_id req version s first in
    let ((old', found', expected), _) =
      update_settings_partial-commits d laws now' account_id req' version s' second in
    let written : d.table s' key ≡ some (assign (assigned now req version) old) =
      after key ∙ rw (key_eq_refl key, found) refl in
    let same : assign (assigned now req version) old ≡ old' = cc (written, found') in
    let stored : lookup "version" old' ≡ some (number (add_one version)) =
      rw (← same) (assigned-Leaves now req version old) in
    let bumped : add_one version ≡ version = cc (stored, expected) in add_one-ne version bumped
