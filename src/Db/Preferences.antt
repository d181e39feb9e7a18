-- ===== src/Db/Preferences.antt =====
-- internal/db/preferences.go. A map is the list of its entries.
use komodo_accounts_api.Db.Draft.{no_clauses, update_of, clause_if, Draft}
use komodo_accounts_api.Db.Keys.{create_pk, opt_str, ptr_slice}
use komodo_accounts_api.Models.{Preferences}
use komodo_accounts_api.Dynamo.{DynamoDb}
use komodo_accounts_api.Dynamo.Items.{always, string, booleans, get_booleans, get_string, Key, Item}
use komodo_accounts_api.Prelude.{[], ◌∷◌, Bool, List, String}
use komodo_accounts_api.Exec.{lift, pure, Exec, ◌>>=◌}

pub record PrefsRecord : Type 0 where
  pub pk : String
  pub sk : String
  pub language : String
  pub timezone : String
  pub communication : List (String × Bool)

-- What the tags of the struct make of an item.
abbrev pub unmarshal : Item → PrefsRecord
unmarshal it = record {
  pk = get_string "PK" it;
  sk = get_string "SK" it;
  language = get_string "language" it;
  timezone = get_string "timezone" it;
  communication = get_booleans "communication" it;
}

abbrev pub to_model : PrefsRecord → Preferences
to_model r = record {
  communication = ptr_slice r.communication;
  language = opt_str r.language;
  timezone = opt_str r.timezone;
}

unfoldable pub preferences_draft : Preferences → Draft
preferences_draft req = clause_if "#comm" ":comm" "communication" booleans req.communication (
    clause_if "#tz" ":tz" "timezone" string req.timezone
      (clause_if "#lang" ":lang" "language" string req.language no_clauses))

module _ (d : DynamoDb) where
  unfoldable pub get_account_preferences : (account_id : String) → Exec d.State Preferences
  get_account_preferences account_id = do
    key ← lift (d.build_key (create_pk account_id) "PREFS")
    it ← d.get_item key
    pure (to_model (unmarshal it))

  -- no condition: the first update creates the item
  abbrev pub upsert_preferences : Key → Draft → List (String × String) → Exec d.State (Unit {0})
  upsert_preferences key draft [] = pure tt
  upsert_preferences key draft (c ∷ cs) = do
    it ← d.update_item (record (update_of key draft) { condition = always })
    pure tt

  unfoldable pub update_account_preferences :
      (account_id : String) → Preferences → Exec d.State (Unit {0})
  unfolding preferences_draft
  update_account_preferences account_id req = do
    key ← lift (d.build_key (create_pk account_id) "PREFS")
    let draft = preferences_draft req
    upsert_preferences key draft draft.set
