-- ===== src/Db/Consent.antt =====
-- internal/db/consent.go. `stamp` is the fixed-width form of an instant that `time.Format` gives.
pub mod AppendOnly
use komodo_accounts_api.Db.Keys.{create_pk, deref, opt_str}
use komodo_accounts_api.Dynamo.{QueryInput, begins_with, DynamoDb}
use komodo_accounts_api.Dynamo.Items.{
  item_not_exists, omit_empty, time, get_time, get_string, string, Item,
}
use komodo_accounts_api.Models.{ConsentLog}
use komodo_accounts_api.Prelude.{
  map, [], true, false, some, eqb, none, if◌then◌else◌, ◌∷◌, prefixed, Option, List, ℕ, String,
}
use komodo_accounts_api.Exec.{pure, Exec, ◌>>=◌}

pub record ConsentRecord : Type 0 where
  pub pk : String
  pub sk : String
  pub channel : String
  pub action : String
  pub source : String
  pub source_ref : String
  pub ip_address : String
  pub user_agent : String
  pub recorded_at : ℕ

-- What the tags of the struct make of a record, and of an item.
abbrev pub marshal : ConsentRecord → Item
marshal r =
    ("PK", string r.pk)
    ∷ ("SK", string r.sk)
    ∷ ("channel", string r.channel)
    ∷ ("action", string r.action)
    ∷ ("source", string r.source)
    ∷ ("recorded_at", time r.recorded_at)
    ∷ omit_empty "source_ref" r.source_ref
        (omit_empty "ip_address" r.ip_address (omit_empty "user_agent" r.user_agent []))

abbrev pub unmarshal : Item → ConsentRecord
unmarshal it = record {
  pk = get_string "PK" it;
  sk = get_string "SK" it;
  channel = get_string "channel" it;
  action = get_string "action" it;
  source = get_string "source" it;
  source_ref = get_string "source_ref" it;
  ip_address = get_string "ip_address" it;
  user_agent = get_string "user_agent" it;
  recorded_at = get_time "recorded_at" it;
}

abbrev pub to_model : ConsentRecord → ConsentLog
to_model r = record {
  action = r.action;
  channel = r.channel;
  ip_address = opt_str r.ip_address;
  recorded_at = r.recorded_at;
  source = r.source;
  source_ref = opt_str r.source_ref;
  user_agent = opt_str r.user_agent;
}

abbrev pub consent_record_from : (pk sk : String) → ConsentLog → ConsentRecord
consent_record_from pk sk c = record {
  pk = pk;
  sk = sk;
  channel = c.channel;
  action = c.action;
  source = c.source;
  source_ref = deref c.source_ref;
  ip_address = deref c.ip_address;
  user_agent = deref c.user_agent;
  recorded_at = c.recorded_at;
}

abbrev pub consent_sk : (stamp : ℕ → String) (channel : String) (at : ℕ) → String
consent_sk stamp channel at = prefixed "CONSENT#" (prefixed channel (prefixed "#" (stamp at)))

abbrev pub latest_query : (account_id channel : String) → QueryInput
latest_query account_id channel = record {
  key_condition = begins_with (create_pk account_id) (prefixed "CONSENT#" (prefixed channel "#"));
  limit = some 1;
  scan_forward = false;
}

abbrev first_log : List Item → Option ConsentLog
first_log [] = none
first_log (it ∷ its) = some (to_model (unmarshal it))

module _ (d : DynamoDb) where
  unfoldable pub get_latest_consent :
      (account_id channel : String) → Exec d.State (Option ConsentLog)
  get_latest_consent account_id channel = do
    its ← d.query (latest_query account_id channel)
    pure (first_log its)

  unfoldable pub append_consent_log :
      (stamp : ℕ → String) (now : ℕ) (account_id : String) → ConsentLog → Exec d.State (Unit {0})
  append_consent_log stamp now account_id entry =
      let entry' =
        (if eqb entry.recorded_at 0 then record entry { recorded_at = now } else entry) in
      d.write_item
        (marshal (
          consent_record_from (create_pk account_id)
            (consent_sk stamp entry'.channel entry'.recorded_at) entry'))
        item_not_exists

  unfoldable pub list_consent_history : (account_id : String) → Exec d.State (List ConsentLog)
  list_consent_history account_id = do
    its ← d.query (record {
      key_condition = begins_with (create_pk account_id) "CONSENT#";
      limit = some 1000;
      scan_forward = true;
    })
    pure (map (λ it. to_model (unmarshal it)) its)
