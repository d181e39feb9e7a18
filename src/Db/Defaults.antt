-- ===== src/Db/Defaults.antt =====
-- The default flag: demoteAndPromoteDefault of internal/db/payments.go, SetPaymentDefault beside it,
-- and SetAddressDefault of internal/db/address.go.
pub mod Exclusive
use komodo_accounts_api.Prelude.{
  ℕ, String, Bool, true, false, not, ◌||◌, ◌==◌, Option, none, some, List, [], ◌∷◌, ◌++◌,
  if◌then◌else◌,
}
use komodo_accounts_api.Errors.{Err, condition_failure, repo_not_found}
use komodo_accounts_api.Exec.{Exec, rethrow, ◌>>=◌}
use komodo_accounts_api.Dynamo.{DynamoDb, QueryInput, begins_with, TransactItem, update}
use komodo_accounts_api.Dynamo.Items.{
  Item, Key, time, boolean, get_string, get_bool, item_exists, UpdateRequest,
}
use komodo_accounts_api.Db.Keys.{create_pk, addr_sk, pay_sk}

-- `SET #isd = …, #ua = :now` on an item that exists.
abbrev pub flag_update : (pk sk placeholder : String) → Bool → (now : ℕ) → UpdateRequest
flag_update pk sk placeholder flag now = record {
  key = record { pk = pk; sk = sk };
  set = ("#isd", placeholder) ∷ ("#ua", ":now") ∷ [];
  add = [];
  delete = [];
  values = (placeholder, boolean flag) ∷ (":now", time now) ∷ [];
  names = ("#isd", "is_default") ∷ ("#ua", "updated_at") ∷ [];
  condition = item_exists;
}

abbrev pub demotion : (pk sk : String) (now : ℕ) → TransactItem
demotion pk sk now = update (flag_update pk sk ":false" false now)

abbrev pub promotion : (pk sk : String) (now : ℕ) → TransactItem
promotion pk sk now = update (flag_update pk sk ":true" true now)

-- The loop over the candidates; a candidate is read as its sort key and its flag.
unfoldable pub demotions : (pk target_sk : String) (now : ℕ) → List Item → List TransactItem
demotions pk target_sk now [] = []
demotions pk target_sk now (c ∷ cs) =
    let rest = demotions pk target_sk now cs in
    if get_string "SK" c == target_sk || not (get_bool "is_default" c)
    then rest
    else demotion pk (get_string "SK" c) now ∷ rest

abbrev pub default_error : Err → Err
default_error (condition_failure i) = repo_not_found
default_error e = e

abbrev pub candidates_query : (pk sk_prefix : String) → QueryInput
candidates_query pk sk_prefix = record {
  key_condition = begins_with pk sk_prefix;
  limit = none;
  scan_forward = true;
}

module _ (d : DynamoDb) where
  unfoldable pub demote_and_promote_default :
      (now : ℕ) (pk sk_prefix target_sk : String) → Exec d.State (Unit {0})
  unfolding demotions
  demote_and_promote_default now pk sk_prefix target_sk = do
    candidates ← d.query (candidates_query pk sk_prefix)
    rethrow default_error (
        d.transact_write (demotions pk target_sk now candidates ++ promotion pk target_sk now ∷ []))

  unfoldable pub set_address_default :
      (now : ℕ) (account_id address_id : String) → Exec d.State (Unit {0})
  unfolding demote_and_promote_default
  set_address_default now account_id address_id =
      demote_and_promote_default now (create_pk account_id) "ADDR#" (addr_sk address_id)

  unfoldable pub set_payment_default :
      (now : ℕ) (account_id payment_id : String) → Exec d.State (Unit {0})
  unfolding demote_and_promote_default
  set_payment_default now account_id payment_id =
      demote_and_promote_default now (create_pk account_id) "PAY#" (pay_sk payment_id)
