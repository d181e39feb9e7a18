-- ===== src/Dynamo/Laws.antt =====
-- The documented behaviour of the client that the theorems rely on. Reads are taken to be up to
-- date, and an error that is not a failed condition may have been applied or not.
use komodo_accounts_api.Prelude.{
  String, ℕ, ◌≡◌, Bool, true, false, ◌&&◌, Option, none, some, List, [], ◌∷◌, All, ◌==◌,
  if◌then◌else◌, has_prefix,
}
use komodo_accounts_api.Errors.{
  from_client, Err, conditional_check_failed, condition_failure, repo_not_found,
}
use komodo_accounts_api.Exec.{ok, err}
use komodo_accounts_api.Dynamo.{
  KeyCondition, partition, begins_with, gsi1, QueryInput, TransactItem, put, update, delete,
  DynamoDb,
}
use komodo_accounts_api.Dynamo.Items.{
  Key, Item, key_eq, key_of, get_string, allows, holds, new_item, UpdateRequest, Condition,
}

abbrev pub Table : Type 0
Table = Key → Option Item

abbrev pub matches : KeyCondition → Item → Bool
matches (partition pk) it = get_string "PK" it == pk
matches (begins_with pk p) it = get_string "PK" it == pk && has_prefix (get_string "SK" it) p
matches (gsi1 pk sk) it = get_string "GSI1PK" it == pk && get_string "GSI1SK" it == sk

abbrev pub with_item : Key → Option Item → Table → Table
with_item k o t j = if key_eq k j then o else t j

-- What one part of a transaction writes, and the test that it makes first.
abbrev pub written : TransactItem → Table → Table
written (put it c) t = with_item (key_of it) (some it) t
written (update r) t = with_item r.key (new_item r (t r.key)) t
written (delete k) t = with_item k none t

abbrev pub permits : TransactItem → Table → Bool
permits (put it c) t = allows c (t (key_of it))
permits (update r) t = holds r (t r.key)
permits (delete k) t = true

abbrev pub all_written : List TransactItem → Table → Table
all_written [] t = t
all_written (w ∷ ws) t = all_written ws (written w t)

-- The part at an index refuses.
abbrev pub refuses_at : List TransactItem → ℕ → Table → Bool
refuses_at [] i t = false
refuses_at (w ∷ ws) ℕ.zero t = if permits w t then false else true
refuses_at (w ∷ ws) (ℕ.suc i) t = refuses_at ws i t

pub record Lawful (d : DynamoDb) : Type 0 where
  pub build_key_lem : (pk sk : String) → d.build_key pk sk ≡ ok (record { pk = pk; sk = sk })
  pub get_keeps : (k : Key) (s : d.State) (j : Key) → d.table (d.get_item k s).1 j ≡ d.table s j
  pub get_ok :
      (k : Key) (s : d.State) (it : Item) → (d.get_item k s).0 ≡ ok it → d.table s k ≡ some it
  pub get_missing :
      (k : Key) (s : d.State) → (d.get_item k s).0 ≡ err repo_not_found → d.table s k ≡ none
  pub get_err :
      (k : Key) (s : d.State) (e : Err) → (d.get_item k s).0 ≡ err e → from_client e ≡ true
  pub update_err :
      (r : UpdateRequest) (s : d.State) (e : Err)
      → (d.update_item r s).0 ≡ err e
      → from_client e ≡ true
  pub transact_err :
      (ws : List TransactItem) (s : d.State) (e : Err)
      → (d.transact_write ws s).0 ≡ err e
      → from_client e ≡ true
  pub write_ok :
      (it : Item) (c : Condition) (s : d.State)
      → (d.write_item it c s).0 ≡ ok tt
      → (allows c (d.table s (key_of it)) ≡ true)
        × ((j : Key)
            → d.table (d.write_item it c s).1 j ≡ with_item (key_of it) (some it) (d.table s) j)
  pub write_refused :
      (it : Item) (c : Condition) (s : d.State)
      → (d.write_item it c s).0 ≡ err conditional_check_failed
      → (allows c (d.table s (key_of it)) ≡ false)
        × ((j : Key) → d.table (d.write_item it c s).1 j ≡ d.table s j)
  pub update_ok :
      (r : UpdateRequest) (s : d.State) (it : Item)
      → (d.update_item r s).0 ≡ ok it
      → (holds r (d.table s r.key) ≡ true)
        × (new_item r (d.table s r.key) ≡ some it)
        × ((j : Key) → d.table (d.update_item r s).1 j ≡ with_item r.key (some it) (d.table s) j)
  pub update_refused :
      (r : UpdateRequest) (s : d.State)
      → (d.update_item r s).0 ≡ err conditional_check_failed
      → (holds r (d.table s r.key) ≡ false)
        × ((j : Key) → d.table (d.update_item r s).1 j ≡ d.table s j)
  pub delete_ok :
      (k : Key) (s : d.State)
      → (d.delete_item k s).0 ≡ ok tt
      → (j : Key) → d.table (d.delete_item k s).1 j ≡ with_item k none (d.table s) j
  pub query_keeps :
      (q : QueryInput) (s : d.State) (j : Key) → d.table (d.query q s).1 j ≡ d.table s j
  pub query_all_keeps :
      (q : QueryInput) (s : d.State) (j : Key) → d.table (d.query_all q s).1 j ≡ d.table s j
  pub query_ok :
      (q : QueryInput) (s : d.State) (its : List Item)
      → (d.query q s).0 ≡ ok its
      → All (λ it. (d.table s (key_of it) ≡ some it) × (matches q.key_condition it ≡ true)) its
  pub query_all_ok :
      (q : QueryInput) (s : d.State) (its : List Item)
      → (d.query_all q s).0 ≡ ok its
      → All (λ it. (d.table s (key_of it) ≡ some it) × (matches q.key_condition it ≡ true)) its
  pub batch_keeps :
      (ks : List Key) (s : d.State) (j : Key) → d.table (d.batch_get ks s).1 j ≡ d.table s j
  pub batch_ok :
      (ks : List Key) (s : d.State) (its : List Item)
      → (d.batch_get ks s).0 ≡ ok its
      → All (λ it. d.table s (key_of it) ≡ some it) its
  pub transact_ok :
      (ws : List TransactItem) (s : d.State)
      → (d.transact_write ws s).0 ≡ ok tt
      → All (λ w. permits w (d.table s) ≡ true) ws
        × ((j : Key) → d.table (d.transact_write ws s).1 j ≡ all_written ws (d.table s) j)
  pub transact_refused :
      (ws : List TransactItem) (s : d.State) (i : ℕ)
      → (d.transact_write ws s).0 ≡ err (condition_failure i)
      → (refuses_at ws i (d.table s) ≡ true)
        × ((j : Key) → d.table (d.transact_write ws s).1 j ≡ d.table s j)
