-- ===== src/Dynamo/Memory.antt =====
-- A table in memory that keeps the laws: it shows that they can be met, and runs the examples.
pub mod Keeps
use komodo_accounts_api.Prelude.{
  ℕ, String, ◌≡◌, refl, Bool, true, false, not, ◌&&◌, Option, none, some, List, [], ◌∷◌, All, arith,
  if◌then◌else◌, Option-cases, inl, inr, take, suc, ◌==◌, eq_iff,
}
use komodo_accounts_api.Errors.{
  Err, conditional_check_failed, condition_failure, repo_not_found, other,
}
use komodo_accounts_api.Exec.{Result, Exec, ok, err}
use komodo_accounts_api.Dynamo.{
  KeyCondition, QueryInput, TransactItem, put, update, delete, DynamoDb,
}
use komodo_accounts_api.Dynamo.Items.{
  Key, Item, key_eq, key_eq_sound, key_of, allows, holds, new_item, UpdateRequest, Condition,
}
use komodo_accounts_api.Dynamo.Laws.{
  Table, matches, with_item, written, permits, all_written, refuses_at,
}

pub record Memory : Type 0 where
  pub keys : List Key
  pub at : Table

abbrev pub empty : Memory
empty = record { keys = []; at = λ k. none }

abbrev pub known : List Key → Key → Bool
known [] k = false
known (j ∷ js) k = if key_eq j k then true else known js k

abbrev pub stored : Item → Memory → Memory
stored it m = record {
  keys = if known m.keys (key_of it) then m.keys else key_of it ∷ m.keys;
  at = with_item (key_of it) (some it) m.at;
}

abbrev pub keep : Key → Option Item → KeyCondition → List Item → List Item
keep k none c rest = rest
keep k (some it) c rest = if key_eq (key_of it) k && matches c it then it ∷ rest else rest

abbrev pub scan : List Key → Table → KeyCondition → List Item
scan [] t c = []
scan (k ∷ ks) t c = keep k (t k) c (scan ks t c)

abbrev pub limited : Option ℕ → List Item → List Item
limited none its = its
limited (some n) its = take n its

abbrev pub kept : Key → Option Item → List Item → List Item
kept k none rest = rest
kept k (some it) rest = if key_eq (key_of it) k then it ∷ rest else rest

abbrev pub gather : List Key → Table → List Item
gather [] t = []
gather (k ∷ ks) t = kept k (t k) (gather ks t)

abbrev pub read : Option Item → Result Item
read none = err repo_not_found
read (some it) = ok it

abbrev pub updated : UpdateRequest → Bool → Option Item → Memory → Result Item × Memory
updated r false it m = (err conditional_check_failed, m)
updated r true none m = (err other, m)
updated r true (some it) m = (
  ok it,
  record m {
    keys = if known m.keys r.key then m.keys else r.key ∷ m.keys;
    at = with_item r.key (some it) m.at;
  },
)

abbrev pub first_refused : List TransactItem → Table → ℕ → Option ℕ
first_refused [] t i = none
first_refused (w ∷ ws) t i = if permits w t then first_refused ws t (suc i) else some i

abbrev pub written_keys : List TransactItem → List Key → List Key
written_keys [] ks = ks
written_keys (put it c ∷ ws) ks =
    written_keys ws (if known ks (key_of it) then ks else key_of it ∷ ks)
written_keys (update r ∷ ws) ks = written_keys ws (if known ks r.key then ks else r.key ∷ ks)
written_keys (delete k ∷ ws) ks = written_keys ws ks

abbrev pub transacted : List TransactItem → Option ℕ → Memory → Result (Unit {0}) × Memory
transacted ws (some i) m = (err (condition_failure i), m)
transacted ws none m = (ok tt, record { keys = written_keys ws m.keys; at = all_written ws m.at })

abbrev pub memory : DynamoDb
memory = record {
  State = Memory;
  table = λ m. m.at;
  build_key = λ pk sk. ok (record { pk = pk; sk = sk });
  get_item = λ k m. (read (m.at k), m);
  write_item = λ it c m.
      if allows c (m.at (key_of it))
      then (ok tt, stored it m)
      else (err conditional_check_failed, m);
  update_item = λ r m. updated r (holds r (m.at r.key)) (new_item r (m.at r.key)) m;
  delete_item = λ k m. (ok tt, record m { at = with_item k none m.at });
  query = λ q m. (ok (limited q.limit (scan m.keys m.at q.key_condition)), m);
  query_all = λ q m. (ok (scan m.keys m.at q.key_condition), m);
  batch_get = λ ks m. (ok (gather ks m.at), m);
  transact_write = λ ws m. transacted ws (first_refused ws m.at 0) m;
}
