-- ===== src/TtlCache.antt =====
-- internal/ttlcache/cache.go, with texts as keys. The map is the list of its entries in the order
-- in which `Range` visits them, which Go leaves open. Calls are taken one at a time, and the clock is
-- a parameter in nanoseconds. A bound that is not positive is 0 here.
pub mod Bounds
pub mod Lookup
use komodo_accounts_api.Prelude.{
  leb, ◌&&◌, ltb, eqb, if◌then◌else◌, [], Bool, ◌+◌, ◌∷◌, some, none, String, Option, List, ℕ, ◌==◌,
}

pub record Entry (V : Type 0) : Type 0 where
  pub value : V
  pub expires_at : ℕ

pub record TtlCache (V : Type 0) : Type 0 where
  pub entries : List (String × Entry V)
  pub max_entries : ℕ

module _ {V : Type 0} where
  -- `sync.Map`: Load, Store and Delete
  abbrev pub load : String → List (String × Entry V) → Option (Entry V)
  load k [] = none
  load k ((j, e) ∷ m) = if j == k then some e else load k m

  abbrev pub store : String → Entry V → List (String × Entry V) → List (String × Entry V)
  store k e [] = (k, e) ∷ []
  store k e ((j, f) ∷ m) = if j == k then (k, e) ∷ m else (j, f) ∷ store k e m

  abbrev pub remove : String → List (String × Entry V) → List (String × Entry V)
  remove k [] = []
  remove k ((j, e) ∷ m) = let rest = remove k m in if j == k then rest else (j, e) ∷ rest

  -- `now.After(e.expiresAt)`
  abbrev pub expired : (now : ℕ) → Entry V → Bool
  expired now e = ltb e.expires_at now

  abbrev pub new : (max_entries : ℕ) → TtlCache V
  new max_entries = record { entries = []; max_entries = max_entries }

  abbrev loaded : (now : ℕ) → String → TtlCache V → Option (Entry V) → Option V × TtlCache V
  loaded now key c none = (none, c)
  loaded now key c (some e) =
      if expired now e
      then (none, record c { entries = remove key c.entries })
      else (some e.value, c)

  unfoldable pub get : (now : ℕ) → String → TtlCache V → Option V × TtlCache V
  get now key c = loaded now key c (load key c.entries)

  -- The count stops at the bound.
  abbrev count : (max_entries : ℕ) → List (String × Entry V) → (size : ℕ) → ℕ
  count max_entries [] size = size
  count max_entries (x ∷ m) size =
      let rest = count max_entries m (size + 1) in
      if ltb (size + 1) max_entries then rest else size + 1

  -- The key that goes: the first expired entry among the first 32, otherwise the first of all.
  abbrev victim : (now : ℕ) → List (String × Entry V) → (n : ℕ) → Option String → Option String
  victim now [] n first_key = first_key
  victim now ((k, e) ∷ m) n first_key =
      let first_key' = (if eqb n 0 then some k else first_key) in
      let rest = victim now m (n + 1) first_key' in
      if expired now e then some k else if ltb (n + 1) 32 then rest else first_key'

  abbrev pub remove_any : Option String → List (String × Entry V) → List (String × Entry V)
  remove_any none m = m
  remove_any (some k) m = remove k m

  unfoldable pub evict_one : (now : ℕ) → List (String × Entry V) → List (String × Entry V)
  evict_one now m = remove_any (victim now m 0 none) m

  -- what an insertion makes room in
  unfoldable pub with_room : (now : ℕ) → TtlCache V → List (String × Entry V)
  unfolding evict_one
  with_room now c =
      if ltb 0 c.max_entries && leb c.max_entries (count c.max_entries c.entries 0)
      then evict_one now c.entries
      else c.entries

  unfoldable pub set : (now : ℕ) → String → V → (ttl : ℕ) → TtlCache V → TtlCache V
  unfolding with_room
  set now key value ttl c = record c {
    entries = store key (record { value = value; expires_at = now + ttl }) (with_room now c);
  }

  unfoldable pub delete : String → TtlCache V → TtlCache V
  delete key c = record c { entries = remove key c.entries }

  abbrev pub kept : (now : ℕ) → List (String × Entry V) → List (String × Entry V)
  kept now [] = []
  kept now ((k, e) ∷ m) = let rest = kept now m in if expired now e then rest else (k, e) ∷ rest

  -- One tick of the eviction loop; the loop ends on Stop.
  unfoldable pub evict : (now : ℕ) → TtlCache V → TtlCache V
  evict now c = record c { entries = kept now c.entries }
