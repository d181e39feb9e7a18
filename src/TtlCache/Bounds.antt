-- ===== src/TtlCache/Bounds.antt =====
-- The number of entries beside the bound (internal/ttlcache/cache.go).
use komodo_accounts_api.Prelude.{
  leb, true, false, subst, inr, eqb, ltb→lt, inl, ltb, if◌then◌else◌, Bool-cases, [], eq_refl, ◌+◌,
  arith, none, ◌∷◌, ◌≢◌, length, ◌≡◌, Option, ◌<◌, some, List, String, ℕ, ◌==◌, refl, ◌≤◌,
}
use komodo_accounts_api.TtlCache.{
  remove_any, evict_one, with_room, expired, victim, store, count, remove, load, Entry, TtlCache,
  set,
}

some_inj : {a b : String} → some a ≡ some b → a ≡ b
some_inj e = cc

module _ {V : Type 0} where
  length-remove-le : (k : String) (m : List (String × Entry V)) → length (remove k m) ≤ length m
  length-remove-le k [] = omega arith
  length-remove-le k ((j, e) ∷ m) = let h = length-remove-le k m in ground arith

  length-remove-lt :
      (k : String) (m : List (String × Entry V)) → load k m ≢ none → length (remove k m) < length m
  length-remove-lt k [] found = absurd (found refl)
  length-remove-lt k ((j, f) ∷ m) found = elim (Bool-cases (j == k)) [
    | inl same ↦ let h = length-remove-le k m in rw same (omega (arith, h))
    | inr other ↦ let h = length-remove-lt k m (rw other at found) in rw other (omega (arith, h))
  ]

  length-store :
      (k : String) (e : Entry V) (m : List (String × Entry V)) → length (store k e m) ≤ length m + 1
  length-store k e [] = omega arith
  length-store k e ((j, f) ∷ m) = let h = length-store k e m in ground arith

  -- the count reaches the bound exactly where the map does
  count-full :
      (b : ℕ) (m : List (String × Entry V)) (n : ℕ) → n < b → count b m n < b → length m + n < b
  count-full b [] n h k = omega (arith, h)
  count-full b (x ∷ m) n h k = elim (Bool-cases (ltb (n + 1) b)) [
    | inl less ↦ let r = count-full b m (n + 1) (ltb→lt _ _ less) (rw less at k) in omega (arith, r)
    | inr full ↦ let k' = rw full at k in ground arith
  ]

  load-head : (k : String) (e : Entry V) (m : List (String × Entry V)) → load k ((k, e) ∷ m) ≢ none
  load-head k e m = rw (eq_refl k) (λ h. cc)

  load-tail :
      (j k : String) (e : Entry V) (m : List (String × Entry V))
      → load k m ≢ none
      → load k ((j, e) ∷ m) ≢ none
  load-tail j k e m h = elim (Bool-cases (j == k)) [
    | inl same ↦ rw same (λ p. cc)
    | inr other ↦ rw other h
  ]

  -- The victim is a key of the map, also where the search has gone past the first entry.
  module _ (now : ℕ) (whole : List (String × Entry V)) where
    abbrev Within : List (String × Entry V) → Type 0
    Within [] = Unit
    Within ((k, e) ∷ m) = (load k whole ≢ none) × Within m

    victim-found :
        (m : List (String × Entry V)) (n : ℕ) (first_key : Option String) (k : String)
        → Within m
        → ((j : String) → first_key ≡ some j → load j whole ≢ none)
        → victim now m n first_key ≡ some k
        → load k whole ≢ none
    victim-found [] n first_key k w f h = f k h
    victim-found ((j, e) ∷ m) n first_key k w f h =
        let f' : (i : String)
            → (if eqb n 0 then some j else first_key) ≡ some i
            → load i whole ≢ none =
          λ i p. elim (Bool-cases (eqb n 0)) [
            | inl zeroth ↦
                let e' : some j ≡ some i = rw zeroth at p in
                subst (λ q. load q whole ≢ none) (some_inj e') w.0
            | inr later ↦ f i (rw later at p)
          ] in
        elim (Bool-cases (expired now e)) [
          | inl old ↦
              let e' : some j ≡ some k = rw old at h in
              subst (λ q. load q whole ≢ none) (some_inj e') w.0
          | inr fresh ↦ elim (Bool-cases (ltb (n + 1) 32)) [
            | inl more ↦
                victim-found m (n + 1) (if eqb n 0 then some j else first_key) k w.1 f'
                  (rw (fresh, more) at h)
            | inr stop ↦ f' k (rw (fresh, stop) at h)
          ]
        ]

  Within-tail :
      (j : String) (e : Entry V) (now : ℕ) (whole m : List (String × Entry V))
      → Within now whole m
      → Within now ((j, e) ∷ whole) m
  Within-tail j e now whole [] w = tt
  Within-tail j e now whole ((k, f) ∷ m) w =
      (load-tail j k e whole w.0, Within-tail j e now whole m w.1)

  Within-self : (now : ℕ) (m : List (String × Entry V)) → Within now m m
  Within-self now [] = tt
  Within-self now ((k, e) ∷ m) = (load-head k e m, Within-tail k e now m m (Within-self now m))

  victim-some :
      (now : ℕ) (m : List (String × Entry V)) (n : ℕ) (j : String)
      → victim now m (n + 1) (some j) ≢ none
  victim-some now [] n j h = cc
  victim-some now ((k, e) ∷ m) n j h =
      let later : eqb (n + 1) 0 ≡ false = ground arith in
      elim (Bool-cases (expired now e)) [
        | inl old ↦ cc (rw old at h)
        | inr fresh ↦ elim (Bool-cases (ltb (n + 1 + 1) 32)) [
          | inl more ↦ victim-some now m (n + 1) j (rw (later, fresh, more) at h)
          | inr stop ↦ cc (rw (later, fresh, stop) at h)
        ]
      ]

  evict_one-le : (now : ℕ) (m : List (String × Entry V)) → length (evict_one now m) ≤ length m
  unfolding evict_one
  evict_one-le now m = go (victim now m 0 none)
    where
      go : (o : Option String) → length (remove_any o m) ≤ length m
      go none = omega arith
      go (some k) = length-remove-le k m

  evict_one-lt :
      (now : ℕ) (m : List (String × Entry V)) → 0 < length m → length (evict_one now m) < length m
  unfolding evict_one
  evict_one-lt now m h = go (victim now m 0 none) refl
    where
      missing : (m : List (String × Entry V)) → 0 < length m → victim now m 0 none ≢ none
      missing [] h p = absurd (omega (arith, h))
      missing ((k, e) ∷ m) h p = elim (Bool-cases (expired now e)) [
        | inl old ↦ cc (rw old at p)
        | inr fresh ↦ victim-some now m 0 k (rw fresh at p)
      ]

      go : (o : Option String) → victim now m 0 none ≡ o → length (remove_any o m) < length m
      go none e = absurd (missing m h e)
      go (some k) e =
          length-remove-lt k m (victim-found now m m 0 none k (Within-self now m) (λ j p. cc) e)

  with_room-lt :
      (now : ℕ) (c : TtlCache V)
      → 0 < c.max_entries
      → length c.entries ≤ c.max_entries
      → length (with_room now c) < c.max_entries
  unfolding with_room
  with_room-lt now c h le =
      let positive : ltb 0 c.max_entries ≡ true = ground arith in
      elim (Bool-cases (leb c.max_entries (count c.max_entries c.entries 0))) [
        | inl full ↦ elim (Bool-cases (ltb 0 (length c.entries))) [
          | inl some_entry ↦
              let r = evict_one-lt now c.entries (ltb→lt _ _ some_entry) in
              rw (positive, full) (omega (arith, r, le))
          | inr nothing ↦ rw (positive, full) (let r = evict_one-le now c.entries in ground arith)
        ]
        | inr room ↦
            let r = count-full c.max_entries c.entries 0 h (ground arith) in
            rw (positive, room) (omega (arith, r))
      ]

  -- Where the cache has a bound and is within it, it is within it after an insertion.
  pub set-within :
      (now : ℕ) (key : String) (value : V) (ttl : ℕ) (c : TtlCache V)
      → 0 < c.max_entries
      → length c.entries ≤ c.max_entries
      → length (set now key value ttl c).entries ≤ (set now key value ttl c).max_entries
  unfolding set
  set-within now key value ttl c h le =
      let r =
        length-store key (record { value = value; expires_at = now + ttl }) (with_room now c) in
      let q = with_room-lt now c h le in omega (arith, r, q)
