-- ===== src/TtlCache/Lookup.antt =====
-- What a lookup returns after an insertion, a deletion and a sweep.
use komodo_accounts_api.Prelude.{
  [], eq_iff, ◌∷◌, leb, ◌&&◌, ap, ◌∙◌, sym, inr, inl, Bool-cases, eq_refl, ◌+◌, false, arith, none,
  Option, ltb, some, if◌then◌else◌, ◌≡◌, List, ℕ, String, ◌==◌, refl,
}
use komodo_accounts_api.TtlCache.{
  delete, victim, count, loaded, remove_any, expired, remove, store, load, evict_one, Entry,
  with_room, get, TtlCache, set,
}

module _ {V : Type 0} where
  load-store :
      (k j : String) (e : Entry V) (m : List (String × Entry V))
      → load j (store k e m) ≡ (if k == j then some e else load j m)
  load-store k j e [] = refl
  load-store k j e ((i, f) ∷ m) =
      ground (arith, eq_iff k j, eq_iff i k, eq_iff i j, load-store k j e m)

  pub load-remove :
      (k j : String) (m : List (String × Entry V))
      → load j (remove k m) ≡ (if k == j then none else load j m)
  load-remove k j [] = ground arith
  load-remove k j ((i, f) ∷ m) =
      ground (arith, eq_iff k j, eq_iff i k, eq_iff i j, load-remove k j m)

  with_room-keeps :
      (now : ℕ) (c : TtlCache V) (j : String) (e : Entry V)
      → load j (with_room now c) ≡ some e
      → load j c.entries ≡ some e
  unfolding with_room evict_one
  with_room-keeps now c j e h =
      elim (Bool-cases
        (ltb 0 c.max_entries && leb c.max_entries (count c.max_entries c.entries 0))) [
          | inl full ↦ go (victim now c.entries 0 none) (rw full at h)
          | inr room ↦ rw room at h
        ]
    where
      go :
          (o : Option String) → load j (remove_any o c.entries) ≡ some e → load j c.entries ≡ some e
      go none p = p
      go (some k) p = elim (Bool-cases (k == j)) [
        | inl same ↦ cc (rw same at (load-remove k j c.entries), p)
        | inr other ↦ sym (rw other at (load-remove k j c.entries)) ∙ p
      ]

  get-loaded :
      (now : ℕ) (j : String) (c : TtlCache V) (w : V)
      → (get now j c).0 ≡ some w
      → (e : Entry V) × (load j c.entries ≡ some e) × (expired now e ≡ false) × (e.value ≡ w)
  unfolding get
  get-loaded now j c w h = go (load j c.entries) refl h
    where
      go :
          (o : Option (Entry V))
          → load j c.entries ≡ o
          → (loaded now j c o).0 ≡ some w
          → (e : Entry V) × (load j c.entries ≡ some e) × (expired now e ≡ false) × (e.value ≡ w)
      go none p q = cc
      go (some e) p q = elim (Bool-cases (expired now e)) [
        | inl old ↦ cc (rw old at q)
        | inr fresh ↦ (e, p, fresh, cc (rw fresh at q))
      ]

  loaded-get :
      (now : ℕ) (j : String) (c : TtlCache V) (e : Entry V)
      → load j c.entries ≡ some e
      → expired now e ≡ false
      → (get now j c).0 ≡ some e.value
  unfolding get
  loaded-get now j c e p q = rw (p, q) refl

  -- After an insertion the key gives the value until its time to live is over, and nothing later;
  -- any other key gives nothing that it did not give before.
  pub get-set :
      (now : ℕ) (key : String) (value : V) (ttl : ℕ) (c : TtlCache V) (later : ℕ)
      → ((get later key (set now key value ttl c)).0
          ≡ (if ltb (now + ttl) later then none else some value))
        × ((j : String) (w : V)
            → (key == j) ≡ false
            → (get later j (set now key value ttl c)).0 ≡ some w
            → (get later j c).0 ≡ some w)
  unfolding get set
  get-set now key value ttl c later = (
    rw
        (
          load-store key key (record { value = value; expires_at = now + ttl }) (with_room now c),
          eq_refl key,
        )
        (elim (Bool-cases (ltb (now + ttl) later)) [
          | inl old ↦ rw old refl
          | inr fresh ↦ rw fresh refl
        ]),
    λ j w other h.
        let (e, found, fresh, value_is) = get-loaded later j (set now key value ttl c) w h in
        let before : load j (with_room now c) ≡ some e =
          sym (
            rw other at (
              load-store key j (record { value = value; expires_at = now + ttl })
                (with_room now c)))
          ∙ found in
        loaded-get later j c e (with_room-keeps now c j e before) fresh ∙ ap some value_is,
  )

  -- A key that is deleted gives nothing.
  pub get-delete : (now : ℕ) (key : String) (c : TtlCache V) → (get now key (delete key c)).0 ≡ none
  unfolding get delete
  get-delete now key c = rw (load-remove key key c.entries, eq_refl key) refl
