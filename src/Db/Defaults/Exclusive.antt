-- ===== src/Db/Defaults/Exclusive.antt =====
-- Which items are the default after a change of the default.
use komodo_accounts_api.Exec.{replaced-ok, rethrow, ok}
use komodo_accounts_api.Db.Defaults.{
  default_error, rethrow, candidates_query, demote_and_promote_default, DynamoDb, begins_with,
  promotion, boolean, get_string, time, demotions, demotion, flag_update,
}
use komodo_accounts_api.Dynamo.Laws.{permits, Lawful, matches, written, all_written, Table}
use komodo_accounts_api.Dynamo.Items.{
  key_eq_refl, lookup-insert, boolean, get_string, key_eq, time, insert, started, key_of, new_item,
  get_bool, Key, Item,
}
use komodo_accounts_api.Dynamo.{DynamoDb, begins_with, TransactItem}
use komodo_accounts_api.Prelude.{
  fun_ext, eq_iff, arith, All-mem, ◌∙◌, ap, inr, inl, sym, Bool-cases, has_prefix, ℕ, String, ◌≡◌,
  ◌≢◌, refl, Bool, true, false, not, ◌||◌, ◌==◌, Option, none, some, List, [], ◌∷◌, ◌++◌, All,
}
use mathlib.Core.List.{Memᴰ}

-- Whether an item that is stored is the default.
abbrev pub flagged : Option Item → Bool
flagged none = false
flagged (some it) = get_bool "is_default" it

-- The page holds every item of the partition whose sort key has the prefix.
pub record Covers (pk sk_prefix : String) (t : Table) (page : List Item) : Type 0 where
  pub listed :
      (k : Key) (it : Item)
      → k.pk ≡ pk
      → has_prefix k.sk sk_prefix ≡ true
      → t k ≡ some it
      → (c : Item) × Memᴰ c page × (key_of c ≡ k)

flag-inserted :
    (b : Bool) (now : ℕ) (it : Item)
    → get_bool "is_default" (insert "updated_at" (time now) (insert "is_default" (boolean b) it))
      ≡ b
flag-inserted b now it = rw (
  lookup-insert "updated_at" "is_default" (time now) (insert "is_default" (boolean b) it),
  lookup-insert "is_default" "is_default" (boolean b) it,
)

flagged-promoted :
    (pk sk : String) (now : ℕ) (o : Option Item)
    → flagged (new_item (flag_update pk sk ":true" true now) o) ≡ true
flagged-promoted pk sk now o = flag-inserted true now (started (record { pk = pk; sk = sk }) o)

flagged-demoted :
    (pk sk : String) (now : ℕ) (o : Option Item)
    → flagged (new_item (flag_update pk sk ":false" false now) o) ≡ false
flagged-demoted pk sk now o = flag-inserted false now (started (record { pk = pk; sk = sk }) o)

all_written-append :
    (ws vs : List TransactItem) (t : Table)
    → all_written (ws ++ vs) t ≡ all_written vs (all_written ws t)
all_written-append [] vs t = refl
all_written-append (w ∷ ws) vs t = all_written-append ws vs (written w t)

pub other_key :
    (pk target_sk : String) (k : Key)
    → (k.sk == target_sk) ≡ false
    → key_eq (record { pk = pk; sk = target_sk }) k ≡ false
other_key pk target_sk k h = ground (arith, eq_iff target_sk k.sk, eq_iff k.sk target_sk)

module _ (pk target_sk : String) (now : ℕ) where
  -- A key that is not flagged stays so, whatever is demoted.
  demotion-keeps :
      (sk : String) (t : Table) (k : Key)
      → flagged (t k) ≡ false
      → flagged (written (demotion pk sk now) t k) ≡ false
  demotion-keeps sk t k h = elim (Bool-cases (key_eq (record { pk = pk; sk = sk }) k)) [
    | inl e ↦ rw e (flagged-demoted pk sk now (t (record { pk = pk; sk = sk })))
    | inr e ↦ rw e h
  ]

  demotions-keep :
      (cs : List Item) (t : Table) (k : Key)
      → flagged (t k) ≡ false
      → flagged (all_written (demotions pk target_sk now cs) t k) ≡ false
  unfolding demotions
  demotions-keep [] t k h = h
  demotions-keep (c ∷ cs) t k h =
      elim (Bool-cases (get_string "SK" c == target_sk || not (get_bool "is_default" c))) [
        | inl e ↦ rw e (demotions-keep cs t k h)
        | inr e ↦ rw e (
            demotions-keep cs (written (demotion pk (get_string "SK" c) now) t) k
              (demotion-keeps (get_string "SK" c) t k h))
      ]

  -- A candidate that is flagged and is not the target is demoted.
  demotions-clear :
      (cs : List Item) (c : Item) (t : Table) (k : Key)
      → Memᴰ c cs
      → key_of c ≡ k
      → k.pk ≡ pk
      → (k.sk == target_sk) ≡ false
      → get_bool "is_default" c ≡ true
      → flagged (all_written (demotions pk target_sk now cs) t k) ≡ false
  unfolding demotions
  demotions-clear [] c t k m at inside other set = elim m [ ]
  demotions-clear (x ∷ cs) c t k (Memᴰ.head e) at inside other set =
      let sk_is : get_string "SK" x ≡ k.sk = ap (λ q. q.sk) (ap key_of (sym e) ∙ at) in
      let set_x : get_bool "is_default" x ≡ true =
        ap (λ (i : Item). get_bool "is_default" i) (sym e) ∙ set in
      let at_k : key_eq (record { pk = pk; sk = get_string "SK" x }) k ≡ true =
        rw (sk_is, ← inside) (key_eq_refl k) in
      let chosen : (get_string "SK" x == target_sk || not (get_bool "is_default" x)) ≡ false =
        rw (sk_is, other, set_x) in
      rw chosen (
        demotions-keep cs (written (demotion pk (get_string "SK" x) now) t) k (
          rw at_k (
            flagged-demoted pk (get_string "SK" x) now
              (t (record { pk = pk; sk = get_string "SK" x })))))
  demotions-clear (x ∷ cs) c t k (Memᴰ.tail m) at inside other set =
      elim (Bool-cases (get_string "SK" x == target_sk || not (get_bool "is_default" x))) [
        | inl e ↦ rw e (demotions-clear cs c t k m at inside other set)
        | inr e ↦ rw e (
            demotions-clear cs c (written (demotion pk (get_string "SK" x) now) t) k m at inside
              other set)
      ]

  -- What the whole transaction leaves at the target and at any other key that its page covers.
  promoted_target :
      (ws : List TransactItem) (t : Table)
      → flagged (
          all_written
            (ws ++ promotion pk target_sk now ∷ [])
            t
            (record { pk = pk; sk = target_sk }))
        ≡ true
  promoted_target ws t =
      rw
        (
          all_written-append ws (promotion pk target_sk now ∷ []) t,
          key_eq_refl (record { pk = pk; sk = target_sk }),
        )
        (flagged-promoted pk target_sk now (all_written ws t (record { pk = pk; sk = target_sk })))

  target_exists :
      (ws : List TransactItem) (t : Table)
      → All (λ w. permits w t ≡ true) (ws ++ promotion pk target_sk now ∷ [])
      → t (record { pk = pk; sk = target_sk }) ≢ none
  target_exists [] t h absent = cc (absent, h.0)
  target_exists (w ∷ ws) t h absent = target_exists ws t h.1 absent

  cleared_other :
      (sk_prefix : String) (page : List Item) (t : Table) (k : Key) (it : Item)
      → Covers pk sk_prefix t page
      → All (λ c. (t (key_of c) ≡ some c) × (matches (begins_with pk sk_prefix) c ≡ true)) page
      → k.pk ≡ pk
      → has_prefix k.sk sk_prefix ≡ true
      → (k.sk == target_sk) ≡ false
      → t k ≡ some it
      → flagged
          (all_written (demotions pk target_sk now page ++ promotion pk target_sk now ∷ []) t k)
        ≡ false
  cleared_other sk_prefix page t k it covers sound inside under other found =
      let (c, listed, at) = covers.listed k it inside under found in
      let cleared : flagged (all_written (demotions pk target_sk now page) t k) ≡ false =
        elim (Bool-cases (get_bool "is_default" c)) [
          | inl set ↦ demotions-clear page c t k listed at inside other set
          | inr unset ↦
              let stored : t k ≡ some c = ap t (sym at) ∙ (All-mem _ page sound listed).0 in
              demotions-keep page t k (rw stored unset)
        ] in
      rw (all_written-append (demotions pk target_sk now page) (promotion pk target_sk now ∷ []) t)
        (rw (other_key pk target_sk k other) cleared)

module _ (d : DynamoDb) (laws : Lawful d) where
  -- If the change of the default succeeds and its page covers the prefix, then afterwards the target
  -- is flagged as the default, and no other item of the partition under the prefix is; the target
  -- existed before.
  pub demote_and_promote_default-exclusive :
      (now : ℕ) (pk sk_prefix target_sk : String) (s : d.State) (page : List Item)
      → (d.query (candidates_query pk sk_prefix) s).0 ≡ ok page
      → Covers pk sk_prefix (d.table s) page
      → (demote_and_promote_default d now pk sk_prefix target_sk s).0 ≡ ok tt
      → (flagged (
            d.table
              (demote_and_promote_default d now pk sk_prefix target_sk s).1
              (record { pk = pk; sk = target_sk }))
          ≡ true)
        × ((k : Key) (it : Item)
            → k.pk ≡ pk
            → has_prefix k.sk sk_prefix ≡ true
            → (k.sk == target_sk) ≡ false
            → d.table s k ≡ some it
            → flagged (d.table (demote_and_promote_default d now pk sk_prefix target_sk s).1 k)
              ≡ false)
        × (d.table s (record { pk = pk; sk = target_sk }) ≢ none)
  unfolding demote_and_promote_default
  demote_and_promote_default-exclusive now pk sk_prefix target_sk s page read covers e =
      let after_read = (d.query (candidates_query pk sk_prefix) s).1 in
      let same : d.table after_read ≡ d.table s =
        fun_ext (laws.query_keeps (candidates_query pk sk_prefix) s) in
      let ws = demotions pk target_sk now page ++ promotion pk target_sk now ∷ [] in
      let sent : (rethrow default_error (d.transact_write ws) after_read).0 ≡ ok tt =
        rw read at e in
      let (permitted, after) =
        laws.transact_ok ws after_read (replaced-ok default_error _ tt sent) in
      (
        rw (read, after, same)
            (promoted_target pk target_sk now (demotions pk target_sk now page) (d.table s)),
        λ k it inside under other found.
            rw (read, after, same)
              (cleared_other pk target_sk now sk_prefix page (d.table s) k it covers
                (laws.query_ok (candidates_query pk sk_prefix) s page read) inside under other
                found),
        rw same at (
            target_exists pk target_sk now (demotions pk target_sk now page) (d.table after_read)
              permitted),
      )
