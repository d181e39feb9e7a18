-- ===== src/Db/Draft/Resolve.antt =====
-- How the three collections of a draft resolve to assignments.
use mathlib.Core.List.{append_assoc, append-nil}
use komodo_accounts_api.Prelude.{
  String, ◌≡◌, refl, Bool, true, false, not, ◌&&◌, Option, none, some, List, [], ◌∷◌, ◌++◌, arith,
  ◌==◌, eq_iff, Bool-cases, inl, inr,
}
use komodo_accounts_api.Dynamo.Items.{Attr, lookup, insert, lookup-insert, resolve, paired}
use komodo_accounts_api.Db.Draft.{Draft, no_clauses, clause, clause_if, field}

lookup-insert_other {ℓ} :
    {V : Type ℓ} (k j : String) (v w : V) (m : List (String × V))
    → lookup k m ≡ none
    → lookup j m ≡ some w
    → lookup j (insert k v m) ≡ some w
lookup-insert_other k j v w m absent found = rw lookup-insert (elim (Bool-cases (k == j)) [
  | inl e ↦ cc (absent, found, (eq_iff k j).0 e)
  | inr e ↦ rw e found
])

lookup-insert_self {ℓ} :
    {V : Type ℓ} (k : String) (v : V) (m : List (String × V)) → lookup k (insert k v m) ≡ some v
lookup-insert_self k v m = rw (lookup-insert, (eq_iff k k).1 refl)

module _ (names : List (String × String)) (values : List (String × Attr)) where
  paired-some :
      (o : Option String) (p : Option Attr) (q : Option (List (String × Attr)))
      (xs : List (String × Attr))
      → paired o p q ≡ some xs
      → (a : String) × (v : Attr) × (rest : List (String × Attr)) × (o ≡ some a)
        × (p ≡ some v)
        × (q ≡ some rest)
        × (xs ≡ (a, v) ∷ rest)
  paired-some (some a) (some v) (some rest) xs h = (a, v, rest, refl, refl, refl, cc)
  paired-some none p q xs h = cc
  paired-some (some a) none q xs h = cc
  paired-some (some a) (some v) none xs h = cc

  module _ (n u a : String) (x : Attr) (no_name : lookup n names ≡ none)
      (no_value : lookup u values ≡ none) where
    resolve-extend :
        (cs : List (String × String)) (xs : List (String × Attr))
        → resolve names values cs ≡ some xs
        → resolve (insert n a names) (insert u x values) (cs ++ (n, u) ∷ [])
          ≡ some (xs ++ (a, x) ∷ [])
    resolve-extend [] xs h = rw (lookup-insert_self n a names, lookup-insert_self u x values) (cc)
    resolve-extend ((m, w) ∷ cs) xs h =
        let (b, v, rest, found, valued, later, same) =
          paired-some (lookup m names) (lookup w values) (resolve names values cs) xs h in
        rw (
          lookup-insert_other n m a b names no_name found,
          lookup-insert_other u w x v values no_value valued,
          resolve-extend cs rest later,
          same,
        )

-- The placeholders that the later fields use are not taken yet.
abbrev Free : List (String × String) → Draft → Type 0
Free [] d = Unit
Free ((n, v) ∷ ks) d = (lookup n d.names ≡ none) × (lookup v d.values ≡ none) × Free ks d

abbrev apart : String → String → List (String × String) → Bool
apart n v [] = true
apart n v ((m, w) ∷ ks) = not (n == m) && (not (v == w) && apart n v ks)

pub record Resolves (ks : List (String × String)) (d : Draft) (xs : List (String × Attr))
    : Type 0 where
  pub free : Free ks d
  pub resolved : resolve d.names d.values d.set ≡ some xs

not-true : (b c : Bool) → (not b && c) ≡ true → (b ≡ false) × (c ≡ true)
not-true b c h = ground arith

Free-clause :
    (n v a : String) (x : Attr) (ks : List (String × String)) (d : Draft)
    → apart n v ks ≡ true
    → Free ks d
    → Free ks (clause n v a x d)
Free-clause n v a x [] d h f = tt
Free-clause n v a x ((m, w) ∷ ks) d h f =
    let (e₁, h₁) = not-true (n == m) _ h in
    let (e₂, h₂) = not-true (v == w) _ h₁ in
    (
      rw (lookup-insert n m a d.names, e₁) f.0,
      rw (lookup-insert v w x d.values, e₂) f.1,
      Free-clause n v a x ks d h₂ f.2,
    )

pub Resolves-no_clauses : (ks : List (String × String)) → Resolves ks no_clauses []
Resolves-no_clauses ks = record { free = go ks; resolved = refl }
  where
    go : (ks : List (String × String)) → Free ks no_clauses
    go [] = tt
    go ((n, v) ∷ ks) = (refl, refl, go ks)

-- One more field, present or not.
pub Resolves-clause_if {ℓ} :
    {A : Type ℓ} (n v a : String) (wrap : A → Attr) (o : Option A) (ks : List (String × String))
    (d : Draft) (xs : List (String × Attr))
    → apart n v ks ≡ true
    → Resolves ((n, v) ∷ ks) d xs
    → Resolves ks (clause_if n v a wrap o d) (xs ++ field a wrap o)
Resolves-clause_if n v a wrap none ks d xs h r = record {
  free = r.free.2;
  resolved = rw (append-nil xs) r.resolved;
}
Resolves-clause_if n v a wrap (some x) ks d xs h r = record {
  free = Free-clause n v a (wrap x) ks d h r.free.2;
  resolved = resolve-extend d.names d.values n v a (wrap x) r.free.0 r.free.1 d.set xs r.resolved;
}

-- A placeholder pair that is bound from the start.
pub record Binds (n v a : String) (x : Attr) (d : Draft) : Type 0 where
  pub name : lookup n d.names ≡ some a
  pub value : lookup v d.values ≡ some x

pub Binds-clause :
    (m w b : String) (y : Attr) (n v a : String) (x : Attr) (d : Draft)
    → (m == n) ≡ false
    → (w == v) ≡ false
    → Binds n v a x d
    → Binds n v a x (clause m w b y d)
Binds-clause m w b y n v a x d e f h = record {
  name = rw (lookup-insert m n b d.names, e) h.name;
  value = rw (lookup-insert w v y d.values, f) h.value;
}

pub Binds-clause_if {ℓ} :
    {A : Type ℓ} (m w b : String) (wrap : A → Attr) (o : Option A) (n v a : String) (x : Attr)
    (d : Draft)
    → (m == n) ≡ false
    → (w == v) ≡ false
    → Binds n v a x d
    → Binds n v a x (clause_if m w b wrap o d)
Binds-clause_if m w b wrap none n v a x d e f h = h
Binds-clause_if m w b wrap (some y) n v a x d e f h = Binds-clause m w b (wrap y) n v a x d e f h

resolve-append :
    (names : List (String × String)) (values : List (String × Attr))
    (cs ds : List (String × String)) (xs ys : List (String × Attr))
    → resolve names values cs ≡ some xs
    → resolve names values ds ≡ some ys
    → resolve names values (cs ++ ds) ≡ some (xs ++ ys)
resolve-append names values [] ds xs ys h k = let e : xs ≡ [] = cc in rw e k
resolve-append names values ((m, w) ∷ cs) ds xs ys h k =
    let (b, v, rest, found, valued, later, same) =
      paired-some names values (lookup m names) (lookup w values) (resolve names values cs) xs h in
    rw (found, valued, resolve-append names values cs ds rest ys later k, same)

-- A clause of its own, then one whose placeholders are bound already.
pub resolve-clause_bound :
    (n v a : String) (x : Attr) (m w b : String) (y : Attr) (d : Draft) (xs : List (String × Attr))
    → (n == m) ≡ false
    → (v == w) ≡ false
    → Resolves ((n, v) ∷ []) d xs
    → Binds m w b y d
    → resolve (insert n a d.names) (insert v x d.values) (d.set ++ (n, v) ∷ (m, w) ∷ [])
      ≡ some (xs ++ (a, x) ∷ (b, y) ∷ [])
resolve-clause_bound n v a x m w b y d xs e f r h =
    let names = insert n a d.names in
    let values = insert v x d.values in
    let name : lookup m names ≡ some b = rw (lookup-insert n m a d.names, e) h.name in
    let value : lookup w values ≡ some y = rw (lookup-insert v w x d.values, f) h.value in
    let last : resolve names values ((m, w) ∷ []) ≡ some ((b, y) ∷ []) = rw (name, value) in
    let before = resolve-extend d.names d.values n v a x r.free.0 r.free.1 d.set xs r.resolved in
    rw
      (
        ← append_assoc d.set ((n, v) ∷ []) ((m, w) ∷ []),
        ← append_assoc xs ((a, x) ∷ []) ((b, y) ∷ []),
      )
      (resolve-append names values (d.set ++ (n, v) ∷ []) ((m, w) ∷ []) (xs ++ (a, x) ∷ [])
        ((b, y) ∷ []) before last)
