-- ===== src/Dynamo/Memory/Keeps.antt =====
-- The table in memory keeps the laws of the client.
use mathlib.Core.Bool.{and-eq-true_iff}
use komodo_accounts_api.Prelude.{
  subst, ℕ, zero, suc, ◌+◌, ◌≡◌, refl, Bool, true, false, ◌&&◌, Option, none, some, List, [], ◌∷◌,
  All, arith, Bool-cases, inl, inr, take, ap, ◌∙◌,
}
use komodo_accounts_api.Errors.{from_client, Err, conditional_check_failed, condition_failure}
use komodo_accounts_api.Exec.{ok, err}
use komodo_accounts_api.Dynamo.{KeyCondition, TransactItem}
use komodo_accounts_api.Dynamo.Items.{
  Key, Item, key_eq, key_eq_sound, key_of, allows, holds, new_item, UpdateRequest,
}
use komodo_accounts_api.Dynamo.Laws.{
  Table, matches, with_item, permits, all_written, refuses_at, Lawful,
}
use komodo_accounts_api.Dynamo.Memory.{
  read, Err, Memory, memory, updated, keep, scan, limited, gather, kept, first_refused, transacted,
}

abbrev Fits : Table → KeyCondition → Item → Type 0
Fits t c it = (t (key_of it) ≡ some it) × (matches c it ≡ true)

at-key_of :
    (t : Table) (k : Key) (it : Item)
    → t k ≡ some it
    → key_eq (key_of it) k ≡ true
    → t (key_of it) ≡ some it
at-key_of t k it h e = ap t (key_eq_sound (key_of it) k e) ∙ h

keep-All :
    (t : Table) (k : Key) (c : KeyCondition) (o : Option Item) (rest : List Item)
    → t k ≡ o
    → All (Fits t c) rest
    → All (Fits t c) (keep k o c rest)
keep-All t k c none rest h hs = hs
keep-All t k c (some it) rest h hs = elim (Bool-cases (key_eq (key_of it) k && matches c it)) [
  | inl e ↦ let (same, fit) = (and-eq-true_iff _ _).0 e in rw e ((at-key_of t k it h same, fit), hs)
  | inr e ↦ rw e hs
]

scan-All : (ks : List Key) (t : Table) (c : KeyCondition) → All (Fits t c) (scan ks t c)
scan-All [] t c = tt
scan-All (k ∷ ks) t c = keep-All t k c (t k) (scan ks t c) refl (scan-All ks t c)

take-All :
    (t : Table) (c : KeyCondition) (n : ℕ) (its : List Item)
    → All (Fits t c) its
    → All (Fits t c) (take n its)
take-All t c zero its h = tt
take-All t c (suc n) [] h = tt
take-All t c (suc n) (it ∷ its) h = (h.0, take-All t c n its h.1)

limited-All :
    (t : Table) (c : KeyCondition) (o : Option ℕ) (its : List Item)
    → All (Fits t c) its
    → All (Fits t c) (limited o its)
limited-All t c none its h = h
limited-All t c (some n) its h = take-All t c n its h

kept-All :
    (t : Table) (k : Key) (o : Option Item) (rest : List Item)
    → t k ≡ o
    → All (λ it. t (key_of it) ≡ some it) rest
    → All (λ it. t (key_of it) ≡ some it) (kept k o rest)
kept-All t k none rest h hs = hs
kept-All t k (some it) rest h hs = elim (Bool-cases (key_eq (key_of it) k)) [
  | inl e ↦ rw e (at-key_of t k it h e, hs)
  | inr e ↦ rw e hs
]

gather-All : (ks : List Key) (t : Table) → All (λ it. t (key_of it) ≡ some it) (gather ks t)
gather-All [] t = tt
gather-All (k ∷ ks) t = kept-All t k (t k) (gather ks t) refl (gather-All ks t)

-- No part refuses: all are permitted. A refusal is at the index that is reported.
first_refused-none :
    (ws : List TransactItem) (t : Table) (i : ℕ)
    → first_refused ws t i ≡ none
    → All (λ w. permits w t ≡ true) ws
first_refused-none [] t i h = tt
first_refused-none (w ∷ ws) t i h = elim (Bool-cases (permits w t)) [
  | inl e ↦ (e, first_refused-none ws t (suc i) (rw e at h))
  | inr e ↦ cc (e, h)
]

first_refused-some :
    (ws : List TransactItem) (t : Table) (i j : ℕ)
    → first_refused ws t i ≡ some j
    → (n : ℕ) × (j ≡ i + n) × (refuses_at ws n t ≡ true)
first_refused-some [] t i j h = cc
first_refused-some (w ∷ ws) t i j h = elim (Bool-cases (permits w t)) [
  | inl e ↦
      let (n, same, at) = first_refused-some ws t (suc i) j (rw e at h) in (suc n, omega arith, at)
  | inr e ↦ (zero, ground arith, ground arith)
]

transacted-ok :
    (ws : List TransactItem) (o : Option ℕ) (m : Memory)
    → first_refused ws m.at 0 ≡ o
    → (transacted ws o m).0 ≡ ok tt
    → All (λ w. permits w m.at ≡ true) ws
      × ((j : Key) → (transacted ws o m).1.at j ≡ all_written ws m.at j)
transacted-ok ws none m e h = (first_refused-none ws m.at 0 e, λ j. refl)
transacted-ok ws (some i) m e h = cc

transacted-refused :
    (ws : List TransactItem) (o : Option ℕ) (m : Memory) (i : ℕ)
    → first_refused ws m.at 0 ≡ o
    → (transacted ws o m).0 ≡ err (condition_failure i)
    → (refuses_at ws i m.at ≡ true) × ((j : Key) → (transacted ws o m).1.at j ≡ m.at j)
transacted-refused ws none m i e h = cc
transacted-refused ws (some k) m i e h =
    let (n, same, at) = first_refused-some ws m.at 0 k e in
    let k_is : k ≡ i = cc in let n_is : n ≡ i = omega arith in (rw n_is at at, λ j. refl)

updated-ok :
    (r : UpdateRequest) (b : Bool) (o : Option Item) (m : Memory) (it : Item)
    → (updated r b o m).0 ≡ ok it
    → (b ≡ true)
      × (o ≡ some it)
      × ((j : Key) → (updated r b o m).1.at j ≡ with_item r.key (some it) m.at j)
updated-ok r false o m it h = cc
updated-ok r true none m it h = cc
updated-ok r true (some jt) m it h =
    let e : jt ≡ it = cc in (refl, ap some e, λ j. ap (λ x. with_item r.key (some x) m.at j) e)

updated-refused :
    (r : UpdateRequest) (b : Bool) (o : Option Item) (m : Memory)
    → (updated r b o m).0 ≡ err conditional_check_failed
    → (b ≡ false) × ((j : Key) → (updated r b o m).1.at j ≡ m.at j)
updated-refused r false o m h = (refl, λ j. refl)
updated-refused r true none m h = cc
updated-refused r true (some jt) m h = cc

read-err : (o : Option Item) (e : Err) → read o ≡ err e → from_client e ≡ true
read-err none e h = ground arith
read-err (some it) e h = cc

transacted-err :
    (ws : List TransactItem) (o : Option ℕ) (m : Memory) (e : Err)
    → (transacted ws o m).0 ≡ err e
    → from_client e ≡ true
transacted-err ws none m e h = cc
transacted-err ws (some i) m e h = ground arith

updated-err :
    (r : UpdateRequest) (b : Bool) (o : Option Item) (m : Memory) (e : Err)
    → (updated r b o m).0 ≡ err e
    → from_client e ≡ true
updated-err r false o m e h = ground arith
updated-err r true none m e h = ground arith
updated-err r true (some it) m e h = cc

pub memory-Lawful : Lawful memory
memory-Lawful = record {
  build_key_lem = λ pk sk. refl;
  get_keeps = λ k m j. refl;
  get_ok = λ k m it h. ground arith;
  get_missing = λ k m h. ground arith;
  get_err = λ k m e h. read-err (m.at k) e h;
  update_err = λ r m e h. updated-err r (holds r (m.at r.key)) (new_item r (m.at r.key)) m e h;
  transact_err = λ ws m e h. transacted-err ws (first_refused ws m.at 0) m e h;
  write_ok = λ it c m h. elim (Bool-cases (allows c (m.at (key_of it)))) [
    | inl e ↦ (e, λ j. rw e refl)
    | inr e ↦ cc (rw e at h)
  ];
  write_refused = λ it c m h. elim (Bool-cases (allows c (m.at (key_of it)))) [
    | inl e ↦ cc (rw e at h)
    | inr e ↦ (e, λ j. rw e refl)
  ];
  update_ok = λ r m it h. updated-ok r (holds r (m.at r.key)) (new_item r (m.at r.key)) m it h;
  update_refused = λ r m h. updated-refused r (holds r (m.at r.key)) (new_item r (m.at r.key)) m h;
  delete_ok = λ k m h j. refl;
  query_keeps = λ q m j. refl;
  query_all_keeps = λ q m j. refl;
  query_ok = λ q m its h.
      subst (All (Fits m.at q.key_condition)) (cc)
        (limited-All m.at q.key_condition q.limit _ (scan-All m.keys m.at q.key_condition));
  query_all_ok = λ q m its h.
      subst (All (Fits m.at q.key_condition)) (cc) (scan-All m.keys m.at q.key_condition);
  batch_keeps = λ ks m j. refl;
  batch_ok = λ ks m its h. subst (All (λ it. m.at (key_of it) ≡ some it)) (cc) (gather-All ks m.at);
  transact_ok = λ ws m h. transacted-ok ws (first_refused ws m.at 0) m refl h;
  transact_refused = λ ws m i h. transacted-refused ws (first_refused ws m.at 0) m i refl h;
}
