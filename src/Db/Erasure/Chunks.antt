-- ===== src/Db/Erasure/Chunks.antt =====
-- The loop of DeleteAccount over the chunks: what each pass sends, and what all of them leave.
use komodo_accounts_api.Dynamo.Items.{Key}
use komodo_accounts_api.Dynamo.Laws.{all_written, Lawful}
use komodo_accounts_api.Dynamo.{DynamoDb}
use komodo_accounts_api.Prelude.{
  true, Bool, length-drop, take-append-drop, ◌++◌, fun_ext, length-take-le, sym, leb→le, ap, take,
  leb, inr, inl, ◌∙◌, zero, arith, false, ltb, ◌-◌, ◌+◌, [], Bool-cases, ◌≡◌, min, length, drop,
  List, ℕ, refl, ◌≤◌,
}
use komodo_accounts_api.Exec.{bind-ok, ok}
use komodo_accounts_api.Db.Erasure.Complete.{
  sendable-append, sendable, cleared-cleared, all_written-deletes, take-deletes, drop-deletes,
  length-deletes, deletes, cleared,
}
use komodo_accounts_api.Db.Erasure.{
  true, Bool, take, false, suc, ◌∷◌, ltb, [], min, length, drop, List, ℕ, DynamoDb, delete_chunks,
}

module _ {A : Type 0} where
  drop-nil : (n : ℕ) → drop {A = A} n [] ≡ []
  drop-nil zero = refl
  drop-nil (suc n) = refl

  drop-drop : (m n : ℕ) (xs : List A) → drop n (drop m xs) ≡ drop (m + n) xs
  drop-drop zero n xs = ap (λ k. drop k xs) (omega arith)
  drop-drop (suc m) n [] = drop-nil n ∙ sym (drop-nil (suc m + n))
  drop-drop (suc m) n (x ∷ xs) =
      drop-drop m n xs
      ∙ ap (λ k. drop k (x ∷ xs)) (let e : suc (m + n) ≡ suc m + n = omega arith in e)

  drop-all : (n : ℕ) (xs : List A) → length xs ≤ n → drop n xs ≡ []
  drop-all zero [] h = refl
  drop-all zero (x ∷ xs) h = absurd (omega (arith, h))
  drop-all (suc n) [] h = refl
  drop-all (suc n) (x ∷ xs) h = drop-all n xs (omega (arith, h))

  length-take-ge : (n : ℕ) (xs : List A) → 1 ≤ n → 1 ≤ length xs → 1 ≤ length (take n xs)
  length-take-ge zero xs h k = absurd (omega (arith, h))
  length-take-ge (suc n) [] h k = k
  length-take-ge (suc n) (x ∷ xs) h k = omega arith

  -- What is left after a chunk is what the next pass starts from.
  chunk-rest :
      (start : ℕ) (xs : List A)
      → drop (min (start + 100) (length xs) - start) (drop start xs) ≡ drop (start + 100) xs
  chunk-rest start xs =
      drop-drop start (min (start + 100) (length xs) - start) xs
      ∙ (elim (Bool-cases (leb (start + 100) (length xs))) [
        | inl whole ↦ ap (λ n. drop n xs) (let w = leb→le _ _ whole in ground arith)
        | inr last ↦
            drop-all (start + (min (start + 100) (length xs) - start)) xs (ground arith)
            ∙ sym (drop-all (start + 100) xs (ground arith))
      ])

-- A part of a list of distinct keys is one.
chunk-sendable :
    (valid : Key → Bool) (n start : ℕ) (ks : List Key)
    → sendable valid ks ≡ true
    → sendable valid (take n (drop start ks)) ≡ true
chunk-sendable valid n start ks h =
    let whole = ap (sendable valid) (take-append-drop start ks) ∙ h in
    let (_, rest) = sendable-append valid (take start ks) (drop start ks) whole in
    let parts = ap (sendable valid) (take-append-drop n (drop start ks)) ∙ rest in
    (sendable-append valid (take n (drop start ks)) (drop n (drop start ks)) parts).0

-- A pass that starts before the end sends at least one deletion.
chunk-nonempty :
    (start : ℕ) (ks : List Key)
    → start + 1 ≤ length ks
    → 1 ≤ length (take (min (start + 100) (length (deletes ks)) - start) (drop start ks))
chunk-nonempty start ks h =
    let l = length-deletes ks in
    let left = length-drop start ks in
    length-take-ge (min (start + 100) (length (deletes ks)) - start) (drop start ks) (ground arith)
      (ground arith)

module _ (d : DynamoDb) where
  -- Enough fuel: if the client accepts every transaction of 1 to 100 deletions of distinct keys that are
  -- valid to it, then the loop over any number of distinct and valid keys ends without an error.
  pub delete_chunks-accepted :
      (valid : Key → Bool)
      (accepts : (ks : List Key) (s : d.State)
        → 1 ≤ length ks
        → length ks ≤ 100
        → sendable valid ks ≡ true
        → (d.transact_write (deletes ks) s).0 ≡ ok tt)
      (fuel start : ℕ) (ks : List Key) (s : d.State)
      → sendable valid ks ≡ true
      → length ks ≤ start + fuel
      → (delete_chunks d fuel start (deletes ks) s).0 ≡ ok tt
  unfolding delete_chunks
  delete_chunks-accepted valid accepts zero start ks s distinct h =
      let e : ltb start (length (deletes ks)) ≡ false = rw (length-deletes ks) (ground arith) in
      rw e refl
  delete_chunks-accepted valid accepts (suc fuel) start ks s distinct h =
      let n = min (start + 100) (length (deletes ks)) - start in
      let sent : take n (drop start (deletes ks)) ≡ deletes (take n (drop start ks)) =
        ap (take n) (drop-deletes start ks) ∙ take-deletes n (drop start ks) in
      let small : length (take n (drop start ks)) ≤ 100 =
        omega (arith, length-take-le n (drop start ks)) in
      elim (Bool-cases (ltb start (length (deletes ks)))) [
        | inl more ↦
            let some_left : start + 1 ≤ length ks = (let l = length-deletes ks in ground arith) in
            let ran =
              ap (λ ws. (d.transact_write ws s).0) sent
              ∙ accepts (take n (drop start ks)) s (chunk-nonempty start ks some_left) small
                  (chunk-sendable valid n start ks distinct) in
            rw (more, ran)
              (delete_chunks-accepted valid accepts fuel (start + 100) ks _ distinct
                (omega (arith, h)))
        | inr done ↦ rw done refl
      ]

  module _ (laws : Lawful d) where
    pub delete_chunks-clears :
        (fuel start : ℕ) (ks : List Key) (s : d.State)
        → (delete_chunks d fuel start (deletes ks) s).0 ≡ ok tt
        → (j : Key)
        → d.table (delete_chunks d fuel start (deletes ks) s).1 j
          ≡ cleared (drop start ks) (d.table s) j
    unfolding delete_chunks
    delete_chunks-clears zero start ks s h j = elim (Bool-cases (ltb start (length (deletes ks)))) [
      | inl more ↦ cc (rw more at h)
      | inr done ↦
          let over : length ks ≤ start = (let l = length-deletes ks in ground arith) in
          rw (done, drop-all start ks over) refl
    ]
    delete_chunks-clears (suc fuel) start ks s h j =
        elim (Bool-cases (ltb start (length (deletes ks)))) [
          | inr done ↦
              let over : length ks ≤ start = (let l = length-deletes ks in ground arith) in
              rw (done, drop-all start ks over) refl
          | inl more ↦
              let n = min (start + 100) (length (deletes ks)) - start in
              let sent : take n (drop start (deletes ks)) ≡ deletes (take n (drop start ks)) =
                ap (take n) (drop-deletes start ks) ∙ take-deletes n (drop start ks) in
              let (u, ran, later, state) =
                bind-ok (d.transact_write (take n (drop start (deletes ks))))
                  (λ _. delete_chunks d fuel (start + 100) (deletes ks)) s tt (rw more at h) in
              let (_, after) = laws.transact_ok (take n (drop start (deletes ks))) s ran in
              let s' = (d.transact_write (take n (drop start (deletes ks))) s).1 in
              let first : d.table s' ≡ cleared (take n (drop start ks)) (d.table s) = fun_ext (λ i.
                after i
                ∙ ap (λ ws. all_written ws (d.table s) i) sent
                ∙ all_written-deletes (take n (drop start ks)) (d.table s) i) in
              rw more (
                ap (λ p. d.table p.1 j) state
                ∙ delete_chunks-clears fuel (start + 100) ks s' later j
                ∙ ap (λ t. cleared (drop (start + 100) ks) t j) first
                ∙ cleared-cleared (take n (drop start ks)) (drop (start + 100) ks) (d.table s) j
                ∙ ap (λ js. cleared js (d.table s) j)
                    (ap (λ rest. take n (drop start ks) ++ rest)
                        (sym (
                          ap (λ l. drop (min (start + 100) l - start) (drop start ks))
                            (length-deletes ks)
                          ∙ chunk-rest start ks))
                      ∙ take-append-drop n (drop start ks)))
        ]
