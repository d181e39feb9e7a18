-- ===== src/Exec.antt =====
-- Fallible code over a state. What was written before an error stays written, so the state comes
-- back beside the error too.
use komodo_accounts_api.Prelude.{ap, ◌≡◌, refl, ◌⊎◌, inl, inr}
use komodo_accounts_api.Errors.{Err}

pub data Result {ℓ} (A : Type ℓ) : Type ℓ where
  ok : A → Result A
  err : Err → Result A

abbrev pub Exec : Type 0 → Type 0 → Type 0
Exec S A = S → Result A × S

module _ {A : Type 0} where
  abbrev replaced : (Err → Err) → Result A → Result A
  replaced h (ok a) = ok a
  replaced h (err e) = err (h e)

  pub Result-cases : (r : Result A) → ((a : A) × (r ≡ ok a)) ⊎ ((e : Err) × (r ≡ err e))
  Result-cases (ok a) = inl (a, refl)
  Result-cases (err e) = inr (e, refl)

module _ {S A : Type 0} where
  abbrev pub pure : A → Exec S A
  pure a s = (ok a, s)

  abbrev pub raise : Err → Exec S A
  raise e s = (err e, s)

  abbrev pub lift : Result A → Exec S A
  lift r s = (r, s)

  -- `if err != nil { return h(err) }`
  abbrev pub rethrow : (Err → Err) → Exec S A → Exec S A
  rethrow h m s = (replaced h (m s).0, (m s).1)

  -- `x, err := m()`, where the code goes on with the error in hand
  abbrev pub attempt : Exec S A → Exec S (Result A)
  attempt m s = (ok (m s).0, (m s).1)

module _ {S A B : Type 0} where
  abbrev pub continue : (A → Exec S B) → Result A → S → Result B × S
  continue f (ok a) s = f a s
  continue f (err e) s = (err e, s)

  infixl 5 ◌>>=◌ ◌>>◌
  abbrev pub ◌>>=◌ : Exec S A → (A → Exec S B) → Exec S B
  ◌>>=◌ m f s = continue f (m s).0 (m s).1

  abbrev pub ◌>>◌ : Exec S A → Exec S B → Exec S B
  m >> n = m >>= λ _. n

module _ {S A B : Type 0} where
  -- Inversion of a block that succeeds: its first step succeeds, and the rest is the whole.
  pub bind-ok :
      (m : Exec S A) (f : A → Exec S B) (s : S) (b : B)
      → ((m >>= f) s).0 ≡ ok b
      → (a : A) × ((m s).0 ≡ ok a) × ((f a (m s).1).0 ≡ ok b) × ((m >>= f) s ≡ f a (m s).1)
  bind-ok m f s b h = go (m s).0 refl h
    where
      go :
          (r : Result A)
          → (m s).0 ≡ r
          → (continue f r (m s).1).0 ≡ ok b
          → (a : A) × ((m s).0 ≡ ok a) × ((f a (m s).1).0 ≡ ok b) × ((m >>= f) s ≡ f a (m s).1)
      go (ok a) e k = (a, e, k, ap (λ r. continue f r (m s).1) e)
      go (err x) e k = cc

module _ {A : Type 0} where
  pub replaced-ok : (h : Err → Err) (r : Result A) (a : A) → replaced h r ≡ ok a → r ≡ ok a
  replaced-ok h (ok b) a e = e
  replaced-ok h (err x) a e = cc

  pub replaced-err :
      (h : Err → Err) (r : Result A) (e : Err)
      → replaced h r ≡ err e
      → (x : Err) × (r ≡ err x) × (h x ≡ e)
  replaced-err h (ok b) e p = cc
  replaced-err h (err x) e p = (x, refl, cc)
