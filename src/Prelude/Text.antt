-- ===== src/Prelude/Text.antt =====
-- What the service uses of Go's `strings` package, over the native text.
-- Case folding and trimming act on ASCII letters and ASCII white space; other code points are kept, so
-- the long s (U+017F) and the Kelvin sign (U+212A) are not folded to s and k.
use Prim.Native.Nat.{ℕ, ◌+◌, ◌<◌, compare, Ordering}
use Prim.Native.Char.{Char, char, code, IsScalar}
use Prim.Native.String.{String, [], ◌∷◌, ◌++◌, len, slice}
use Prim.Native.String.append
use mathlib.Core.Path.{◌≡◌, refl, ap₂, ap, sym, ◌∙◌}
use mathlib.Core.Logic.{◌≢◌}
use mathlib.Core.Bool.{Bool, true, false, ◌&&◌, ◌||◌}
use mathlib.Core.Logic.{◌⊎◌, inl, inr}
use native.Mathlib.Omega.{arith}
use text.Mathlib.Text.{◌==◌, starts_with}
use text.Mathlib.TextEquality.{Char-path, eq_iff}
use text.Mathlib.TextLemmas.{append_cancel_left}
use text.Mathlib.TextPositions.{eq_refl, starts_with-append, slice-append_right, len-append}
use komodo_accounts_api.Prelude.Tests.{leb, eqb, ltb, if◌then◌else◌, Bool-cases}

abbrev is_upper : ℕ → Bool
is_upper n = leb 65 n && leb n 90

small-IsScalar : (n : ℕ) → n < 55296 → IsScalar n
small-IsScalar n h = let e : compare n 55296 ≡ Ordering.lt = ground arith in rw e tt

lower_shifted : (n : ℕ) → is_upper n ≡ true → Char
lower_shifted n h = char (n + 32) (small-IsScalar (n + 32) (ground arith))

lower_tested : (n : ℕ) → IsScalar n → (is_upper n ≡ true) ⊎ (is_upper n ≡ false) → Char
lower_tested n v (inl h) = lower_shifted n h
lower_tested n v (inr h) = char n v

-- `unicode.ToLower` on ASCII.
lower_char : Char → Char
lower_char (char n v) = lower_tested n v (Bool-cases (is_upper n))

abbrev lower_code : ℕ → ℕ
lower_code n = if is_upper n then n + 32 else n

code-lower_tested :
    (n : ℕ) (v : IsScalar n) (c : (is_upper n ≡ true) ⊎ (is_upper n ≡ false))
    → code (lower_tested n v c) ≡ lower_code n
unfolding lower_tested lower_shifted
code-lower_tested n v (inl h) = rw h
code-lower_tested n v (inr h) = rw h

code-lower_char : (c : Char) → code (lower_char c) ≡ lower_code (code c)
unfolding lower_char
code-lower_char (char n v) = code-lower_tested n v (Bool-cases (is_upper n))

lower_code_idem : (n : ℕ) → lower_code (lower_code n) ≡ lower_code n
lower_code_idem n = ground arith

lower_char_idem : (c : Char) → lower_char (lower_char c) ≡ lower_char c
lower_char_idem c =
    Char-path _ _
      (rw (code-lower_char (lower_char c), code-lower_char c) (lower_code_idem (code c)))

-- `strings.ToLower`
unfoldable pub to_lower : String → String
unfolding lower_char lower_tested lower_shifted Bool-cases small-IsScalar
to_lower [] = []
to_lower (c ∷ s) = lower_char c ∷ to_lower s

pub to_lower_idem : (s : String) → to_lower (to_lower s) ≡ to_lower s
unfolding to_lower
to_lower_idem [] = refl
to_lower_idem (c ∷ s) = ap₂ (λ d t. d ∷ t) (lower_char_idem c) (to_lower_idem s)

-- `strings.EqualFold`
unfoldable pub equal_fold : String → String → Bool
unfolding to_lower
equal_fold s t = to_lower s == to_lower t

pub to_lower-nil : (s : String) → to_lower s ≡ [] → s ≡ []
unfolding to_lower
to_lower-nil [] h = refl
to_lower-nil (c ∷ s) h = cc

pub equal_fold_sound : (s t : String) → equal_fold s t ≡ true → to_lower s ≡ to_lower t
unfolding equal_fold
equal_fold_sound s t h = (eq_iff _ _).0 h

is_space : ℕ → Bool
is_space n = eqb n 32 || leb 9 n && leb n 13

trim_left : String → String
trim_left [] = []
trim_left (c ∷ s) = if is_space (code c) then trim_left s else c ∷ s

abbrev keep_unless_blank : Char → String → String
keep_unless_blank c [] = if is_space (code c) then [] else c ∷ []
keep_unless_blank c (d ∷ s) = c ∷ d ∷ s

trim_right : String → String
trim_right [] = []
trim_right (c ∷ s) = keep_unless_blank c (trim_right s)

-- `strings.TrimSpace`
unfoldable pub trim_space : String → String
unfolding trim_left trim_right is_space
trim_space s = trim_right (trim_left s)

is_slash : ℕ → Bool
is_slash n = eqb n 47

abbrev keep_unless_slash : Char → String → String
keep_unless_slash c [] = if is_slash (code c) then [] else c ∷ []
keep_unless_slash c (d ∷ s) = c ∷ d ∷ s

-- `strings.TrimRight(s, "/")`
unfoldable pub trim_right_slashes : String → String
unfolding is_slash
trim_right_slashes [] = []
trim_right_slashes (c ∷ s) = keep_unless_slash c (trim_right_slashes s)

-- `strings.HasPrefix`
abbrev pub has_prefix : String → String → Bool
has_prefix s p = starts_with s p

-- `strings.TrimPrefix`
unfoldable pub trim_prefix : String → String → String
trim_prefix s p = if starts_with s p then slice s (len p) (len s) else s

-- `p + s`, where a constant comes before a value.
abbrev pub prefixed : String → String → String
prefixed p s = p ++ s

pub has_prefix-prefixed : (p s : String) → has_prefix (prefixed p s) p ≡ true
has_prefix-prefixed p s = starts_with-append p s

pub trim_prefix-prefixed : (p s : String) → trim_prefix (prefixed p s) p ≡ s
unfolding trim_prefix
trim_prefix-prefixed p s =
    rw (has_prefix-prefixed p s)
      (ap (λ k. slice (p ++ s) (len p) k) (len-append p s) ∙ slice-append_right p s)

pub prefixed_cancel : (p s t : String) → prefixed p s ≡ prefixed p t → s ≡ t
prefixed_cancel p s t h = append_cancel_left p s t h

pub eq-prefixed : (p s t : String) → (prefixed p s == prefixed p t) ≡ (s == t)
eq-prefixed p s t = elim (Bool-cases (s == t)) [
  | inl e ↦ rw e (rw ((eq_iff s t).0 e) (eq_refl (prefixed p t)))
  | inr e ↦ elim (Bool-cases (prefixed p s == prefixed p t)) [
    | inl f ↦ rw ((eq_iff s t).1 (prefixed_cancel p s t ((eq_iff _ _).0 f))) f
    | inr f ↦ rw e f
  ]
]

-- `s[:n]` on a text of more than n bytes, else the text.
unfoldable pub truncated : ℕ → String → String
truncated n s = if ltb n (len s) then slice s 0 n else s

lower_test : to_lower "Ada@Example.COM" ≡ "ada@example.com"
unfolding to_lower
lower_test = refl

trim_test : trim_space " a b\n" ≡ "a b"
unfolding trim_space
trim_test = refl

-- Every code point is in a class.
abbrev pub all_chars : (ℕ → Bool) → String → Bool
all_chars p [] = true
all_chars p (c ∷ s) = p (code c) && all_chars p s

abbrev pub text_length : String → ℕ
text_length s = len s

-- The first code point; 0 of the empty text.
abbrev first_code : String → ℕ
first_code [] = 0
first_code (c ∷ s) = code c

first_code-prefixed :
    (p s : String) → eqb (first_code p) 0 ≡ false → first_code (prefixed p s) ≡ first_code p
first_code-prefixed [] s h = cc
first_code-prefixed (c ∷ p) s h = ap first_code (λ i. append.cons c p s i)

-- Texts whose constant prefixes begin with different code points differ.
pub prefixed-apart :
    (p q s t : String)
    → eqb (first_code p) 0 ≡ false
    → eqb (first_code q) 0 ≡ false
    → eqb (first_code p) (first_code q) ≡ false
    → prefixed p s ≢ prefixed q t
prefixed-apart p q s t h k differ same =
    let first : first_code p ≡ first_code q =
      sym (first_code-prefixed p s h) ∙ ap first_code same ∙ first_code-prefixed q t k in
    ground (arith, first, differ)

pub prefixed-ne :
    (p s t : String)
    → eqb (first_code p) 0 ≡ false
    → eqb (first_code p) (first_code t) ≡ false
    → (prefixed p s == t) ≡ false
prefixed-ne p s t h differ = elim (Bool-cases (prefixed p s == t)) [
  | inr e ↦ e
  | inl e ↦
      let first : first_code p ≡ first_code t =
        sym (first_code-prefixed p s h) ∙ ap first_code ((eq_iff _ _).0 e) in
      ground (arith, first, differ)
]

abbrev rest_of : String → String
rest_of [] = []
rest_of (c ∷ s) = s

-- Texts that begin with one character differ if they differ after it.
pub prefixed-ne_cons :
    (c : Char) (p s t : String)
    → (prefixed p s == t) ≡ false
    → (prefixed (c ∷ p) s == c ∷ t) ≡ false
prefixed-ne_cons c p s t differ = elim (Bool-cases (prefixed (c ∷ p) s == c ∷ t)) [
  | inr e ↦ e
  | inl e ↦
      let whole : c ∷ prefixed p s ≡ c ∷ t =
        sym (λ i. append.cons c p s i) ∙ (eq_iff (prefixed (c ∷ p) s) (c ∷ t)).0 e in
      let same : (prefixed p s == t) ≡ true = (eq_iff (prefixed p s) t).1 (ap rest_of whole) in
      cc (same, differ)
]
