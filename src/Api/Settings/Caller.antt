-- ===== src/Api/Settings/Caller.antt =====
-- Which service the scopes of a caller name (callerServiceFromScopes of internal/api/settings.go).
use text.Mathlib.TextEquality.{starts_with_iff}
use komodo_accounts_api.Prelude.{
  ◌∙◌, if◌then◌else◌, ap, inr, inl, Bool-cases, trim_prefix, subst, has_prefix-prefixed,
  trim_prefix-prefixed, false, has_prefix, prefixed, refl, ◌≡◌, String, List, [], ◌∷◌,
}
use komodo_accounts_api.Api.Settings.{trim_prefix, caller_service_from_scopes}

-- The name behind `svc:` in the first scope that has that prefix; `""` if no scope has it.
pub data Caller : List String → String → Type 0 where
  nobody : Caller [] ""
  first : (name : String) (scopes : List String) → Caller (prefixed "svc:" name ∷ scopes) name
  later :
      (scope name : String) (scopes : List String)
      → has_prefix scope "svc:" ≡ false
      → Caller scopes name
      → Caller (scope ∷ scopes) name

pub caller_service_from_scopes_lem :
    (scopes : List String) (name : String)
    → Caller scopes name
    → caller_service_from_scopes scopes ≡ name
unfolding caller_service_from_scopes trim_prefix
caller_service_from_scopes_lem _ _ Caller.nobody = refl
caller_service_from_scopes_lem _ _ (Caller.first name scopes) =
    ap
      (λ found.
        if found
        then trim_prefix (prefixed "svc:" name) "svc:"
        else caller_service_from_scopes scopes)
      (has_prefix-prefixed "svc:" name)
    ∙ trim_prefix-prefixed "svc:" name
caller_service_from_scopes_lem _ _ (Caller.later scope name scopes other rest) =
    rw other (caller_service_from_scopes_lem scopes name rest)

-- The scopes of every caller name a service, or none.
scopes-Caller : (scopes : List String) → (name : String) × Caller scopes name
scopes-Caller [] = ("", Caller.nobody)
scopes-Caller (scope ∷ scopes) = elim (Bool-cases (has_prefix scope "svc:")) [
  | inl service ↦
      let (name, whole) = (starts_with_iff scope "svc:").0 service in
      (name, subst (λ s. Caller (s ∷ scopes) name) whole (Caller.first name scopes))
  | inr other ↦
      let (name, rest) = scopes-Caller scopes in (name, Caller.later scope name scopes other rest)
]
