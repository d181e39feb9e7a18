-- ===== src/Api/Health/Probes.antt =====
-- When the health check reports success (internal/api/health.go).
use komodo_accounts_api.Api.Health.{
  leb, ltb, eqb, health_url, health_probe, port_of, health_check_mode,
}
use komodo_accounts_api.Prelude.{
  leb, ◌||◌, arith, eq_iff, ltb, ap, if◌then◌else◌, eqb, Option-cases, Bool-cases, ◌==◌, ◌≡◌, ◌≢◌,
  ◌≤◌, ◌<◌, ℕ, String, true, inl, inr, Option, some, List, [], ◌∷◌,
}

-- The server behind an address answers with a status of success.
abbrev pub Healthy : (get_status : String → Option ℕ) (addr : String) → Type 0
Healthy get_status addr =
    (port_of addr ≢ "")
    × ((status : ℕ) × (get_status (health_url (port_of addr)) ≡ some status)
        × (200 ≤ status)
        × (status < 300))

module _ (get_status : String → Option ℕ) where
  health_probe-Healthy :
      (addr : String) → health_probe get_status addr ≡ 0 → Healthy get_status addr
  unfolding health_probe
  health_probe-Healthy addr h = elim (Bool-cases (port_of addr == "")) [
    | inl bare ↦ cc (rw bare at h)
    | inr named ↦ elim (Option-cases (get_status (health_url (port_of addr)))) [
      | inl silent ↦ cc (rw (named, silent) at h)
      | inr (status, answered) ↦
          let zero_code : (if ltb status 200 || leb 300 status then 1 else 0) ≡ 0 =
            rw (named, answered) at h in
          (
            λ empty. cc ((eq_iff (port_of addr) "").1 empty, named),
            (status, answered, ground (arith, zero_code), ground (arith, zero_code)),
          )
    ]
  ]

  -- The program reports success as a health check only if its first argument asks for one, and both
  -- the public and the private server answer with a status from 200 to 299.
  pub health_check_mode-Healthy :
      (args : List String) (public_addr private_addr : String)
      → health_check_mode get_status args public_addr private_addr ≡ (0, true)
      → ((program : String) × (rest : List String) × (args ≡ program ∷ "-healthcheck" ∷ rest))
        × Healthy get_status public_addr
        × Healthy get_status private_addr
  unfolding health_check_mode
  health_check_mode-Healthy [] public_addr private_addr h = cc
  health_check_mode-Healthy (program ∷ []) public_addr private_addr h = cc
  health_check_mode-Healthy (program ∷ flag ∷ rest) public_addr private_addr h =
      let first = health_probe get_status public_addr in
      elim (Bool-cases (flag == "-healthcheck")) [
        | inr other ↦ cc (rw other at h)
        | inl asked ↦ elim (Bool-cases (eqb first 0)) [
          | inr failed ↦
              let code : first ≡ 0 = ap (λ p. p.0) (rw (asked, failed) at h) in cc (code, failed)
          | inl up ↦
              let code : health_probe get_status private_addr ≡ 0 =
                ap (λ p. p.0) (rw (asked, up) at h) in
              (
                (
                  program,
                  rest,
                  ap (λ f. program ∷ f ∷ rest) ((eq_iff flag "-healthcheck").0 asked),
                ),
                health_probe-Healthy public_addr (ground (arith, up)),
                health_probe-Healthy private_addr code,
              )
        ]
      ]
