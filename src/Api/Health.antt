-- ===== src/Api/Health.antt =====
-- internal/api/health.go, and the flag of cmd/server/setup.go that runs it. The HTTP client is a
-- parameter: the status of the answer to a request, if there is one.
pub mod Probes
use komodo_accounts_api.Prelude.{
  ◌∷◌, ◌++ₛ◌, leb, trim_space, eqb, ◌||◌, not, trim_prefix, ltb, ◌==◌,
}
use komodo_accounts_api.Prelude.{
  ◌∷◌, ℕ, String, List, Bool, true, false, Option, none, some, if◌then◌else◌,
}

abbrev pub health_url : (port : String) → String
health_url port = "http://localhost:" ++ₛ (port ++ₛ "/health")

-- The port of an address that may begin with a colon.
unfoldable pub port_of : (addr : String) → String
unfolding trim_prefix trim_space
port_of addr = trim_prefix (trim_space addr) ":"

module _ (get_status : String → Option ℕ) where
  abbrev exit_code : Option ℕ → ℕ
  exit_code none = 1
  exit_code (some status) = if ltb status 200 || leb 300 status then 1 else 0

  unfoldable pub health_probe : (addr : String) → ℕ
  unfolding port_of
  health_probe addr =
      let port = port_of addr in if port == "" then 1 else exit_code (get_status (health_url port))

  abbrev probe_both : (first : ℕ) (private_addr : String) → ℕ
  probe_both first private_addr = if not (eqb first 0) then first else health_probe private_addr

  -- The exit code, and whether this is a health check.
  unfoldable pub health_check_mode :
      (args : List String) (public_addr private_addr : String) → ℕ × Bool
  unfolding health_probe
  health_check_mode (program ∷ flag ∷ args) public_addr private_addr =
      if not (flag == "-healthcheck")
      then (0, false)
      else (probe_both (health_probe public_addr) private_addr, true)
  health_check_mode _ public_addr private_addr = (0, false)
