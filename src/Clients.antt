-- ===== src/Clients.antt =====
-- internal/clients/auth.go. The HTTP client itself is the SDK's: what is modelled is the configuration
-- that it is given.
pub mod Events
use komodo_accounts_api.Errors.{other}
use komodo_accounts_api.Prelude.{◌++ₛ◌, if◌then◌else◌, trim_right_slashes, String, ◌==◌}
use komodo_accounts_api.Exec.{ok, err, Result}

pub record Config : Type 0 where
  pub auth_api_base_url : String
  pub events_api_base_url : String
  pub client_id : String
  pub client_secret : String
  pub scope : String

-- `sdkhttp.BearerTokenServiceConfig`
pub record BearerTokenServiceConfig : Type 0 where
  pub token_url : String
  pub client_id : String
  pub client_secret : String
  pub scope : String

abbrev pub default_scope : String
default_scope = "svc:accounts-api"

unfoldable pub new_authenticated_client : Config → Result BearerTokenServiceConfig
unfolding trim_right_slashes
new_authenticated_client cfg =
    if cfg.auth_api_base_url == ""
    then err other
    else if cfg.client_id == ""
    then err other
    else if cfg.client_secret == ""
    then err other
    else ok (record {
      token_url = trim_right_slashes cfg.auth_api_base_url ++ₛ "/v1/oauth/token";
      client_id = cfg.client_id;
      client_secret = cfg.client_secret;
      scope = if cfg.scope == "" then default_scope else cfg.scope;
    })
