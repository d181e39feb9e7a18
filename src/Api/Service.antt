-- ===== src/Api/Service.antt =====
-- internal/api/service.go: the service, its defaults, and what its operations act on. The object
-- store and the building and publishing of events are the SDK's: parameters.
use komodo_accounts_api.Prelude.Int.{ℤ}
use komodo_accounts_api.Clients.Events.{NewInput}
use komodo_accounts_api.Models.{ProfileExport, CredentialsResponse, Account}
use komodo_accounts_api.Dynamo.{DynamoDb}
use komodo_accounts_api.TtlCache.{new, TtlCache}
use komodo_accounts_api.Prelude.{◌*◌, List, eqb, if◌then◌else◌, Option, ℕ, String, Bool}
use komodo_accounts_api.Exec.{Exec}

-- Durations are in nanoseconds.
abbrev pub second : ℕ
second = 1_000_000_000

pub record ObjectStore : Type 1 where
  pub State : Type 0
  -- what a bucket holds under a key
  pub object : State → (bucket key : String) → Option ProfileExport
  pub put_object : (bucket key : String) → ProfileExport → Exec State (Unit {0})
  pub list_objects : (bucket prefix : String) → Exec State (List String)
  pub delete_objects : (bucket : String) → List String → Exec State (Unit {0})
  pub delete_object : (bucket key : String) → Exec State (Unit {0})
  pub presign_get : (bucket key : String) → (ttl : ℕ) → Exec State String
  pub presign_put :
      (bucket key : String) → (ttl : ℕ) → (content_type : String) → ℤ → Exec State String

-- A duration or a size that is not positive is 0 here; an empty key is `""`.
pub record ServiceExtraConfig : Type 0 where
  pub has_s3 : Bool
  pub export_bucket : String
  pub unsubscribe_key : String
  pub avatar_bucket : String
  pub presign_ttl : ℕ
  pub unsub_token_ttl : ℕ
  pub cache_ttl : ℕ
  pub cache_max_size : ℕ
  pub has_publisher : Bool

-- The fields of the service that do not change.
pub record Service : Type 0 where
  pub has_s3 : Bool
  pub export_bucket : String
  pub unsubscribe_key : String
  pub avatar_bucket : String
  pub presign_ttl : ℕ
  pub unsub_token_ttl : ℕ
  pub cache_ttl : ℕ
  pub has_publisher : Bool

abbrev pub positive_or : (default value : ℕ) → ℕ
positive_or default value = if eqb value 0 then default else value

pub record World (d : DynamoDb) (o : ObjectStore) : Type 0 where
  pub table : d.State
  pub objects : o.State
  pub profile_cache : TtlCache Account
  pub credentials_cache : TtlCache CredentialsResponse
  pub events : List NewInput

-- The service, and its two caches, empty and of one size.
unfoldable pub new_service :
    ServiceExtraConfig → Service × TtlCache Account × TtlCache CredentialsResponse
new_service cfg =
    let cache_max_size = positive_or 100_000 cfg.cache_max_size in
    (
      record {
        has_s3 = cfg.has_s3;
        export_bucket = cfg.export_bucket;
        unsubscribe_key = cfg.unsubscribe_key;
        avatar_bucket = cfg.avatar_bucket;
        presign_ttl = positive_or (15 * 60 * second) cfg.presign_ttl;
        unsub_token_ttl = positive_or (30 * 24 * 3600 * second) cfg.unsub_token_ttl;
        cache_ttl = positive_or (60 * second) cfg.cache_ttl;
        has_publisher = cfg.has_publisher;
      },
      new cache_max_size,
      new cache_max_size,
    )

module _ {d : DynamoDb} {o : ObjectStore} {A : Type 0} where
  abbrev pub on_table : Exec d.State A → Exec (World d o) A
  on_table m w = let p = m w.table in (p.0, record w { table = p.1 })

  abbrev pub on_objects : Exec o.State A → Exec (World d o) A
  on_objects m w = let p = m w.objects in (p.0, record w { objects = p.1 })
