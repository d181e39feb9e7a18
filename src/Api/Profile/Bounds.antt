-- ===== src/Api/Profile/Bounds.antt =====
-- Which uploads of an avatar are allowed (internal/api/profile.go).
use komodo_accounts_api.Clients.Events.{NewInput}
use komodo_accounts_api.Api.Service.{World, Service, ObjectStore}
use komodo_accounts_api.Dynamo.{DynamoDb}
use komodo_accounts_api.Api.Profile.{
  World, Service, NewInput, ObjectStore, max_avatar_bytes, DynamoDb, valid_avatar_content_types,
  get_avatar_upload_url, size_refused,
}
use komodo_accounts_api.Models.Enums.{avatar_content_type_valid}
use komodo_accounts_api.Prelude.{◌∙◌, sym, Bool-cases, ◌*◌, arith, refl, ◌≡◌, inl, inr}
use komodo_accounts_api.Exec.{ok}
use komodo_accounts_api.Prelude.{ℕ, String, Bool, true, false}
use komodo_accounts_api.Prelude.{◌≤◌}
use komodo_accounts_api.Prelude.Int.{ℤ, pos}

-- The content types of the upload are those of the enumeration.
pub valid_avatar_content_types_lem :
    (t : String) → valid_avatar_content_types t ≡ avatar_content_type_valid t
unfolding avatar_content_type_valid
valid_avatar_content_types_lem t = ground arith

in_range :
    (n : ℤ) → size_refused n ≡ false → (m : ℕ) × (n ≡ pos m) × (1 ≤ m) × (m ≤ max_avatar_bytes)
in_range (pos m) h = (m, refl, ground arith, ground arith)
in_range _ h = cc

-- An upload address is given out only if there is an object store, for a content type of the
-- enumeration, and for a size from 1 byte to 2 MiB.
pub get_avatar_upload_url-bounds :
    (d : DynamoDb) (o : ObjectStore) (builds : NewInput → Bool) (svc : Service)
    (account_id content_type : String) (content_length : ℤ) (w : World d o) (url : String)
    → (get_avatar_upload_url d o builds svc account_id content_type content_length w).0 ≡ ok url
    → (svc.has_s3 ≡ true)
      × (avatar_content_type_valid content_type ≡ true)
      × ((m : ℕ) × (content_length ≡ pos m) × (1 ≤ m) × (m ≤ 2 * 1024 * 1024))
unfolding get_avatar_upload_url
get_avatar_upload_url-bounds d o builds svc account_id content_type content_length w url h =
    elim (Bool-cases svc.has_s3) [
      | inr bare ↦ cc (rw bare at h)
      | inl stored ↦ elim (Bool-cases (valid_avatar_content_types content_type)) [
        | inr unknown ↦ cc (rw (stored, unknown) at h)
        | inl known ↦ elim (Bool-cases (size_refused content_length)) [
          | inl outside ↦ cc (rw (stored, known, outside) at h)
          | inr within ↦ (
            stored,
            sym (valid_avatar_content_types_lem content_type) ∙ known,
            in_range content_length within,
          )
        ]
      ]
    ]
