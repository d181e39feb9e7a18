-- ===== src/Api/Profile.antt =====
-- internal/api/profile.go: the route handlers of the profile, and the avatar's upload.
pub mod Bounds
use komodo_accounts_api.Errors.{invalid_input, other}
use komodo_accounts_api.Models.{
  Account, CreateAccountRequest, AvatarUploadRequest, DeleteProfileRequest, UpdateAccountRequest,
  AvatarUploadResponse,
}
use komodo_accounts_api.Api.{
  status_created, global_not_implemented, status_ok, status_no_content, refuse, respond,
  invalid_input, with_body, global_unauthorized, requested_id, require, Reply, Request,
}
use komodo_accounts_api.Clients.Events.{NewInput}
use komodo_accounts_api.Api.Service.{on_objects, second, World, Service, ObjectStore}
use komodo_accounts_api.Dynamo.{DynamoDb}
use komodo_accounts_api.Prelude.{not, ◌/◌, ltb, ◌*◌, ◌||◌, leb, ◌==◌}
use komodo_accounts_api.Exec.{raise, Exec}
use komodo_accounts_api.Prelude.{ℕ, String, Bool, true, if◌then◌else◌}
use komodo_accounts_api.Api.Account.{
  update_profile, get_profile, service_create_account, delete_profile, avatar_key,
}
use komodo_accounts_api.Prelude.Int.{ℤ, pos}

abbrev pub max_avatar_bytes : ℕ
max_avatar_bytes = 2 * 1024 * 1024

abbrev pub valid_avatar_content_types : String → Bool
valid_avatar_content_types t = t == "image/jpeg" || (t == "image/png" || t == "image/webp")

-- `contentLength <= 0 || contentLength > maxAvatarBytes`
abbrev pub size_refused : ℤ → Bool
size_refused (pos n) = leb n 0 || ltb max_avatar_bytes n
size_refused _ = true

module _ (d : DynamoDb) (o : ObjectStore) (builds : NewInput → Bool) (svc : Service) where
  unfoldable pub get_avatar_upload_url :
      (account_id content_type : String) → ℤ → Exec (World d o) String
  get_avatar_upload_url account_id content_type content_length =
      if not svc.has_s3
      then raise other
      else if not (valid_avatar_content_types content_type)
      then raise invalid_input
      else if size_refused content_length
      then raise invalid_input
      else on_objects (
          o.presign_put svc.avatar_bucket (avatar_key account_id) svc.presign_ttl content_type
            content_length)

  unfoldable pub get_profile_handler :
      (now : ℕ) → Request (Unit {0}) → World d o → Reply Account × World d o
  get_profile_handler now req =
      require (requested_id req) global_unauthorized
        (respond status_ok (get_profile d o builds svc now (requested_id req)))

  unfoldable pub create_account_handler :
      (now : ℕ) → Request CreateAccountRequest → World d o → Reply Account × World d o
  create_account_handler now req = require req.user_id global_unauthorized (
      with_body req.body (λ input.
        respond status_created (service_create_account d o builds svc now req.user_id input)))

  unfoldable pub update_profile_handler :
      (now : ℕ) → Request UpdateAccountRequest → World d o → Reply Account × World d o
  update_profile_handler now req = require req.user_id global_unauthorized (
      with_body req.body
        (λ input. respond status_ok (update_profile d o builds svc now req.user_id input)))

  unfoldable pub delete_profile_handler :
      (now : ℕ) → Request DeleteProfileRequest → World d o → Reply (Unit {0}) × World d o
  delete_profile_handler now req = require req.user_id global_unauthorized (
      with_body req.body (λ input.
        respond (λ done. status_no_content)
          (delete_profile d o builds svc now req.user_id input.confirm_email)))

  unfoldable pub update_email_handler :
      Request (Unit {0}) → World d o → Reply (Unit {0}) × World d o
  update_email_handler req = require req.user_id global_unauthorized (refuse global_not_implemented)

  abbrev upload_response : String → AvatarUploadResponse
  upload_response url = record {
    expires_in_seconds = svc.presign_ttl / second;
    max_bytes = pos max_avatar_bytes;
    upload_url = url;
  }

  unfoldable pub avatar_upload_handler :
      Request AvatarUploadRequest → World d o → Reply AvatarUploadResponse × World d o
  avatar_upload_handler req = require req.user_id global_unauthorized (
      with_body req.body (λ input.
        respond (λ url. status_ok (upload_response url))
          (get_avatar_upload_url req.user_id input.content_type input.content_length)))

  unfoldable pub delete_avatar_handler :
      Request (Unit {0}) → World d o → Reply (Unit {0}) × World d o
  delete_avatar_handler req =
      require req.user_id global_unauthorized (refuse global_not_implemented)
