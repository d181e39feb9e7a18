-- ===== src/Models.antt =====
-- internal/models/models.gen.go and internal/models/enums.go: the types of the HTTP API.
-- A pointer is an `Option`, an enumeration of texts is a text, an instant is its nanoseconds with 0
-- for Go's zero time.
pub mod Enums
pub mod Agreement
use komodo_accounts_api.Prelude.{ℕ, String, Bool, ◌||◌, ◌==◌, Option, List}
use komodo_accounts_api.Prelude.Int.{ℤ}

pub record Account : Type 0 where
  pub account_id : String
  pub avatar_url : Option String
  pub email : String
  pub first_name : String
  pub last_name : String
  pub phone : Option String
  pub username : String

pub record AccountSettings : Type 0 where
  pub email_verified : Option Bool
  pub email_verified_at : Option ℕ
  pub phone_verified : Option Bool
  pub phone_verified_at : Option ℕ
  pub status : String
  pub status_changed_at : Option ℕ
  pub status_reason : Option String
  pub tags : Option (List String)
  pub version : ℤ

pub record Address : Type 0 where
  pub address_id : String
  pub alias : Option String
  pub city : String
  pub country : String
  pub is_default : Bool
  pub line1 : String
  pub line2 : Option String
  pub state : String
  pub zip_code : String

pub record AvatarUploadRequest : Type 0 where
  pub content_length : ℤ
  pub content_type : String

pub record AvatarUploadResponse : Type 0 where
  pub expires_in_seconds : ℕ
  pub max_bytes : ℤ
  pub upload_url : String

pub record ConsentLog : Type 0 where
  pub action : String
  pub channel : String
  pub ip_address : Option String
  pub recorded_at : ℕ
  pub source : String
  pub source_ref : Option String
  pub user_agent : Option String

pub record CreateAccountRequest : Type 0 where
  pub avatar_url : Option String
  pub email : String
  pub first_name : String
  pub last_name : String
  pub phone : Option String
  pub username : String

pub record CredentialsResponse : Type 0 where
  pub account_id : String
  pub auth_methods : List String
  pub email_verified : Bool
  pub password_hash : Option String
  pub status : String

pub record DeleteProfileRequest : Type 0 where
  pub confirm_email : String

pub record ExportProfileResponse : Type 0 where
  pub download_url : Option String
  pub expires_at : Option ℕ
  pub export_id : Option String

pub record MintUnsubscribeTokenRequest : Type 0 where
  pub channel : String

pub record MintUnsubscribeTokenResponse : Type 0 where
  pub token : Option String

pub record PasskeyCredential : Type 0 where
  pub aaguid : Option String
  pub backup_eligible : Bool
  pub backup_state : Bool
  pub created_at : ℕ
  pub credential_id : String
  pub last_used_at : Option ℕ
  pub public_key : String
  pub sign_count : ℤ
  pub transports : Option (List String)

pub record PaymentMethod : Type 0 where
  pub brand : String
  pub expiry_month : ℤ
  pub expiry_year : ℤ
  pub is_default : Bool
  pub last4 : String
  pub payment_id : String
  pub provider : String

pub record Preferences : Type 0 where
  pub communication : Option (List (String × Bool))
  pub language : Option String
  pub timezone : Option String

pub record UnsubscribeRequest : Type 0 where
  pub token : String

pub record UpdateAccountRequest : Type 0 where
  pub avatar_url : Option String
  pub first_name : Option String
  pub last_name : Option String
  pub phone : Option String

pub record UpdateAddressRequest : Type 0 where
  pub alias : Option String
  pub city : Option String
  pub country : Option String
  pub is_default : Option Bool
  pub line1 : Option String
  pub line2 : Option String
  pub state : Option String
  pub zip_code : Option String

pub record UpdateCredentialsRequest : Type 0 where
  pub auth_methods : Option (List String)
  pub password_hash : Option String

pub record UpdateSettingsRequest : Type 0 where
  pub email_verified : Option Bool
  pub email_verified_at : Option ℕ
  pub phone_verified : Option Bool
  pub phone_verified_at : Option ℕ
  pub status : Option String
  pub status_changed_at : Option ℕ
  pub status_reason : Option String
  pub tags : Option (List String)
  pub version : Option ℤ

pub record UpdateSettingsTagsRequest : Type 0 where
  pub add : Option (List String)
  pub remove : Option (List String)
  pub version : Option ℤ

-- internal/models/export.go
pub record PasskeyExport : Type 0 where
  pub credential_id : String
  pub sign_count : ℤ
  pub transports : List String
  pub aaguid : String
  pub backup_eligible : Bool
  pub backup_state : Bool
  pub created_at : ℕ
  pub last_used_at : Option ℕ

pub record ProfileExport : Type 0 where
  pub profile : Account
  pub settings : Option AccountSettings
  pub preferences : Option Preferences
  pub addresses : List Address
  pub payments : List PaymentMethod
  pub consent_history : List ConsentLog
  pub passkeys : List PasskeyExport

-- `ValidCommunicationChannels[channel]`
unfoldable pub valid_communication_channels : String → Bool
valid_communication_channels c = c == "email" || (c == "sms" || (c == "push" || c == "postal"))
