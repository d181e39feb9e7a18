-- ===== src/Errors.antt =====
-- Go's errors: the sentinels of internal/db/account.go, internal/api/errors.go and the store's client.
-- Every wrap in the program is `fmt.Errorf("…: %w", err)` around one cause, so an error is modelled
-- by the cause at the end of its chain; the messages are left out.
use komodo_accounts_api.Prelude.{refl, ◌≡◌, false, true, ℕ, Bool, eqb}

pub data Err : Type 0 where
  -- the store's client: a failed condition, the transaction item whose condition failed
  conditional_check_failed : Err
  condition_failure : ℕ → Err
  -- internal/db
  repo_not_found repo_already_exists repo_email_already_exists : Err
  repo_passkey_already_exists repo_sign_count_regression repo_version_conflict : Err
  unreadable_profile_email : Err
  -- internal/api
  not_found already_exists email_already_exists passkey_already_exists : Err
  sign_count_regression forbidden_namespace invalid_unsubscribe_token : Err
  invalid_unsubscribe_channel invalid_input invalid_communication_channel version_conflict : Err
  -- an error that no caller looks for
  other : Err

abbrev tag : Err → ℕ
tag conditional_check_failed = 0
tag (condition_failure i) = 1
tag repo_not_found = 2
tag repo_already_exists = 3
tag repo_email_already_exists = 4
tag repo_passkey_already_exists = 5
tag repo_sign_count_regression = 6
tag repo_version_conflict = 7
tag unreadable_profile_email = 8
tag not_found = 9
tag already_exists = 10
tag email_already_exists = 11
tag passkey_already_exists = 12
tag sign_count_regression = 13
tag forbidden_namespace = 14
tag invalid_unsubscribe_token = 15
tag invalid_unsubscribe_channel = 16
tag invalid_input = 17
tag invalid_communication_channel = 18
tag version_conflict = 19
tag other = 20

-- `errors.Is`, and `errors.As` for the store's errors.
abbrev pub is : Err → Err → Bool
is e target = eqb (tag e) (tag target)

-- `isNotFound` of internal/api/service.go, on an error that is not nil.
abbrev pub is_not_found : Err → Bool
is_not_found e = is e repo_not_found

-- The errors that the store's client returns: it does not know the sentinels of this program.
abbrev pub from_client : Err → Bool
from_client conditional_check_failed = true
from_client (condition_failure i) = true
from_client repo_not_found = true
from_client other = true
from_client _ = false

pub is_conditional : (e : Err) → is e conditional_check_failed ≡ true → e ≡ conditional_check_failed
is_conditional conditional_check_failed h = refl
is_conditional _ h = cc
