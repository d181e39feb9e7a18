-- ===== src/Api/Preferences/Channels.antt =====
-- Which channels the preferences may name (internal/api/preferences.go).
use komodo_accounts_api.Models.Agreement.{valid_communication_channels_lem}
use komodo_accounts_api.Errors.{invalid_communication_channel}
use komodo_accounts_api.Models.Enums.{consent_log_channel_valid}
use komodo_accounts_api.Models.{Preferences, valid_communication_channels}
use komodo_accounts_api.Dynamo.{DynamoDb}
use komodo_accounts_api.Api.Preferences.{
  invalid_communication_channel, valid_communication_channels, Preferences, all_known, DynamoDb,
  update_preferences,
}
use komodo_accounts_api.Prelude.{Bool-cases, arith, refl, [], ◌∷◌, ◌≡◌, inl, inr}
use komodo_accounts_api.Exec.{err}
use komodo_accounts_api.Prelude.{String, List, Bool, true, false, some}
use mathlib.Core.List.{Memᴰ}

all_known-mem :
    (entries : List (String × Bool)) (entry : String × Bool)
    → Memᴰ entry entries
    → all_known entries ≡ true
    → valid_communication_channels entry.0 ≡ true
all_known-mem [] entry m h = elim m [ ]
all_known-mem (e ∷ entries) entry (Memᴰ.head same) h = rw same (ground (arith, h))
all_known-mem (e ∷ entries) entry (Memᴰ.tail m) h =
    all_known-mem entries entry m (ground (arith, h))

-- An update that names a channel outside the generated enumeration, whatever else it holds, is
-- refused as an invalid channel, and nothing is read or written.
pub update_preferences-unknown_channel :
    (d : DynamoDb) (account_id : String) (req : Preferences) (entries : List (String × Bool))
    (entry : String × Bool) (s : d.State)
    → req.communication ≡ some entries
    → Memᴰ entry entries
    → consent_log_channel_valid entry.0 ≡ false
    → update_preferences d account_id req s ≡ (err invalid_communication_channel, s)
unfolding update_preferences
update_preferences-unknown_channel d account_id req entries entry s holds listed unknown =
    elim (Bool-cases (all_known entries)) [
      | inr foreign ↦ rw (holds, foreign) refl
      | inl known ↦ cc (
        all_known-mem entries entry listed known,
        valid_communication_channels_lem entry.0,
        unknown,
      )
    ]
