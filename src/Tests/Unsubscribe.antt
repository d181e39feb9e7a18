-- ===== src/Tests/Unsubscribe.antt =====
-- Tokens of unsubscription, with a small encoding and a small signature.
use komodo_accounts_api.Api.Unsubscribe.RoundTrip.{verify_and_record_unsubscribe-minted}
use komodo_accounts_api.Db.Consent.{append_consent_log, get_latest_consent}
use komodo_accounts_api.Dynamo.Memory.Keeps.{memory-Lawful}
use komodo_accounts_api.Api.Unsubscribe.Signed.{verify_and_record_unsubscribe-signed}
use komodo_accounts_api.Api.Unsubscribe.AppendOnly.{verify_and_record_unsubscribe-Grows}
use komodo_accounts_api.Db.Consent.AppendOnly.{Grows}
use komodo_accounts_api.Dynamo.Memory.{empty, stored, memory, Memory}
use komodo_accounts_api.Api.Service.{Service}
use komodo_accounts_api.Api.Unsubscribe.{
  record_unsubscribe, parse_unsub_token, minted_payload, unix, verify_and_record_unsubscribe,
  UnsubPayload, LawfulTokens, mint_unsubscribe_token, Tokens, signed_token,
}
use komodo_accounts_api.Models.{valid_communication_channels, CreateAccountRequest}
use Prim.Native.Char.{Char, char, code}
use Prim.Native.String.{◌∷◌ as ◌∷ₛ◌, [] as []ₛ}
use komodo_accounts_api.Prelude.{
  truncated, arith, ◌+◌, eqb, zero, eq_iff, length, suc, if◌then◌else◌, sym, ap, ◌==◌, refl, [],
  ◌∷◌, ◌++◌, ◌≡◌, ◌≢◌, ◌∙◌, ℕ, String, true, false, some, none, List, Option,
}
use komodo_accounts_api.Exec.{ok}
use komodo_accounts_api.Prelude.Int.{ℤ, pos, negsuc, ◌≤ℤ◌}
use komodo_accounts_api.Db.Account.{get_account, marshal, profile_record}

abbrev chars : String → List Char
chars []ₛ = []
chars (c ∷ₛ s) = c ∷ chars s

abbrev text : List Char → String
text [] = []ₛ
text (c ∷ cs) = c ∷ₛ text cs

chars-text : (cs : List Char) → chars (text cs) ≡ cs
chars-text [] = refl
chars-text (c ∷ cs) = ap (λ ds. c ∷ ds) (chars-text cs)

abbrev bar : Char
bar = char 124 tt

abbrev copies : ℕ → Char → List Char
copies zero c = []
copies (suc n) c = c ∷ copies n c

length-copies : (n : ℕ) (c : Char) → length (copies n c) ≡ n
length-copies zero c = refl
length-copies (suc n) c = ap suc (length-copies n c)

abbrev numeral : ℤ → List Char
numeral (pos n) = copies n bar
numeral (negsuc n) = []

-- The characters before the first bar, and those after it.
abbrev cut : List Char → List Char × List Char
cut [] = ([], [])
cut (c ∷ cs) = let rest = cut cs in if eqb (code c) 124 then ([], cs) else (c ∷ rest.0, rest.1)

abbrev written : UnsubPayload → List Char
written p =
    chars p.account_id ++ bar ∷ (chars p.channel ++ bar ∷ (chars p.jti ++ bar ∷ numeral p.exp))

abbrev read : List Char → Option UnsubPayload
read cs =
    let account = cut cs in
    let channel = cut account.1 in
    let jti = cut channel.1 in
    some (record {
      account_id = text account.0;
      channel = text channel.0;
      exp = pos (length jti.1);
      jti = text jti.0;
    })

abbrev first_or_bar : List Char → Char
first_or_bar [] = bar
first_or_bar (c ∷ cs) = c

abbrev plain : Tokens
plain = record {
  Byte = Char;
  marshal_payload = written;
  unmarshal_payload = read;
  encode_to_string = text;
  decode_string = λ s. some (chars s);
  mac_sum = λ key cs. copies 32 (first_or_bar cs);
  mac_equal = λ cs bs. text cs == text bs;
}

text-injective : (cs bs : List Char) → text cs ≡ text bs → cs ≡ bs
text-injective cs bs h = sym (chars-text cs) ∙ ap chars h ∙ chars-text bs

plain-LawfulTokens : LawfulTokens plain
plain-LawfulTokens = record {
  decode-encode = λ bytes. ap (λ cs. some cs) (chars-text bytes);
  mac_length = λ key bytes. length-copies 32 (first_or_bar bytes);
  mac_equal_iff = λ cs bs. (
    λ h. text-injective cs bs ((eq_iff (text cs) (text bs)).0 h),
    λ h. (eq_iff (text cs) (text bs)).1 (ap text h),
  );
}

abbrev mailer : Service
mailer = record {
  has_s3 = false;
  export_bucket = "exports";
  unsubscribe_key = "k";
  avatar_bucket = "avatars";
  presign_ttl = 900;
  unsub_token_ttl = 2_000_000_000;
  cache_ttl = 60;
  has_publisher = false;
}

abbrev stamp : ℕ → String
stamp at = "now"

-- the start of the year 1970
abbrev epoch : ℕ
epoch = 62_135_596_800_000_000_000

abbrev grace : CreateAccountRequest
grace = record {
  avatar_url = none;
  email = "grace@example.com";
  first_name = "Grace";
  last_name = "Hopper";
  phone = none;
  username = "grace";
}

abbrev with_grace : Memory
with_grace = stored (marshal (profile_record 5 "g1" "grace@example.com" grace)) empty

abbrev link : String
link = signed_token plain "k" (minted_payload memory stamp plain mailer epoch "j1" "g1" "email")

link-ok :
    (mint_unsubscribe_token memory stamp plain mailer epoch "j1" "g1" "email" with_grace).0
    ≡ ok link
unfolding mint_unsubscribe_token valid_communication_channels get_account
link-ok = refl

verify_and_record_unsubscribe-minted_example :
    verify_and_record_unsubscribe memory stamp plain mailer
      (epoch + 1_000_000_000)
      link
      "ip"
      "ua"
      with_grace
    ≡ record_unsubscribe memory stamp
        (epoch + 1_000_000_000)
        "ip"
        "ua"
        (minted_payload memory stamp plain mailer epoch "j1" "g1" "email")
        with_grace
verify_and_record_unsubscribe-minted_example =
    verify_and_record_unsubscribe-minted memory stamp plain plain-LawfulTokens mailer epoch "j1"
      "g1" "email" link with_grace link-ok refl (λ h. cc) (omega arith) (epoch + 1_000_000_000) "ip"
      "ua" with_grace (omega arith)

followed-ok :
    (verify_and_record_unsubscribe memory stamp plain mailer epoch link "ip" "ua" with_grace).0
    ≡ ok tt
unfolding verify_and_record_unsubscribe parse_unsub_token record_unsubscribe get_latest_consent
    append_consent_log valid_communication_channels truncated
followed-ok = refl

verify_and_record_unsubscribe-signed_example :
    (payload : List Char) × (p : UnsubPayload) × (some (chars link)
      ≡ some (payload ++ copies 32 (first_or_bar payload)))
    × (read payload ≡ some p)
    × (mailer.unsubscribe_key ≢ "")
    × (p.jti ≢ "")
    × (unix epoch ≤ℤ p.exp)
    × (valid_communication_channels p.channel ≡ true)
verify_and_record_unsubscribe-signed_example =
    verify_and_record_unsubscribe-signed plain plain-LawfulTokens memory stamp mailer epoch link
      "ip" "ua" with_grace followed-ok

verify_and_record_unsubscribe-Grows_example : Grows (memory.table with_grace) (
    memory.table
      (verify_and_record_unsubscribe memory stamp plain mailer epoch link "ip" "ua" with_grace).1)
verify_and_record_unsubscribe-Grows_example =
    verify_and_record_unsubscribe-Grows memory memory-Lawful stamp plain mailer epoch link "ip" "ua"
      with_grace followed-ok
