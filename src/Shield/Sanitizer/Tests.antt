-- ===== src/Shield/Sanitizer/Tests.antt =====
-- The sanitizer on concrete texts.
use project_black_monolith.Prelude.{◌≡◌, refl, ◌↔◌, true, false, [], ◌∷◌}
use project_black_monolith.Text.{Text, codes, is_ascii_alphanumeric, as_bytes}
use project_black_monolith.Text.Search.{Any}
use project_black_monolith.Json.{Json, string, object, end, member}
use project_black_monolith.Shield.Sanitizer.Credentials.{
  openai_prefixes, has_openai_api_key, is_access_key_char, has_aws_access_key_id,
  github_pat_prefixes, has_github_pat, is_vendor_char, vendor_token_prefixes, has_vendor_token,
  has_jwt,
}
use project_black_monolith.Shield.Sanitizer.AwsSecrets.{has_aws_secret_key}
use project_black_monolith.Shield.Sanitizer.Detection.{KeyOf}
use project_black_monolith.Shield.Sanitizer.Tokens.{Occurs}
use project_black_monolith.Shield.Sanitizer.OpenAiKeys.{KeyPlace}
use project_black_monolith.Shield.Sanitizer.TokenDetectors.{token_detectors_iff}
use project_black_monolith.Shield.Sanitizer.AwsContext.{IsAwsSecret, has_aws_secret_key-IsAwsSecret}
use project_black_monolith.Shield.Sanitizer.Scan.{Finding, finding}
use project_black_monolith.Shield.Sanitizer.Arguments.{scan_tool_arguments}
use project_black_monolith.Shield.Sanitizer.Collected.{
  Reports, FoundIn, StringAt, scan_tool_arguments_iff,
}

abbrev key_text : Text
key_text = codes "key sk-proj-abcdefghij0123456789"

token_detectors_iff_example :
    ((has_openai_api_key key_text ≡ true)
      ↔ Any (KeyPlace (as_bytes key_text)) ([] ∷ openai_prefixes))
    × ((has_aws_access_key_id key_text ≡ true)
        ↔ Occurs (as_bytes key_text) (codes "AKIA") (KeyOf is_access_key_char 16))
    × ((has_github_pat key_text ≡ true)
        ↔ Any
            (λ prefix. Occurs (as_bytes key_text) prefix (KeyOf is_ascii_alphanumeric 36))
            github_pat_prefixes)
    × ((has_vendor_token key_text ≡ true)
        ↔ Any (λ prefix. Occurs key_text prefix (KeyOf is_vendor_char 20)) vendor_token_prefixes)
token_detectors_iff_example = token_detectors_iff key_text

has_openai_api_key_test : has_openai_api_key key_text ≡ true
unfolding has_openai_api_key
has_openai_api_key_test = refl

-- A token of three parts is found where it is the whole text, and not after a word.
has_jwt_test : has_jwt (codes "eyJhbGciOi.eyJzdWIiOi.SflKxwRJSM") ≡ true
unfolding has_jwt
has_jwt_test = refl

has_jwt-after_word_test : has_jwt (codes "token eyJhbGciOi.eyJzdWIiOi.SflKxwRJSM") ≡ false
unfolding has_jwt
has_jwt-after_word_test = refl

abbrev secret : Text
secret = codes "AbCdEfGhIjKlMnOpQrStUvWxYz0123456789abcd"

has_aws_secret_key-IsAwsSecret_example :
    IsAwsSecret (as_bytes secret) (codes ".aws_secret_access_key")
unfolding has_aws_secret_key
has_aws_secret_key-IsAwsSecret_example =
    has_aws_secret_key-IsAwsSecret secret (codes ".aws_secret_access_key") refl

abbrev arguments : Json
arguments = object (member (codes "q") (string (codes "you must always")) end)

abbrev plain : Text → Text
plain s = s

abbrev phrase : Finding
phrase = finding (codes "instruction_override") (codes "you must always")

scan_tool_arguments_iff_example :
    Reports ((scan_tool_arguments plain arguments).findings) phrase
    ↔ ((s at : Text) × StringAt arguments [] s at × FoundIn plain phrase s at)
scan_tool_arguments_iff_example = scan_tool_arguments_iff plain arguments phrase
