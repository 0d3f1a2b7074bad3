-- ===== src/Shield/Sanitizer/TokenDetectors.antt =====
-- sanitizer.rs: the detectors of prefixed tokens, against what the patterns of their findings say.
use project_black_monolith.Prelude.{◌≡◌, ◌↔◌, true, [], ◌∷◌}
use project_black_monolith.Text.{Text, codes, is_ascii_alphanumeric, as_bytes}
use project_black_monolith.Text.Search.{Any}
use project_black_monolith.Shield.Sanitizer.Credentials.{
  openai_prefixes, has_openai_api_key, is_access_key_char, has_aws_access_key_id,
  github_pat_prefixes, has_github_pat, is_vendor_char, vendor_token_prefixes, has_vendor_token,
}
use project_black_monolith.Shield.Sanitizer.Detection.{KeyOf}
use project_black_monolith.Shield.Sanitizer.Tokens.{
  Occurs, has_github_pat_iff, has_aws_access_key_id_iff,
}
use project_black_monolith.Shield.Sanitizer.OpenAiKeys.{KeyPlace, has_openai_api_key_iff}
use project_black_monolith.Shield.Sanitizer.VendorTokens.{has_vendor_token_iff}

-- Each of four detectors finds a token exactly if one stands somewhere in the text: `sk-`, perhaps
-- `proj-`, `live-` or `test-`, and 20 letters or digits; `AKIA` and 16 digits or upper-case letters;
-- a prefix of GitHub and 36 letters or digits; a prefix of a vendor and 20 of its characters.
pub token_detectors_iff :
    (text : Text)
    → ((has_openai_api_key text ≡ true) ↔ Any (KeyPlace (as_bytes text)) ([] ∷ openai_prefixes))
      × ((has_aws_access_key_id text ≡ true)
          ↔ Occurs (as_bytes text) (codes "AKIA") (KeyOf is_access_key_char 16))
      × ((has_github_pat text ≡ true)
          ↔ Any
              (λ prefix. Occurs (as_bytes text) prefix (KeyOf is_ascii_alphanumeric 36))
              github_pat_prefixes)
      × ((has_vendor_token text ≡ true)
          ↔ Any (λ prefix. Occurs text prefix (KeyOf is_vendor_char 20)) vendor_token_prefixes)
token_detectors_iff text = (
  has_openai_api_key_iff text,
  has_aws_access_key_id_iff text,
  has_github_pat_iff text,
  has_vendor_token_iff text,
)
