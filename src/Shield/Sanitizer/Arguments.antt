-- ===== src/Shield/Sanitizer/Arguments.antt =====
-- sanitizer.rs: the credentials in a text, and the findings in the arguments of a call.
use project_black_monolith.Prelude.{true, false, List, [], ◌∷◌, ◌++◌}
use project_black_monolith.Text.{Text, codes, text_eq, any, is_empty}
use project_black_monolith.Json.{
  Json, null, bool, number, string, array, object, Items, nil, cons, Members, end, member,
}
use project_black_monolith.Shield.Sanitizer.Credentials.{
  has_openai_api_key, has_aws_access_key_id, has_github_pat, has_pem_private_key, has_jwt,
  has_bearer_token, has_vendor_token,
}
use project_black_monolith.Shield.Sanitizer.AwsSecrets.{has_aws_secret_key}
use project_black_monolith.Shield.Sanitizer.Scan.{
  Finding, ScanResult, push_if, credential_exfiltration, scan_description,
}

unfoldable pub scan_credentials : Text → Text → List Finding
unfolding has_openai_api_key has_aws_access_key_id has_aws_secret_key has_github_pat
    has_pem_private_key has_jwt has_bearer_token has_vendor_token credential_exfiltration
scan_credentials text label =
    push_if (has_openai_api_key text) credential_exfiltration (codes "sk-[A-Za-z0-9]{20,}")
    ++ push_if (has_aws_access_key_id text) credential_exfiltration (codes "AKIA[0-9A-Z]{16}")
    ++ push_if (has_aws_secret_key text label) credential_exfiltration
        (codes "AWS secret access key (40-character base64 value under an AWS secret label)")
    ++ push_if (has_github_pat text) credential_exfiltration (codes "gh[pousr]_[A-Za-z0-9]{36,}")
    ++ push_if (has_pem_private_key text) credential_exfiltration
        (codes "-----BEGIN (?:RSA |EC |OPENSSH )?PRIVATE KEY-----")
    ++ push_if (has_jwt text) credential_exfiltration
        (codes "eyJ[A-Za-z0-9_-]+\\.[A-Za-z0-9_-]+\\.[A-Za-z0-9_-]+ (JWT)")
    ++ push_if (has_bearer_token text) credential_exfiltration (codes "Bearer <opaque token>")
    ++ push_if (has_vendor_token text) credential_exfiltration
        (codes "vendor-prefixed access token")

-- The distinct texts among those seen and those of the list, in the order of their first places
unfoldable pub distinct_from : List Text → List Text → List Text
unfolding any text_eq
distinct_from seen [] = seen
distinct_from seen (t ∷ texts) = elim (any (text_eq t) seen) [
  | true ↦ distinct_from seen texts
  | false ↦ distinct_from (seen ++ t ∷ []) texts
]

abbrev pub kinds : List Finding → List Text
kinds [] = []
kinds (f ∷ findings) = f.kind ∷ kinds findings

abbrev pub reason_texts : List Finding → List Text
reason_texts [] = []
reason_texts (f ∷ findings) = (f.kind ++ codes ": " ++ f.pattern) ∷ reason_texts findings

module _ (lowercase : Text → Text) where
  unfoldable mutual
    unfolding scan_description scan_credentials

    pub collect_argument_findings : Json → Text → List Finding
    collect_argument_findings (string s) path =
        scan_description lowercase s ++ scan_credentials s path
    collect_argument_findings (array values) path = collect_items values path
    collect_argument_findings (object map) path = collect_members map path
    collect_argument_findings null path = []
    collect_argument_findings (bool b) path = []
    collect_argument_findings (number n) path = []

    pub collect_items : Items → Text → List Finding
    collect_items nil path = []
    collect_items (cons value values) path =
        collect_argument_findings value path ++ collect_items values path

    pub collect_members : Members → Text → List Finding
    collect_members end path = []
    collect_members (member key value map) path =
        collect_argument_findings value (path ++ codes "." ++ key) ++ collect_members map path

unfoldable pub scan_tool_arguments : (Text → Text) → Json → ScanResult
unfolding is_empty collect_argument_findings distinct_from
scan_tool_arguments lowercase args =
    let found = collect_argument_findings lowercase args [] in
    record {
      clean = is_empty found;
      findings = found;
      reasons = distinct_from [] (reason_texts found);
      categories = distinct_from [] (kinds found);
    }
