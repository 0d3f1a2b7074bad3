-- ===== src/Boundary/OnePassword/Tests.antt =====
-- The provider of 1Password on concrete data.
use project_black_monolith.Prelude.{
  ℕ, ◌≡◌, refl, ◌⊎◌, true, none, some, List, [], ◌∷◌, Result, ok, err,
}
use project_black_monolith.Prelude.Words.{pos}
use project_black_monolith.Text.{Text, codes}
use project_black_monolith.Boundary.Error.{BoundaryError}
use project_black_monolith.Boundary.Secret.{new}
use project_black_monolith.Boundary.Provider.{VarError}
use project_black_monolith.Boundary.OnePassword.Settings.{
  OnePasswordCliConfig, session_token, default_config,
}
use project_black_monolith.Boundary.OnePassword.Command.{
  Run, SubprocessOutput, slice_to, get_secret,
}
use project_black_monolith.Boundary.OnePassword.Runs.{IsRefused, IsSafeRun, get_secret-IsSafeRun}

abbrev env_var : Text → Result VarError Text
env_var _ = ok (codes "value")

abbrev lossy : List ℕ → Text
lossy bytes = bytes

abbrev runner : Run → Result BoundaryError SubprocessOutput
runner _ =
    ok (record { exit_code = some (pos 0); success = true; stdout = codes "token"; stderr = [] })

abbrev config : OnePasswordCliConfig
config = record default_config {
  enabled = true;
  account = some (codes "team");
  auth_mode = session_token (codes "team");
}

abbrev secret_ref : Text
secret_ref = codes "op://vault/item%20a/field"

get_secret_test :
    (get_secret lossy env_var runner config secret_ref).0 ≡ some (ok (new (codes "token")))
unfolding get_secret new
get_secret_test = refl

-- The second byte of a character of two bytes is no place to cut a text at.
slice_to-within_test : slice_to 1 (0xE9 ∷ []) ≡ none
unfolding slice_to
slice_to-within_test = refl

get_secret-IsSafeRun_example :
    ((e : BoundaryError) × IsRefused env_var config secret_ref e
      × (get_secret lossy env_var runner config secret_ref ≡ (some (err e), [])))
    ⊎ ((run : Run) × IsSafeRun env_var config secret_ref run
        × ((get_secret lossy env_var runner config secret_ref).1 ≡ run ∷ []))
get_secret-IsSafeRun_example = get_secret-IsSafeRun env_var lossy runner config secret_ref
