-- ===== src/Shield/Tests.antt =====
-- The trusted schemas on concrete data.
use project_black_monolith.Prelude.{
  ℕ, ◌≡◌, refl, ◌↔◌, true, false, not, ◌&&◌, ◌||◌, Option, some, List, [], ◌∷◌, Result, ok, is_ok,
  if◌then◌else◌,
}
use project_black_monolith.Text.{Text, codes, text_eq}
use project_black_monolith.Map.{get, contains_key}
use project_black_monolith.Json.{Json, string, object, members}
use project_black_monolith.Shield.Baseline.{
  BaselineEntry, BaselineStore, BaselineFile, StoreError, exceeds_limit, contains, is_revoked,
  approve, revoke, check, fresh_store, new_entry, take_reload_failure, take_persist_failure,
}
use project_black_monolith.Shield.Baseline.Sync.{
  Crypto, Disk, file, not_found, load, save, merge_reloaded, reload_if_changed, note_reload_failure,
  to_file, save_if_dirty,
}
use project_black_monolith.Shield.Baseline.Trust.{check-contains}
use project_black_monolith.Shield.Baseline.Revocation.{
  revoke-contains, approve-revoke, reload_if_changed-is_revoked,
}
use project_black_monolith.Shield.Baseline.Loading.{IsTrusted, loaded_store, load_iff, save-load}

abbrev key : List ℕ
key = 7 ∷ []

abbrev name : Text
name = codes "t"

abbrev tool : Json
tool =
    object (members ((codes "name", string name) ∷ (codes "description", string (codes "d")) ∷ []))

abbrev entry : BaselineEntry
entry = new_entry (codes "h") (codes "d") 5 tool

-- A store with one trusted tool
abbrev trusting : BaselineStore
trusting = record (fresh_store key) { tools = (name, entry) ∷ []; disk_digest = some (codes "old") }

abbrev revoking : BaselineStore
revoking = record (fresh_store key) {
  pending = (name, entry) ∷ [];
  revoked = name ∷ [];
  dirty = true;
  disk_digest = some (codes "old");
}

abbrev reason : StoreError → Text
reason exceeds_limit = codes "limit"
reason _ = codes "other"

abbrev crypto : Crypto
crypto = record {
  hmac_hex = λ _ _. ok (codes "h");
  sha256 = λ t. t;
  quote = λ t. t;
  parse = λ _. ok (to_file trusting);
  print = λ _. ok (codes "J");
  error_text = reason;
}

abbrev writes : Text → Result StoreError (Option ℕ)
writes _ = ok (some 9)

check-contains_example :
    let served = (check (fresh_store key) name (codes "h") (codes "d") 5 tool).0 in
    let answer = save_if_dirty crypto served writes in
    (contains served name ≡ contains (fresh_store key) name)
    × (contains (answer.0) name ≡ (
        if served.dirty && is_ok (answer.1)
        then contains_key (fresh_store key).tools name || text_eq name name
        else contains (fresh_store key) name))
check-contains_example =
    check-contains crypto (fresh_store key) name (codes "h") (codes "d") 5 tool writes name

revoke-contains_example :
    (contains (revoke trusting name).0 name ≡ contains trusting name && not (text_eq name name))
    × ((revoke trusting name).1 ≡ contains_key trusting.tools name)
    × (is_revoked (revoke trusting name).0 name
        ≡ is_revoked trusting name || ((revoke trusting name).1 && text_eq name name))
revoke-contains_example = revoke-contains trusting name name

approve-revoke_example :
    let t = (approve (revoke trusting name).0 name).0 in
    (get t.tools name ≡ get trusting.tools name)
    × (get t.pending name ≡ get trusting.pending name)
    × (is_revoked t name ≡ not (text_eq name name) && is_revoked trusting name)
unfolding get text_eq
approve-revoke_example = approve-revoke trusting name name refl refl

abbrev approved_file : Disk
approved_file = file (some 3) (codes "J")

trusted : IsTrusted crypto key (codes "J") (to_file trusting)
unfolding project_black_monolith.Text.byte_len project_black_monolith.Text.is_empty
    project_black_monolith.Json.get_member
    project_black_monolith.Shield.Baseline.Sync.fingerprint_tool
trusted = record {
  parsed = refl;
  short = refl;
  few_tools = refl;
  few_pending = refl;
  few_revoked = refl;
  authentic = (
    record {
      named = refl;
      bounded = refl;
      has_schema = refl;
      same_name = refl;
      same_description = refl;
      same_hash = refl;
    },
    tt,
  );
}

loads :
    load crypto key approved_file
    ≡ ok (loaded_store crypto key (some 3) (codes "J") (to_file trusting))
loads =
    (load_iff crypto key (some 3) (codes "J")
        (loaded_store crypto key (some 3) (codes "J") (to_file trusting))).1
      (to_file trusting, trusted, refl)

load_iff_example :
    (load crypto key approved_file
      ≡ ok (loaded_store crypto key (some 3) (codes "J") (to_file trusting)))
    ↔ ((f : BaselineFile) × IsTrusted crypto key (codes "J") f
        × (loaded_store crypto key (some 3) (codes "J") (to_file trusting)
            ≡ loaded_store crypto key (some 3) (codes "J") f))
load_iff_example =
    load_iff crypto key (some 3) (codes "J")
      (loaded_store crypto key (some 3) (codes "J") (to_file trusting))

reload_if_changed-is_revoked_example :
    is_revoked (reload_if_changed crypto revoking approved_file approved_file).0 name
    ≡ is_revoked revoking name
      || is_revoked (loaded_store crypto key (some 3) (codes "J") (to_file trusting)) name
unfolding text_eq
reload_if_changed-is_revoked_example =
    reload_if_changed-is_revoked crypto revoking
      (loaded_store crypto key (some 3) (codes "J") (to_file trusting)) (some 3) (codes "J")
      approved_file name refl refl loads

save-load_example :
    (load crypto key (file (some 8) (codes "J"))
      ≡ ok (loaded_store crypto key (some 8) (codes "J") (to_file trusting)))
    × ((reload_if_changed crypto
          (save crypto trusting writes).0
          (file (some 8) (codes "J"))
          not_found).1
        ≡ ok false)
    × ((save crypto trusting writes).0.dirty ≡ false)
    × ((save crypto trusting writes).0.unpersisted ≡ [])
save-load_example =
    save-load crypto key trusting writes (codes "J") (some 9) (some 8) not_found refl trusted refl
