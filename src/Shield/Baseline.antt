-- ===== src/Shield/Baseline.antt =====
-- fingerprint.rs: `BaselineStore`, the trusted schemas of the tools, with what the operator revoked
-- and what waits for approval.
pub mod Sync
pub mod Trust
pub mod Revocation
pub mod Loading
pub mod Reporting
use project_black_monolith.Prelude.{
  ℕ, zero, ◌*◌, Bool, true, false, not, ◌&&◌, ◌||◌, Option, none, some, List, [], ◌∷◌, ◌++◌, map,
  Result, ok, err, ◌>>=◌, ◌>>◌, refuse_if, map_err, ltb, ◌==◌, if◌then◌else◌, length,
}
use project_black_monolith.Text.{Text, codes, text_eq, is_empty, byte_len}
use project_black_monolith.Map.{
  Map, get, contains_key, insert, remove, or_insert, merge_where, is_some, unwrap_or, TextSet,
  member, add, discard, extend, retain,
}
use project_black_monolith.Json.{Json}
use project_black_monolith.Shield.Fingerprint.{text_leb}

abbrev pub max_baseline_bytes : ℕ
max_baseline_bytes = 16 * 1024 * 1024

abbrev pub max_baseline_tools : ℕ
max_baseline_tools = 10000

abbrev pub max_tool_name_bytes : ℕ
max_tool_name_bytes = 128

pub record BaselineEntry : Type 0 where
  pub hash : Text
  pub description : Text
  pub first_seen_ms : ℕ
  pub tool : Json

pub data Verdict : Type 0 where
  registered match : Verdict
  mismatch : BaselineEntry → Verdict

-- One constructor for each message that the store can fail with.
pub data StoreError : Type 0 where
  exceeds_limit : StoreError
  inspect_failed read_failed not_json invalid_key serialize_failed write_failed :
      (cause : Text) → StoreError
  too_many_tools too_many_pending too_many_revoked : ℕ → StoreError
  bad_name_length : StoreError
  no_stored_schema name_differs description_differs hash_differs : (name : Text) → StoreError

-- The paths are left out: a store has one file.
pub record BaselineStore : Type 0 where
  pub hmac_key : List ℕ
  pub tools : Map BaselineEntry
  pub pending : Map BaselineEntry
  pub revoked : TextSet
  pub dirty : Bool
  pub unpersisted : TextSet
  pub last_modified : Option ℕ
  pub disk_digest : Option (List ℕ)
  pub reload_failure : Option Text
  pub reload_failure_reported : Bool
  pub persist_failure : Option Text
  pub persist_failure_reported : Bool

pub record BaselineFile : Type 0 where
  pub tools : Map BaselineEntry
  pub pending : Map BaselineEntry
  pub revoked : TextSet

unfoldable pub contains : BaselineStore → Text → Bool
unfolding get member
contains s name = contains_key s.tools name && not (member s.unpersisted name)

unfoldable pub is_revoked : BaselineStore → Text → Bool
unfolding member
is_revoked s name = member s.revoked name

abbrev pub new_entry : (hash description : Text) (now : ℕ) (tool : Json) → BaselineEntry
new_entry hash description now tool = record {
  hash = hash;
  description = description;
  first_seen_ms = now;
  tool = tool;
}

unfoldable register_pending :
    BaselineStore → (name hash description : Text) → (now : ℕ) → Json → BaselineStore × Bool
unfolding get insert
register_pending s name hash description now tool =
    if contains_key s.pending name then (s, false) else (
      record s {
        pending = insert s.pending name (new_entry hash description now tool);
        dirty = true;
      },
      true,
    )

abbrev promote : BaselineStore → Text → Option BaselineEntry → BaselineStore × Bool
promote s name none = (s, false)
promote s name (some entry) = (
  record s {
    tools = insert s.tools name entry;
    pending = remove s.pending name;
    revoked = discard s.revoked name;
    dirty = true;
  },
  true,
)

unfoldable pub approve : BaselineStore → Text → BaselineStore × Bool
unfolding get insert remove discard
approve s name = promote s name (get s.pending name)

abbrev withdraw : BaselineStore → Text → Option BaselineEntry → BaselineStore × Bool
withdraw s name none = (s, false)
withdraw s name (some entry) = (
  record s {
    tools = remove s.tools name;
    pending = or_insert s.pending name entry;
    revoked = add s.revoked name;
    unpersisted = discard s.unpersisted name;
    dirty = true;
  },
  true,
)

unfoldable pub revoke : BaselineStore → Text → BaselineStore × Bool
unfolding get remove or_insert add discard
revoke s name = withdraw s name (get s.tools name)

abbrev compare_entry :
    BaselineStore → Text → BaselineEntry → Option BaselineEntry → BaselineStore × Verdict
compare_entry s name seen none = (
  record s { tools = insert s.tools name seen; unpersisted = add s.unpersisted name; dirty = true },
  registered,
)
compare_entry s name seen (some entry) =
    if text_eq entry.hash seen.hash then (s, match) else (s, mismatch entry)

unfoldable pub check :
    BaselineStore → (name hash description : Text) → (now : ℕ) → Json → BaselineStore × Verdict
unfolding get insert add text_eq
check s name hash description now tool =
    compare_entry s name (new_entry hash description now tool) (get s.tools name)

-- pending_names: sorted for the operator
insert_name : Text → List Text → List Text
insert_name n [] = n ∷ []
insert_name n (k ∷ names) = if text_leb n k then n ∷ k ∷ names else k ∷ insert_name n names

sort_names : List Text → List Text
unfolding insert_name text_leb
sort_names [] = []
sort_names (n ∷ names) = insert_name n (sort_names names)

unfoldable pending_names : BaselineStore → List Text
unfolding sort_names
pending_names s = sort_names (map (λ kv. kv.0) s.pending)

-- A failure is taken the first time only.
abbrev pub take_failure : Bool → Option Text → Option Text
take_failure true failure = none
take_failure false failure = failure

unfoldable pub take_reload_failure : BaselineStore → BaselineStore × Option Text
take_reload_failure s =
    let taken = take_failure s.reload_failure_reported s.reload_failure in
    (record s { reload_failure_reported = s.reload_failure_reported || is_some taken }, taken)

unfoldable pub take_persist_failure : BaselineStore → BaselineStore × Option Text
take_persist_failure s =
    let taken = take_failure s.persist_failure_reported s.persist_failure in
    (record s { persist_failure_reported = s.persist_failure_reported || is_some taken }, taken)

-- `failure != Some(message)`
abbrev pub is_new_failure : Option Text → Text → Bool
is_new_failure none message = true
is_new_failure (some old) message = not (text_eq old message)

abbrev pub fresh_store : List ℕ → BaselineStore
fresh_store key = record {
  hmac_key = key;
  tools = [];
  pending = [];
  revoked = [];
  dirty = false;
  unpersisted = [];
  last_modified = none;
  disk_digest = none;
  reload_failure = none;
  reload_failure_reported = false;
  persist_failure = none;
  persist_failure_reported = false;
}
