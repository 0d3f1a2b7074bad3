-- ===== src/Shield/Baseline/Sync.antt =====
-- fingerprint.rs: how the store is read from the disk, reloaded and written.
use project_black_monolith.Prelude.{
  ℕ, Bool, true, false, not, ◌||◌, Option, none, some, List, [], ◌∷◌, ◌++◌, Result, ok, err, ◌>>=◌,
  ◌>>◌, refuse_if, map_err, ltb, if◌then◌else◌, length,
}
use project_black_monolith.Text.{Text, codes, text_eq, is_empty, byte_len}
use project_black_monolith.Map.{
  Map, get, contains_key, merge_where, is_some, unwrap_or, member, extend, retain,
}
use project_black_monolith.Json.{Json, null, get_member, as_str}
use project_black_monolith.Shield.Fingerprint.{canonicalize}
use project_black_monolith.Shield.Baseline.{
  max_baseline_bytes, max_baseline_tools, max_tool_name_bytes, BaselineEntry, StoreError,
  exceeds_limit, inspect_failed, read_failed, not_json, invalid_key, too_many_tools,
  too_many_pending, too_many_revoked, bad_name_length, no_stored_schema, name_differs,
  description_differs, hash_differs, serialize_failed, BaselineStore, BaselineFile, is_new_failure,
  fresh_store,
}

-- What the file system answers about the baseline: no file, an error when it is inspected or read,
-- or a file with its length, its time and its text.
pub data Disk : Type 0 where
  not_found : Disk
  uninspectable : (cause : Text) → Disk
  unreadable : (length : ℕ) (modified : Option ℕ) (cause : Text) → Disk
  file : (modified : Option ℕ) (raw : Text) → Disk

-- What the store calls and does not implement: the HMAC of a text in hexadecimal, SHA-256, the
-- forms of JSON, and the text of an error.
pub record Crypto : Type 0 where
  pub hmac_hex : List ℕ → Text → Result Text Text
  pub sha256 : Text → List ℕ
  pub quote : Text → Text
  pub parse : Text → Result Text BaselineFile
  pub print : BaselineFile → Result Text Text
  pub error_text : StoreError → Text

abbrev pub to_file : BaselineStore → BaselineFile
to_file s = record { tools = s.tools; pending = s.pending; revoked = s.revoked }

abbrev pub is_null : Json → Bool
is_null null = true
is_null _ = false

abbrev pub is_text : Option Text → Text → Bool
is_text none t = false
is_text (some s) t = text_eq s t

-- The file while the store holds changes that are not on disk: the disk wins, except that a
-- revocation of either side stays.
unfoldable pub merge_reloaded : BaselineStore → BaselineStore → BaselineStore
unfolding get merge_where extend retain member
merge_reloaded s reloaded =
    let merged_tools = merge_where (λ _. true) reloaded.tools s.tools in
    record s {
      tools = merged_tools;
      pending =
          merge_where (λ name. not (contains_key merged_tools name)) reloaded.pending s.pending;
      revoked = extend reloaded.revoked s.revoked;
      unpersisted = retain (λ name. not (contains_key reloaded.tools name)) s.unpersisted;
    }

abbrev adopt_reloaded : BaselineStore → BaselineStore → BaselineStore
adopt_reloaded s reloaded = record s {
  tools = reloaded.tools;
  pending = reloaded.pending;
  revoked = reloaded.revoked;
  unpersisted = [];
}

abbrev pub same_digest : Option (List ℕ) → List ℕ → Bool
same_digest none d = false
same_digest (some old) d = text_eq old d

abbrev forget_file : BaselineStore → BaselineStore × Result StoreError Bool
forget_file s =
    if is_some s.disk_digest
    then (
      record s {
        tools = [];
        pending = [];
        revoked = [];
        unpersisted = [];
        last_modified = none;
        disk_digest = none;
        dirty = false;
      },
      ok true,
    )
    else (s, ok false)

module _ (c : Crypto) where
  unfoldable pub fingerprint_tool : List ℕ → Json → Result Text Text
  fingerprint_tool key tool = c.hmac_hex key (canonicalize c.quote tool)

  -- One record of the file, trusted or pending.
  unfoldable pub check_entry : List ℕ → Text → BaselineEntry → Result StoreError (Unit {0})
  unfolding fingerprint_tool is_empty byte_len get_member text_eq
  check_entry key name entry = do
    refuse_if (is_empty name || ltb max_tool_name_bytes (byte_len name)) bad_name_length
    refuse_if (is_null entry.tool) (no_stored_schema name)
    refuse_if (not (is_text (as_str (get_member entry.tool (codes "name"))) name))
        (name_differs name)
    refuse_if
        (not (
          text_eq (unwrap_or (as_str (get_member entry.tool (codes "description"))) [])
            entry.description))
        (description_differs name)
    authenticated_hash ← map_err invalid_key (fingerprint_tool key entry.tool)
    refuse_if (not (text_eq authenticated_hash entry.hash)) (hash_differs name)

  unfoldable pub check_entries : List ℕ → Map BaselineEntry → Result StoreError (Unit {0})
  unfolding check_entry
  check_entries key [] = ok tt
  check_entries key ((name, entry) ∷ entries) = do
    check_entry key name entry
    check_entries key entries

  unfoldable pub load_file : List ℕ → Option ℕ → Text → Result StoreError BaselineStore
  unfolding check_entries
  load_file key modified raw = do
    f ← map_err not_json (c.parse raw)
    refuse_if (ltb max_baseline_tools (length f.tools)) (too_many_tools (length f.tools))
    refuse_if (ltb max_baseline_tools (length f.pending)) (too_many_pending (length f.pending))
    refuse_if (ltb max_baseline_tools (length f.revoked)) (too_many_revoked (length f.revoked))
    check_entries key (f.tools ++ f.pending)
    ok (record {
      hmac_key = key;
      tools = f.tools;
      pending = f.pending;
      revoked = f.revoked;
      dirty = false;
      unpersisted = [];
      last_modified = modified;
      disk_digest = some (c.sha256 raw);
      reload_failure = none;
      reload_failure_reported = false;
      persist_failure = none;
      persist_failure_reported = false;
    })

  unfoldable pub load : List ℕ → Disk → Result StoreError BaselineStore
  unfolding load_file byte_len
  load key not_found = ok (fresh_store key)
  load key (uninspectable cause) = err (inspect_failed cause)
  load key (unreadable length modified cause) =
      if ltb max_baseline_bytes length then err exceeds_limit else err (read_failed cause)
  load key (file modified raw) = do
    refuse_if (ltb max_baseline_bytes (byte_len raw)) exceeds_limit
    load_file key modified raw

  -- A load that fails is recorded under its message, unless that message is recorded already.
  unfoldable pub note_reload_failure : BaselineStore → StoreError → BaselineStore
  unfolding text_eq
  note_reload_failure s e =
      if is_new_failure s.reload_failure (c.error_text e)
      then (record s { reload_failure = some (c.error_text e); reload_failure_reported = false })
      else s

  unfoldable pub finish_reload :
      BaselineStore → Result StoreError BaselineStore → BaselineStore × Result StoreError Bool
  unfolding note_reload_failure merge_reloaded
  finish_reload s (err e) = (note_reload_failure s e, err e)
  finish_reload s (ok reloaded) = (
    record (if s.dirty then merge_reloaded s reloaded else adopt_reloaded s reloaded) {
      reload_failure = none;
      reload_failure_reported = false;
      last_modified = reloaded.last_modified;
      disk_digest = reloaded.disk_digest;
    },
    ok true,
  )

  -- The file is read twice, for its digest (`seen`) and by `load` (`again`).
  unfoldable pub reload_if_changed :
      BaselineStore → (seen again : Disk) → BaselineStore × Result StoreError Bool
  unfolding load text_eq finish_reload
  reload_if_changed s not_found again = forget_file s
  reload_if_changed s (uninspectable cause) again = (s, err (inspect_failed cause))
  reload_if_changed s (unreadable length modified cause) again = (s, err (read_failed cause))
  reload_if_changed s (file modified raw) again =
      if same_digest s.disk_digest (c.sha256 raw)
      then (record s { last_modified = modified }, ok false)
      else finish_reload s (load s.hmac_key again)

  -- Writing ends with the error of its first failing step, or with the time of the new file.
  abbrev pub written :
      BaselineStore
      → Result StoreError Text
      → (Text → Result StoreError (Option ℕ))
      → BaselineStore × Result StoreError (Unit {0})
  written s (err e) write = (s, err e)
  written s (ok json) write = replaced (write json)
    where
      replaced : Result StoreError (Option ℕ) → BaselineStore × Result StoreError (Unit {0})
      replaced (err e) = (s, err e)
      replaced (ok modified) = (
        record s {
          last_modified = modified;
          disk_digest = some (c.sha256 json);
          dirty = false;
          unpersisted = [];
        },
        ok tt,
      )

  unfoldable pub write_store :
      BaselineStore
      → (Text → Result StoreError (Option ℕ))
      → BaselineStore × Result StoreError (Unit {0})
  write_store s write = written s (map_err serialize_failed (c.print (to_file s))) write

  unfoldable pub note_saved :
      BaselineStore × Result StoreError (Unit {0}) → BaselineStore × Result StoreError (Unit {0})
  unfolding text_eq
  note_saved (s, ok u) =
      (record s { persist_failure = none; persist_failure_reported = false }, ok u)
  note_saved (s, err e) = (
    if is_new_failure s.persist_failure (c.error_text e)
        then (record s {
          persist_failure = some (c.error_text e);
          persist_failure_reported = false;
        })
        else s,
    err e,
  )

  unfoldable pub save :
      BaselineStore
      → (Text → Result StoreError (Option ℕ))
      → BaselineStore × Result StoreError (Unit {0})
  unfolding write_store note_saved
  save s write = note_saved (write_store s write)

  abbrev pub report_saved :
      BaselineStore × Result StoreError (Unit {0}) → BaselineStore × Result StoreError Bool
  report_saved (s, ok u) = (s, ok true)
  report_saved (s, err e) = (s, err e)

  unfoldable pub save_if_dirty :
      BaselineStore → (Text → Result StoreError (Option ℕ)) → BaselineStore × Result StoreError Bool
  unfolding save
  save_if_dirty s write = if s.dirty then report_saved (save s write) else (s, ok false)
