-- ===== src/Shield/Baseline/Loading.antt =====
-- fingerprint.rs: which files `load` accepts, and that it reads back what `save` wrote.
use project_black_monolith.Prelude.{
  ℕ, ◌≡◌, refl, sym, ap, ◌∙◌, ◌↔◌, true, false, ◌||◌, Option, some, List, [], ◌∷◌, ◌++◌, Result, ok,
  map_err, ltb, length, >>=-eq-ok, >>-eq-ok, ||-false, refuse-bind_iff, refuse-not_iff,
  refuse-not-bind_iff, map_err-eq-ok,
}
use project_black_monolith.Text.{
  Text, codes, text_eq, text_eq_iff, text_eq_refl, is_empty, byte_len,
}
use project_black_monolith.Text.Search.{All}
use project_black_monolith.Map.{Map, unwrap_or}
use project_black_monolith.Json.{get_member, as_str}
use project_black_monolith.Shield.Baseline.{
  max_baseline_bytes, max_baseline_tools, max_tool_name_bytes, BaselineEntry, StoreError,
  BaselineStore, BaselineFile, fresh_store, not_json, too_many_tools, too_many_pending,
  too_many_revoked, exceeds_limit, bad_name_length, no_stored_schema, name_differs,
  description_differs, hash_differs, invalid_key,
}
use project_black_monolith.Shield.Baseline.Sync.{
  Crypto, Disk, file, check_entry, check_entries, load_file, load, is_null, is_text,
  fingerprint_tool, save, write_store, note_saved, to_file, reload_if_changed,
}

module _ (c : Crypto) (key : List ℕ) where
  -- A stored record whose name, description and hash are those of the schema stored with it.
  pub record IsAuthentic (name : Text) (entry : BaselineEntry) : Type 0 where
    pub named : is_empty name ≡ false
    pub bounded : ltb max_tool_name_bytes (byte_len name) ≡ false
    pub has_schema : is_null entry.tool ≡ false
    pub same_name : is_text (as_str (get_member entry.tool (codes "name"))) name ≡ true
    pub same_description :
        unwrap_or (as_str (get_member entry.tool (codes "description"))) [] ≡ entry.description
    pub same_hash : fingerprint_tool c key entry.tool ≡ ok entry.hash

  sound :
      (name : Text) (entry : BaselineEntry)
      → check_entry c key name entry ≡ ok tt
      → IsAuthentic name entry
  unfolding check_entry
  sound name entry h =
      let (named, h1) =
        (refuse-bind_iff (is_empty name || ltb max_tool_name_bytes (byte_len name)) bad_name_length
            _).0
          h in
      let (has_schema, h2) =
        (refuse-bind_iff (is_null entry.tool) (no_stored_schema name) _).0 h1 in
      let (same_name, h3) =
        (refuse-not-bind_iff (is_text (as_str (get_member entry.tool (codes "name"))) name)
            (name_differs name) _).0
          h2 in
      let (same_description, h4) =
        (refuse-not-bind_iff
            (text_eq (unwrap_or (as_str (get_member entry.tool (codes "description"))) [])
              entry.description)
            (description_differs name) _).0
          h3 in
      let (hash, hashed, h5) =
        >>=-eq-ok (map_err invalid_key (fingerprint_tool c key entry.tool)) _ h4 in
      let same =
        (text_eq_iff hash entry.hash).0
          ((refuse-not_iff (text_eq hash entry.hash) (hash_differs name)).0 h5) in
      let (some_name, bounded) =
        (||-false (is_empty name) (ltb max_tool_name_bytes (byte_len name))).0 named in
      record {
        named = some_name;
        bounded = bounded;
        has_schema = has_schema;
        same_name = same_name;
        same_description = (text_eq_iff _ _).0 same_description;
        same_hash =
            map_err-eq-ok invalid_key (fingerprint_tool c key entry.tool) hashed ∙ ap ok same;
      }

  complete :
      (name : Text) (entry : BaselineEntry)
      → IsAuthentic name entry
      → check_entry c key name entry ≡ ok tt
  unfolding check_entry
  complete name entry a =
      rw
        (
          a.named,
          a.bounded,
          a.has_schema,
          a.same_name,
          (text_eq_iff _ _).1 a.same_description,
          a.same_hash,
        )
        (rw ((text_eq_iff entry.hash entry.hash).1 refl) refl)

  abbrev IsAuthenticPair : Text × BaselineEntry → Type 0
  IsAuthenticPair p = IsAuthentic p.0 p.1

  check_entries_iff :
      (entries : Map BaselineEntry)
      → (check_entries c key entries ≡ ok tt) ↔ All IsAuthenticPair entries
  unfolding check_entries
  check_entries_iff [] = (λ h. tt, λ h. refl)
  check_entries_iff ((name, entry) ∷ entries) = (
    λ h.
        let (first, rest) =
          >>-eq-ok (check_entry c key name entry) (check_entries c key entries) h in
        (sound name entry first, (check_entries_iff entries).0 rest),
    λ h. rw (complete name entry (h.0)) ((check_entries_iff entries).1 (h.1)),
  )

  -- The files that are accepted, with the tables that they hold.
  pub record IsTrusted (raw : Text) (f : BaselineFile) : Type 0 where
    pub parsed : c.parse raw ≡ ok f
    pub short : ltb max_baseline_bytes (byte_len raw) ≡ false
    pub few_tools : ltb max_baseline_tools (length f.tools) ≡ false
    pub few_pending : ltb max_baseline_tools (length f.pending) ≡ false
    pub few_revoked : ltb max_baseline_tools (length f.revoked) ≡ false
    pub authentic : All IsAuthenticPair (f.tools ++ f.pending)

  abbrev pub loaded_store : Option ℕ → Text → BaselineFile → BaselineStore
  loaded_store modified raw f = record (fresh_store key) {
    tools = f.tools;
    pending = f.pending;
    revoked = f.revoked;
    last_modified = modified;
    disk_digest = some (c.sha256 raw);
  }

  load-IsTrusted :
      (modified : Option ℕ) (raw : Text) (s : BaselineStore)
      → load c key (file modified raw) ≡ ok s
      → (f : BaselineFile) × IsTrusted raw f × (s ≡ loaded_store modified raw f)
  unfolding load load_file
  load-IsTrusted modified raw s h =
      let (short, h1) =
        (refuse-bind_iff (ltb max_baseline_bytes (byte_len raw)) exceeds_limit _).0 h in
      let (f, parsed, h2) = >>=-eq-ok (map_err not_json (c.parse raw)) _ h1 in
      let (few_tools, h3) =
        (refuse-bind_iff (ltb max_baseline_tools (length f.tools)) (too_many_tools (length f.tools))
            _).0
          h2 in
      let (few_pending, h4) =
        (refuse-bind_iff (ltb max_baseline_tools (length f.pending))
            (too_many_pending (length f.pending)) _).0
          h3 in
      let (few_revoked, h5) =
        (refuse-bind_iff (ltb max_baseline_tools (length f.revoked))
            (too_many_revoked (length f.revoked)) _).0
          h4 in
      let (authentic, h6) = >>-eq-ok (check_entries c key (f.tools ++ f.pending)) _ h5 in
      (
        f,
        record {
          parsed = map_err-eq-ok not_json (c.parse raw) parsed;
          short = short;
          few_tools = few_tools;
          few_pending = few_pending;
          few_revoked = few_revoked;
          authentic = (check_entries_iff (f.tools ++ f.pending)).0 authentic;
        },
        cc h6,
      )

  IsTrusted-load :
      (modified : Option ℕ) (raw : Text) (f : BaselineFile)
      → IsTrusted raw f
      → load c key (file modified raw) ≡ ok (loaded_store modified raw f)
  unfolding load load_file
  IsTrusted-load modified raw f t =
      rw (t.short, t.parsed)
        (rw
          (
            t.few_tools,
            t.few_pending,
            t.few_revoked,
            (check_entries_iff (f.tools ++ f.pending)).1 t.authentic,
          )
          refl)

  -- For every file: `load` gives a store exactly if the file is at most 16 MiB, parses to at most
  -- 10,000 trusted, pending and revoked names each, and every trusted and pending record is
  -- authentic: a name of 1 to 128 bytes, a schema with that name and the record's description, and
  -- the hash that the key gives for the schema. The store then has the tables of the file and nothing unsaved.
  pub load_iff :
      (modified : Option ℕ) (raw : Text) (s : BaselineStore)
      → (load c key (file modified raw) ≡ ok s)
        ↔ ((f : BaselineFile) × IsTrusted raw f × (s ≡ loaded_store modified raw f))
  load_iff modified raw s = (
    load-IsTrusted modified raw s,
    λ (f, t, same). IsTrusted-load modified raw f t ∙ ap ok (sym same),
  )

  -- Where the tables of a store print to a text that parses back to a trusted file, and that text is
  -- written: `load` reads the same trusted, pending and revoked tables from the file, the saved store
  -- does not reload it, and nothing is left unsaved.
  pub save-load :
      (s : BaselineStore) (write : Text → Result StoreError (Option ℕ)) (json : Text)
      (modified modified' : Option ℕ) (again : Disk)
      → c.print (to_file s) ≡ ok json
      → IsTrusted json (to_file s)
      → write json ≡ ok modified
      → let t = (save c s write).0 in
        (load c key (file modified' json) ≡ ok (loaded_store modified' json (to_file s)))
        × ((reload_if_changed c t (file modified' json) again).1 ≡ ok false)
        × (t.dirty ≡ false)
        × (t.unpersisted ≡ [])
  unfolding save write_store note_saved reload_if_changed
  save-load s write json modified modified' again printed trusted saved =
      rw (printed, saved)
        (
          IsTrusted-load modified' json _ trusted,
          rw (text_eq_refl (c.sha256 json)) refl,
          refl,
          refl,
        )
