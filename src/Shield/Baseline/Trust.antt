-- ===== src/Shield/Baseline/Trust.antt =====
-- fingerprint.rs: what `check`, `save` and `contains` make a trusted baseline.
use project_black_monolith.Prelude.{
  ℕ, ◌≡◌, refl, ap, ◌∙◌, ok, err, ◌||◌, inl, inr, arith, Bool, true, false, ◌&&◌, Option, none,
  some, Result, Bool-cases, Option-cases, Result-cases, if◌then◌else◌, is_ok,
}
use project_black_monolith.Text.{Text, text_eq, text_eq_iff}
use project_black_monolith.Map.{get, contains_key, is_some, member, or_else, get-insert, member-add}
use project_black_monolith.Json.{Json}
use project_black_monolith.Shield.Baseline.{
  BaselineStore, StoreError, serialize_failed, is_new_failure, contains, check, new_entry,
}
use project_black_monolith.Shield.Baseline.Sync.{
  Crypto, save, write_store, note_saved, to_file, report_saved, save_if_dirty,
}

-- For every store and every tool served to `check`, the baseline of every name afterwards is the one
-- it had, and a name that had none has one only if it is the name of that tool: then it is the entry
-- that was served. So `check` never replaces a baseline.
check-tools :
    (s : BaselineStore) (name hash description : Text) (now : ℕ) (tool : Json) (j : Text)
    → get ((check s name hash description now tool).0.tools) j
      ≡ or_else
          (get s.tools j)
          (if text_eq name j then some (new_entry hash description now tool) else none)
unfolding check
check-tools s name hash description now tool j = elim (Option-cases (get s.tools name)) [
  | inl absent ↦
      rw (absent, get-insert s.tools name (new_entry hash description now tool) j)
        (ground (arith, text_eq_iff name j, absent, Option-cases (get s.tools j)))
  | inr (e, present) ↦ rw (present) (
      ground (
        arith,
        text_eq_iff name j,
        present,
        Option-cases (get s.tools j),
        Bool-cases (text_eq e.hash hash),
      ))
]

-- `check` alone changes the trust of no name: what it registers counts only once it is saved.
check-untrusted :
    (s : BaselineStore) (name hash description : Text) (now : ℕ) (tool : Json) (j : Text)
    → contains (check s name hash description now tool).0 j ≡ contains s j
unfolding check contains
check-untrusted s name hash description now tool j = elim (Option-cases (get s.tools name)) [
  | inl absent ↦
      rw
        (
          absent,
          get-insert s.tools name (new_entry hash description now tool) j,
          member-add s.unpersisted name j,
        )
        (ground (arith, text_eq_iff name j, absent))
  | inr (e, present) ↦ rw (present) (ground (arith, Bool-cases (text_eq e.hash hash)))
]

some_or_tested :
    {A : Type 0} (o : Option A) (b : Bool) (a : A)
    → is_some (or_else o (if b then some a else none)) ≡ is_some o || b
some_or_tested none true a = refl
some_or_tested none false a = refl
some_or_tested (some old) b a = refl

if-cong :
    (b : Bool) {x x' y y' : Bool}
    → x ≡ x'
    → y ≡ y'
    → ◌≡◌ {A = Bool} (if b then x else y) (if b then x' else y')
if-cong true first second = first
if-cong false first second = second

&&-true : (b : Bool) → b && true ≡ b
&&-true true = refl
&&-true false = refl

module _ (c : Crypto) where
  -- For every store and every outcome of writing its file: a name has a trusted baseline after
  -- `save` exactly if, where the save succeeded, the store has an entry for it, and, where it failed,
  -- it had a trusted baseline before.
  save-contains :
      (s : BaselineStore) (write : Text → Result StoreError (Option ℕ)) (j : Text)
      → contains (save c s write).0 j
        ≡ (if is_ok (save c s write).1 then contains_key s.tools j else contains s j)
  unfolding save write_store note_saved contains
  save-contains s write j = elim (Result-cases (c.print (to_file s))) [
    | inl (json, printed) ↦ elim (Result-cases (write json)) [
      | inl (modified, saved) ↦
          rw (printed, saved) (unfold member in &&-true (is_some (get s.tools j)))
      | inr (e, failed) ↦
          rw (printed, failed) (kept (is_new_failure s.persist_failure (c.error_text e)) _)
    ]
    | inr (e, failed) ↦
        rw (failed) (kept (is_new_failure s.persist_failure (c.error_text (serialize_failed e))) _)
  ]
    where
      kept :
          (b : Bool) (failure : Option Text)
          → contains
              (if b
                then (record s { persist_failure = failure; persist_failure_reported = false })
                else s)
              j
            ≡ contains s j
      kept true failure = refl
      kept false failure = refl

  -- A store whose changes are not written: the outcome of the save decides the trust of every name.
  save_if_dirty-contains :
      (s : BaselineStore) (write : Text → Result StoreError (Option ℕ)) (j : Text)
      → contains (save_if_dirty c s write).0 j ≡ (
          if s.dirty && is_ok (save_if_dirty c s write).1
          then contains_key s.tools j
          else contains s j)
  unfolding save_if_dirty
  save_if_dirty-contains s write j = decided s.dirty
    where
      reported :
          (saved : BaselineStore × Result StoreError (Unit {0}))
          → contains (saved.0) j
            ≡ (if is_ok (saved.1) then contains_key s.tools j else contains s j)
          → contains ((report_saved c saved).0) j
            ≡ (if is_ok ((report_saved c saved).1) then contains_key s.tools j else contains s j)
      reported (after, ok done) h = h
      reported (after, err e) h = h

      decided :
          (b : Bool)
          → let answer : BaselineStore × Result StoreError Bool =
              if b then report_saved c (save c s write) else (s, ok false) in
            contains (answer.0) j
            ≡ (if b && is_ok (answer.1) then contains_key s.tools j else contains s j)
      decided true = reported (save c s write) (save-contains s write j)
      decided false = refl

  -- For every store, every tool served to `check`, every outcome of the write that follows, and every
  -- name: after `check` alone the name has a trusted baseline exactly if it had one; after the save
  -- that follows it has one exactly if, where there was something to save and it was written, the
  -- store had an entry for it or it is the name that was served, and else if it had one before.
  pub check-contains :
      (s : BaselineStore) (name hash description : Text) (now : ℕ) (tool : Json)
      (write : Text → Result StoreError (Option ℕ)) (j : Text)
      → let served = (check s name hash description now tool).0 in
        let answer = save_if_dirty c served write in
        (contains served j ≡ contains s j)
        × (contains (answer.0) j ≡ (
            if served.dirty && is_ok (answer.1)
            then contains_key s.tools j || text_eq name j
            else contains s j))
  check-contains s name hash description now tool write j =
      let served = (check s name hash description now tool).0 in
      let untrusted = check-untrusted s name hash description now tool j in
      let has : contains_key served.tools j ≡ contains_key s.tools j || text_eq name j =
        ap is_some (check-tools s name hash description now tool j)
        ∙ some_or_tested (get s.tools j) (text_eq name j) (new_entry hash description now tool) in
      (
        untrusted,
        save_if_dirty-contains served write j
            ∙ if-cong (served.dirty && is_ok ((save_if_dirty c served write).1)) has untrusted,
      )
