-- ===== src/Shield/Baseline/Reporting.antt =====
-- fingerprint.rs: how often a failure of the store is reported.
use project_black_monolith.Prelude.{
  ◌≡◌, refl, ◌∙◌, ap, inl, inr, arith, Bool, true, false, ◌||◌, Option, none, some, Bool-cases,
  Option-cases, not-false, sym, if◌then◌else◌,
}
use project_black_monolith.Text.{Text, text_eq, text_eq_iff}
use project_black_monolith.Map.{is_some}
use project_black_monolith.Shield.Baseline.{
  BaselineStore, StoreError, take_reload_failure, take_persist_failure, is_new_failure,
  take_failure,
}
use project_black_monolith.Shield.Baseline.Sync.{Crypto, note_reload_failure}

-- For every store: of two takings in a row, the second takes nothing, for the failures of reloading
-- and for those of writing.
take_failures-once :
    (s : BaselineStore)
    → ((take_reload_failure (take_reload_failure s).0).1 ≡ none)
      × ((take_persist_failure (take_persist_failure s).0).1 ≡ none)
unfolding take_reload_failure take_persist_failure
take_failures-once s = (
  again s.reload_failure_reported s.reload_failure,
  again s.persist_failure_reported s.persist_failure,
)
  where
    again :
        (reported : Bool) (failure : Option Text)
        → take_failure (reported || is_some (take_failure reported failure)) failure ≡ none
    again true failure = refl
    again false none = refl
    again false (some message) = refl

module _ (c : Crypto) where
  -- The failure that a store has recorded and reported.
  HasReported : BaselineStore → Text → Type 0
  HasReported s message = (s.reload_failure ≡ some message) × (s.reload_failure_reported ≡ true)

  unreported :
      (s : BaselineStore) (message : Text)
      → is_new_failure s.reload_failure message ≡ false
      → s.reload_failure ≡ some message
  unreported s message h = elim (Option-cases s.reload_failure) [
    | inl absent ↦ cc (ap (λ o. is_new_failure o message) absent)
    | inr (old, present) ↦
        present
        ∙ ap some (
            (text_eq_iff old message).0 (
              (not-false (text_eq old message)).0
                (sym (ap (λ o. is_new_failure o message) present) ∙ h)))
  ]

  reported_lem :
      (s : BaselineStore) (e : StoreError)
      → HasReported (take_reload_failure (note_reload_failure c s e)).0 (c.error_text e)
  unfolding HasReported note_reload_failure take_reload_failure
  reported_lem s e = elim (Bool-cases (is_new_failure s.reload_failure (c.error_text e))) [
    | inl new ↦ rw (new) (refl, refl)
    | inr old ↦ let h = unreported s (c.error_text e) old in rw (old, h) (refl, ground (arith, h))
  ]

  note_once :
      (s : BaselineStore) (message : Text) (f : StoreError)
      → HasReported s message
      → (take_reload_failure (note_reload_failure c s f)).1
        ≡ (if text_eq message (c.error_text f) then none else some (c.error_text f))
  unfolding HasReported note_reload_failure take_reload_failure
  note_once s message f (recorded, told) = elim (Bool-cases (text_eq message (c.error_text f))) [
    | inl same ↦ rw (recorded, told, same) refl
    | inr other ↦ rw (recorded, told, other) refl
  ]

  -- Where a failed reload has been recorded and reported, a second failed reload is reported exactly
  -- if its message is another one.
  note_reload_failure-distinct :
      (s : BaselineStore) (e f : StoreError)
      → let reported = (take_reload_failure (note_reload_failure c s e)).0 in
        (take_reload_failure (note_reload_failure c reported f)).1
        ≡ (if text_eq (c.error_text e) (c.error_text f) then none else some (c.error_text f))
  note_reload_failure-distinct s e f =
      note_once (take_reload_failure (note_reload_failure c s e)).0 (c.error_text e) f
        (reported_lem s e)
