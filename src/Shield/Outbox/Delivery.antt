-- ===== src/Shield/Outbox/Delivery.antt =====
-- outbox.rs: the backoff of a record, and what compacting the spool does to dead letters.
use project_black_monolith.Prelude.{
  ℕ, zero, suc, ◌+◌, ◌^◌, ◌%◌, min, ◌≤◌, ◌<◌, ◌==◌, if◌then◌else◌, ◌≡◌, refl, ap, ◌∙◌, inl, inr,
  true, false, ◌||◌, none, some, List, [], ◌∷◌, ◌++◌, map, ok, err, arith, Bool-cases, ||-false,
}
use project_black_monolith.Text.{Text, text_eq, text_eq_iff}
use project_black_monolith.Text.Search.{All}
use project_black_monolith.Map.{Map, TextSet, member, unwrap_or, get}
use project_black_monolith.Shield.Outbox.Bounds.{enforce_spool_bounds_lem}
use project_black_monolith.Shield.Outbox.{
  SpoolRecord, Files, Contents, defer, kept, append_dead, reconcile, enforce_spool_bounds,
  max_spool_records, max_spool_bytes,
}

small_power : (n : ℕ) → n ≤ 8 → (2 ^ n ≤ 256) × (1 ≤ 2 ^ n)
small_power zero h = (omega arith, omega arith)
small_power (suc zero) h = (omega arith, omega arith)
small_power (suc (suc zero)) h = (omega arith, omega arith)
small_power (suc (suc (suc zero))) h = (omega arith, omega arith)
small_power (suc (suc (suc (suc zero)))) h = (omega arith, omega arith)
small_power (suc (suc (suc (suc (suc zero))))) h = (omega arith, omega arith)
small_power (suc (suc (suc (suc (suc (suc zero)))))) h = (omega arith, omega arith)
small_power (suc (suc (suc (suc (suc (suc (suc zero))))))) h = (omega arith, omega arith)
small_power (suc (suc (suc (suc (suc (suc (suc (suc zero)))))))) h = (omega arith, omega arith)
small_power (suc (suc (suc (suc (suc (suc (suc (suc (suc n))))))))) h = absurd (omega arith)

-- For every instant, every error and every record whose attempts are a number of 32 bits: a deferred
-- record is tried again at least one and less than 257 seconds later, and its attempts are one more,
-- or 0 after the largest number of 32 bits.
pub defer-next_attempt_ms :
    (now : ℕ) (r : SpoolRecord) (error : Text)
    → r.attempts < 2 ^ 32
    → (now + 1000 ≤ (defer now r error).next_attempt_ms)
      × ((defer now r error).next_attempt_ms ≤ now + 256999)
      × ((defer now r error).attempts ≡ (if r.attempts == 4294967295 then 0 else r.attempts + 1))
unfolding defer
defer-next_attempt_ms now r error narrow =
    let (high, low) = small_power (min ((r.attempts + 1) % 2 ^ 32) 8) (omega arith) in
    (omega arith, omega arith, ground arith)

module _ (size : SpoolRecord → ℕ) where
  named :
      (updated : Map SpoolRecord) (id : Text)
      → All (λ kv. text_eq kv.1.event_id kv.0 ≡ true) updated
      → (r : SpoolRecord) → r.event_id ≡ id
      → (unwrap_or (get updated id) r).event_id ≡ id
  unfolding get
  named [] id h r e = e
  named ((k, u) ∷ updated) id h r e = elim (Bool-cases (text_eq k id)) [
    | inl same ↦ rw same ((text_eq_iff u.event_id k).0 (h.0) ∙ (text_eq_iff k id).0 same)
    | inr other ↦ rw other (named updated id (h.1) r e)
  ]

  kept-lacks :
      (delivered : TextSet) (updated : Map SpoolRecord) (dead records : List SpoolRecord)
      → All (λ kv. text_eq kv.1.event_id kv.0 ≡ true) updated
      → All
          (λ r. member (map (λ d. d.event_id) dead) r.event_id ≡ false)
          (kept size delivered updated dead records)
  unfolding kept
  kept-lacks delivered updated dead [] h = tt
  kept-lacks delivered updated dead (r ∷ records) h =
      elim (Bool-cases
        (member delivered r.event_id || member (map (λ d. d.event_id) dead) r.event_id)) [
          | inl gone ↦ rw gone (kept-lacks delivered updated dead records h)
          | inr stays ↦ rw stays (
            ap (member (map (λ d. d.event_id) dead)) (named updated r.event_id h r refl)
                ∙ ((||-false (member delivered r.event_id) _).0 stays).1,
            kept-lacks delivered updated dead records h,
          )
        ]

  All-end :
      (P : SpoolRecord → Type 0) (dropped left : List SpoolRecord)
      → All P (dropped ++ left)
      → All P left
  All-end P [] left h = h
  All-end P (r ∷ dropped) left h = All-end P dropped left (h.1)

  -- Where the spool is read and written but the file of dead letters cannot be written, and
  -- the updated records are kept under their own ids: compacting returns success, the file of dead
  -- letters is what it was, and no record that was to become a dead letter is left in the spool.
  pub reconcile-dead :
      (f : Files) (cause : Text) (delivered : TextSet) (updated : Map SpoolRecord)
      (dead records : List SpoolRecord)
      → All (λ kv. text_eq kv.1.event_id kv.0 ≡ true) updated
      → f.spool ≡ ok records
      → let after = reconcile size none (some cause) f delivered updated dead in
        (after.1 ≡ ok tt)
        × (after.0.dead ≡ f.dead)
        × (left : List SpoolRecord) × (after.0.spool ≡ ok left)
        × All (λ r. member (map (λ d. d.event_id) dead) r.event_id ≡ false) left
  unfolding reconcile append_dead
  reconcile-dead f cause delivered updated dead records h read =
      let (end, few, small) =
        enforce_spool_bounds_lem size (kept size delivered updated dead records) max_spool_records
          max_spool_bytes in
      rw (read) (
        refl,
        unwritten dead f.dead,
        (enforce_spool_bounds size (kept size delivered updated dead records) max_spool_records
            max_spool_bytes).0,
        refl,
        All-end (λ r. member (map (λ d. d.event_id) dead) r.event_id ≡ false) end.dropped _
            (rw (← end.split) (kept-lacks delivered updated dead records h)),
      )
    where
      unwritten :
          (dead : List SpoolRecord) (contents : Contents)
          → append_dead size (some cause) dead contents ≡ contents
      unwritten [] contents = refl
      unwritten (d ∷ dead) (ok old) = refl
      unwritten (d ∷ dead) (err e) = refl
