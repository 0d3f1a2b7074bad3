-- ===== src/Shield/Outbox/Bounds.antt =====
-- outbox.rs: `enforce_spool_bounds` keeps the newest records that fit.
use project_black_monolith.Prelude.{
  ℕ, ◌+◌, ◌-◌, ◌≤◌, ◌≡◌, refl, sym, ap, ◌∙◌, inl, inr, List, [], ◌∷◌, ◌++◌, map, ltb, ltb→le,
  length, take, drop, take-append-drop, length-drop, length-append, arith, Bool-cases,
}
use mathlib.Core.List.{append_assoc}
use project_black_monolith.Shield.Outbox.{
  SpoolRecord, sum, drop_bytes, bounded, enforce_spool_bounds,
}

sum-append : (xs ys : List ℕ) → sum (xs ++ ys) ≡ sum xs + sum ys
unfolding sum
sum-append [] ys = omega arith
sum-append (n ∷ xs) ys = let rest = sum-append xs ys in omega arith

-- One list is the end of another, `n` elements shorter.
pub record IsEnd (records left : List SpoolRecord) (n : ℕ) : Type 0 where
  pub dropped : List SpoolRecord
  pub split : records ≡ dropped ++ left
  pub counted : length dropped ≡ n

module _ (size : SpoolRecord → ℕ) where
  abbrev pub bytes : List SpoolRecord → ℕ
  bytes records = sum (map size records)

  drop_bytes-small :
      (max_bytes total : ℕ) (records : List SpoolRecord)
      → total ≡ bytes records
      → bytes (drop_bytes size max_bytes total records) ≤ max_bytes
  unfolding drop_bytes sum
  drop_bytes-small max_bytes total [] h = omega arith
  drop_bytes-small max_bytes total (r ∷ records) h = elim (Bool-cases (ltb max_bytes total)) [
    | inl large ↦ rw large (drop_bytes-small max_bytes (total - size r) records (omega arith))
    | inr small ↦ rw small (let le = ltb→le max_bytes total small in omega arith)
  ]

  drop_bytes-end :
      (max_bytes total : ℕ) (records : List SpoolRecord)
      → (dropped : List SpoolRecord) × (records
          ≡ dropped ++ drop_bytes size max_bytes total records)
  unfolding drop_bytes
  drop_bytes-end max_bytes total [] = ([], refl)
  drop_bytes-end max_bytes total (r ∷ records) = elim (Bool-cases (ltb max_bytes total)) [
    | inl large ↦
        let (dropped, e) = drop_bytes-end max_bytes (total - size r) records in
        (r ∷ dropped, rw large (ap (λ t. r ∷ t) e))
    | inr small ↦ ([], rw small)
  ]

  -- For every list of records and every two bounds: what is left is the end of the list, the returned
  -- number of records is missing at its front, and it has at most `max_records` records and
  -- `max_bytes` bytes.
  pub enforce_spool_bounds_lem :
      (records : List SpoolRecord) (max_records max_bytes : ℕ)
      → let left = (enforce_spool_bounds size records max_records max_bytes).0 in
        IsEnd records left (enforce_spool_bounds size records max_records max_bytes).1
        × (length left ≤ max_records)
        × (bytes left ≤ max_bytes)
  unfolding enforce_spool_bounds bounded
  enforce_spool_bounds_lem records max_records max_bytes =
      let n = length records - max_records in
      let newest = drop n records in
      let (dropped, e) = drop_bytes-end max_bytes (bytes newest) newest in
      let left = drop_bytes size max_bytes (bytes newest) newest in
      let split : records ≡ (take n records ++ dropped) ++ left =
        sym (take-append-drop n records)
        ∙ ap (λ t. take n records ++ t) e
        ∙ sym (append_assoc (take n records) dropped left) in
      let counted = ap length split ∙ length-append (take n records ++ dropped) left in
      let few = ap length e ∙ length-append dropped left in
      let newest_length = length-drop n records in
      (
        record { dropped = take n records ++ dropped; split = split; counted = omega arith },
        omega arith,
        drop_bytes-small max_bytes (bytes newest) newest refl,
      )

  within :
      (max_bytes total : ℕ) (records : List SpoolRecord)
      → total ≤ max_bytes
      → drop_bytes size max_bytes total records ≡ records
  unfolding drop_bytes
  within max_bytes total [] h = refl
  within max_bytes total (r ∷ records) h = elim (Bool-cases (ltb max_bytes total)) [
    | inl large ↦ absurd (ground (arith, large))
    | inr small ↦ rw small
  ]

  -- Where a list of records is within both bounds, it is left as it is, and nothing is dropped.
  pub enforce_spool_bounds-within :
      (records : List SpoolRecord) (max_records max_bytes : ℕ)
      → length records ≤ max_records
      → bytes records ≤ max_bytes
      → enforce_spool_bounds size records max_records max_bytes ≡ (records, 0)
  unfolding enforce_spool_bounds bounded
  enforce_spool_bounds-within records max_records max_bytes few small =
      let all : drop (length records - max_records) records ≡ records = rw (none_over few) refl in
      rw (all, within max_bytes (bytes records) records small)
        (ap (λ n. (records, n)) (omega arith))
    where
      none_over : length records ≤ max_records → length records - max_records ≡ 0
      none_over h = omega arith
