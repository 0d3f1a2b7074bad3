-- ===== src/Shield/Outbox.antt =====
-- outbox.rs: the spool of events that wait for delivery, and the dead letters. A file is what reading
-- it gives: its records, or an error.
pub mod Bounds
pub mod Replay
pub mod Delivery
pub mod Drain
mod Tests
use project_black_monolith.Prelude.{
  ℕ, zero, ◌+◌, ◌-◌, ◌*◌, ◌%◌, ◌^◌, min, Bool, true, false, not, ◌&&◌, ◌||◌, Option, none, some,
  List, [], ◌∷◌, ◌++◌, map, Result, ok, err, ltb, leb, ◌==◌, if◌then◌else◌, length, drop,
}
use project_black_monolith.Text.{Text, as_bytes, text_eq}
use project_black_monolith.Map.{Map, get, insert, unwrap_or, TextSet, member, add}

abbrev pub max_attempts : ℕ
max_attempts = 10

abbrev pub max_spool_records : ℕ
max_spool_records = 10000

abbrev pub max_spool_bytes : ℕ
max_spool_bytes = 16 * 1024 * 1024

pub record SpoolRecord : Type 0 where
  pub event_id : Text
  pub payload : Text
  pub attempts : ℕ
  pub next_attempt_ms : ℕ
  pub last_error : Option Text
  pub created_ms : ℕ

unfoldable pub is_permanent : ℕ → Bool
is_permanent status =
    status == 400 || status == 401 || status == 403 || status == 413 || status == 422

unfoldable pub sum : List ℕ → ℕ
sum [] = 0
sum (n ∷ ns) = n + sum ns

-- Backoff; `now` is the clock's. The attempts and the sum of the bytes are 32 bits wide, and wrap.
unfoldable pub defer : ℕ → SpoolRecord → Text → SpoolRecord
unfolding sum as_bytes
defer now r error =
    let attempts = (r.attempts + 1) % 2 ^ 32 in
    record r {
      attempts = attempts;
      next_attempt_ms =
          now + min (1000 * 2 ^ min attempts 8) 300000 + sum (as_bytes r.event_id) % 2 ^ 32 % 1000;
      last_error = some error;
    }

-- What reading a file gives.
abbrev pub Contents : Type 0
Contents = Result Text (List SpoolRecord)

pub record Files : Type 0 where
  pub spool : Contents
  pub dead : Contents

-- The length of a record's line with its newline (0 where it has no JSON), and the tenant that its
-- payload names.
module _ (size : SpoolRecord → ℕ) where
  -- The records behind those whose removal brings the bytes under the bound
  unfoldable pub drop_bytes : (max_bytes total : ℕ) → List SpoolRecord → List SpoolRecord
  drop_bytes max_bytes total [] = []
  drop_bytes max_bytes total (r ∷ records) =
      if ltb max_bytes total then drop_bytes max_bytes (total - size r) records else r ∷ records

  unfoldable pub bounded : List SpoolRecord → (max_records max_bytes : ℕ) → List SpoolRecord
  unfolding drop_bytes sum
  bounded records max_records max_bytes =
      let newest = drop (length records - max_records) records in
      drop_bytes max_bytes (sum (map size newest)) newest

  -- The records that are left, and how many were dropped
  unfoldable pub enforce_spool_bounds :
      List SpoolRecord → (max_records max_bytes : ℕ) → List SpoolRecord × ℕ
  unfolding bounded
  enforce_spool_bounds records max_records max_bytes =
      let left = bounded records max_records max_bytes in (left, length records - length left)

  -- A dead letter as it goes back to the spool
  abbrev pub revived : ℕ → SpoolRecord → SpoolRecord
  revived now r = record r {
    attempts = 0;
    next_attempt_ms = 0;
    last_error = none;
    created_ms = if r.created_ms == 0 then now else r.created_ms;
  }

  module _ (record_tenant : SpoolRecord → Option Text) where
    unfoldable in_scope : Option Text → SpoolRecord → Bool
    unfolding text_eq
    in_scope none r = true
    in_scope (some scope) r = elim (record_tenant r) [ none ↦ false | some t ↦ text_eq t scope ]

    unfoldable pub selected : Option Text → List SpoolRecord → List SpoolRecord
    unfolding in_scope
    selected tenant [] = []
    selected tenant (r ∷ records) =
        let rest = selected tenant records in if in_scope tenant r then r ∷ rest else rest

    unfoldable pub left_behind : Option Text → List SpoolRecord → List SpoolRecord
    unfolding in_scope
    left_behind tenant [] = []
    left_behind tenant (r ∷ records) =
        let rest = left_behind tenant records in if in_scope tenant r then rest else r ∷ rest

    unfoldable pub over_bound : List SpoolRecord → List SpoolRecord → Bool
    unfolding sum
    over_bound pending chosen =
        ltb max_spool_records (length pending + length chosen)
        || ltb max_spool_bytes (sum (map size (pending ++ chosen)))

    -- Both files are written; `fails` says whether and how the writing of the spool or of the dead
    -- letters fails.
    abbrev pub written_back :
        (spool_fails dead_fails : Option Text)
        → Files
        → (spool dead : List SpoolRecord) → ℕ
        → Files × Result Text ℕ
    written_back (some e) dead_fails f spool dead n = (f, err e)
    written_back none (some e) f spool dead n = (record f { spool = ok spool }, err e)
    written_back none none f spool dead n = (record { spool = ok spool; dead = ok dead }, ok n)

    abbrev pub replay_into :
        (now : ℕ) (bound_error : Text) (spool_fails dead_fails : Option Text)
        → Files
        → (chosen left : List SpoolRecord) → Contents
        → Files × Result Text ℕ
    replay_into now bound_error spool_fails dead_fails f chosen left (err e) = (f, err e)
    replay_into now bound_error spool_fails dead_fails f chosen left (ok pending) =
        if over_bound pending chosen
        then (f, err bound_error)
        else written_back spool_fails dead_fails f
            (enforce_spool_bounds (pending ++ map (revived now) chosen) max_spool_records
              max_spool_bytes).0
            left (length chosen)

    abbrev pub replay_chosen :
        (now : ℕ) (bound_error : Text) (spool_fails dead_fails : Option Text)
        → Files
        → (chosen left : List SpoolRecord) → Files × Result Text ℕ
    replay_chosen now bound_error spool_fails dead_fails f [] left = (f, ok 0)
    replay_chosen now bound_error spool_fails dead_fails f (r ∷ chosen) left =
        replay_into now bound_error spool_fails dead_fails f (r ∷ chosen) left f.spool

    abbrev pub replay_read :
        (now : ℕ) (bound_error : Text) (spool_fails dead_fails : Option Text)
        → Files
        → Option Text
        → Contents
        → Files × Result Text ℕ
    replay_read now bound_error spool_fails dead_fails f tenant (err e) = (f, err e)
    replay_read now bound_error spool_fails dead_fails f tenant (ok dead) =
        replay_chosen now bound_error spool_fails dead_fails f (selected tenant dead)
          (left_behind tenant dead)

    unfoldable pub replay_dead_letters :
        (now : ℕ) (bound_error : Text) (spool_fails dead_fails : Option Text)
        → Files
        → Option Text
        → Files × Result Text ℕ
    unfolding selected left_behind over_bound enforce_spool_bounds
    replay_dead_letters now bound_error spool_fails dead_fails f tenant =
        replay_read now bound_error spool_fails dead_fails f tenant f.dead

  -- append_dead_records_bounded
  abbrev with_dead : Option Text → List SpoolRecord → Contents → Contents
  with_dead fails new_dead (err e) = err e
  with_dead (some e) new_dead (ok records) = ok records
  with_dead none new_dead (ok records) =
      ok (enforce_spool_bounds (records ++ new_dead) max_spool_records max_spool_bytes).0

  unfoldable pub append_dead : Option Text → List SpoolRecord → Contents → Contents
  unfolding enforce_spool_bounds
  append_dead fails [] dead = dead
  append_dead fails (r ∷ new_dead) dead = with_dead fails (r ∷ new_dead) dead

  -- What a drain leaves in the spool
  unfoldable pub kept :
      TextSet → Map SpoolRecord → List SpoolRecord → List SpoolRecord → List SpoolRecord
  unfolding member get
  kept delivered updated dead [] = []
  kept delivered updated dead (r ∷ records) =
      let rest = kept delivered updated dead records in
      if member delivered r.event_id || member (map (λ d. d.event_id) dead) r.event_id
      then rest
      else unwrap_or (get updated r.event_id) r ∷ rest

  abbrev write_kept : Option Text → Files → List SpoolRecord → Files × Result Text (Unit {0})
  write_kept (some e) f records = (f, err e)
  write_kept none f records = (record f { spool = ok records }, ok tt)

  abbrev reconcile_read :
      (spool_fails dead_fails : Option Text)
      → Files
      → TextSet
      → Map SpoolRecord
      → List SpoolRecord
      → Contents
      → Files × Result Text (Unit {0})
  reconcile_read spool_fails dead_fails f delivered updated dead (err e) = (f, err e)
  reconcile_read spool_fails dead_fails f delivered updated dead (ok records) =
      write_kept spool_fails (record f { dead = append_dead dead_fails dead f.dead })
        (enforce_spool_bounds (kept delivered updated dead records) max_spool_records
          max_spool_bytes).0

  -- A failure to write the dead letters is not reported.
  unfoldable pub reconcile :
      (spool_fails dead_fails : Option Text)
      → Files
      → TextSet
      → Map SpoolRecord
      → List SpoolRecord
      → Files × Result Text (Unit {0})
  unfolding kept append_dead enforce_spool_bounds
  reconcile spool_fails dead_fails f delivered updated dead =
      reconcile_read spool_fails dead_fails f delivered updated dead f.spool
