-- ===== src/Shield/Outbox/Drain.antt =====
-- outbox.rs: `enqueue` and `drain`.
use project_black_monolith.Prelude.{
  ℕ, ◌+◌, ◌≡◌, refl, inl, inr, Bool, false, not, ◌&&◌, Option, none, some, List, [], ◌∷◌, ◌++◌,
  Result, ok, err, ltb, leb, if◌then◌else◌, Bool-cases,
}
use project_black_monolith.Text.{Text, codes, text_eq, is_empty}
use project_black_monolith.Text.Search.{All}
use project_black_monolith.Map.{Map, insert, TextSet, add}
use project_black_monolith.Boundary.Event.{decimal}
use project_black_monolith.Shield.Outbox.{
  max_attempts, max_spool_records, max_spool_bytes, SpoolRecord, is_permanent, defer, Contents,
  Files, enforce_spool_bounds, reconcile,
}

-- What one attempt makes of a record
pub data Outcome : Type 0 where
  delivered : Outcome
  dead_letter retried : SpoolRecord → Outcome

-- A record that was deferred goes on, or has had its attempts.
unfoldable judge : SpoolRecord → Outcome
judge r = if leb max_attempts r.attempts then dead_letter r else retried r

abbrev http_status : ℕ → Text
http_status status = codes "http " ++ decimal status

-- `now` is the clock's when the record is deferred.
unfoldable settle : ℕ → SpoolRecord → Result Text ℕ → Outcome
unfolding is_permanent judge defer
settle now r (err e) = judge (defer now r e)
settle now r (ok status) =
    if leb 200 status && ltb status 300
    then delivered
    else if is_permanent status
    then dead_letter (record r { last_error = some (http_status status) })
    else judge (defer now r (http_status status))

pub record Drained : Type 0 where
  pub sent : TextSet
  pub updated : Map SpoolRecord
  pub dead : List SpoolRecord

abbrev note_outcome : Drained → Text → Outcome → Drained
note_outcome d id delivered = record d { sent = add d.sent id }
note_outcome d id (dead_letter r) = record d { dead = d.dead ++ r ∷ [] }
note_outcome d id (retried r) = record d { updated = insert d.updated r.event_id r }

-- What meets the record in one place of the list: whether the budget is used up, the dashboard's
-- answer, and the instant of a deferral.
pub record Visit : Type 0 where
  pub late : Bool
  pub answer : Result Text ℕ
  pub instant : ℕ

abbrev pub nothing : Drained
nothing = record { sent = []; updated = []; dead = [] }

abbrev is_nothing : Drained → Bool
is_nothing d = is_empty d.sent && is_empty d.updated && is_empty d.dead

module _ (visit : ℕ → Visit) (force : Bool) (now : ℕ) where
  unfoldable pub drain_loop : (place : ℕ) → Drained → List SpoolRecord → Drained
  unfolding settle insert add
  drain_loop place d [] = d
  drain_loop place d (r ∷ pending) =
      if (visit place).late
      then d
      else if not force && ltb now r.next_attempt_ms
      then drain_loop (place + 1) d pending
      else drain_loop (place + 1)
          (note_outcome d r.event_id (settle (visit place).instant r (visit place).answer)) pending

  -- `spool` is what the drain reads first, `f` the files when it compacts them.
  unfoldable pub drain :
      (SpoolRecord → ℕ) → (spool_fails dead_fails : Option Text) → Contents → Files → Files
  unfolding drain_loop reconcile is_empty
  drain size spool_fails dead_fails (err e) f = f
  drain size spool_fails dead_fails (ok pending) f =
      let d = drain_loop 0 nothing pending in
      if is_nothing d
      then f
      else (reconcile size spool_fails dead_fails f d.sent d.updated d.dead).0

-- append_record_bounded: `existing_len` is the length of the file, and the outcome of writing is given;
-- reading skips a line that was torn.
module _ (size : SpoolRecord → ℕ) where
  abbrev appended : Option Text → SpoolRecord → Contents → Contents × Result Text (Unit {0})
  appended (some e) r spool = (spool, err e)
  appended none r (err a) = (err a, ok tt)
  appended none r (ok records) = (ok (records ++ r ∷ []), ok tt)

  abbrev rewritten : Option Text → SpoolRecord → Contents → Contents × Result Text (Unit {0})
  rewritten fails r (err e) = (err e, err e)
  rewritten (some e) r (ok records) = (ok records, err e)
  rewritten none r (ok records) = (
    ok (enforce_spool_bounds size (records ++ r ∷ []) max_spool_records max_spool_bytes).0,
    ok tt,
  )

  unfoldable append_record_bounded :
      (existing_len : ℕ) → Option Text → SpoolRecord → Contents → Contents × Result Text (Unit {0})
  unfolding enforce_spool_bounds
  append_record_bounded existing_len fails r spool =
      if ltb max_spool_bytes (existing_len + size r)
      then rewritten fails r spool
      else appended fails r spool

  unfoldable enqueue :
      (now existing_len : ℕ)
      → Option Text
      → (event_id payload : Text) → Contents
      → Contents × Result Text (Unit {0})
  unfolding append_record_bounded
  enqueue now existing_len fails event_id payload spool =
      append_record_bounded existing_len fails
        (record {
          event_id = event_id;
          payload = payload;
          attempts = 0;
          next_attempt_ms = now;
          last_error = none;
          created_ms = now;
        })
        spool

-- A record that is to be tried again under its own id, with attempts left
abbrev pub IsRetry : Text × SpoolRecord → Type 0
IsRetry (id, r) = (r.event_id ≡ id) × (leb max_attempts r.attempts ≡ false)

All-insert :
    (updated : Map SpoolRecord) (id : Text) (r : SpoolRecord)
    → All IsRetry updated
    → IsRetry (id, r)
    → All IsRetry (insert updated id r)
unfolding insert
All-insert [] id r h k = (k, tt)
All-insert ((j, u) ∷ updated) id r h k = elim (Bool-cases (text_eq j id)) [
  | inl same ↦ rw same (k, h.1)
  | inr other ↦ rw other (h.0, All-insert updated id r (h.1) k)
]

judge-IsRetry :
    (d : Drained) (id : Text) (r : SpoolRecord)
    → All IsRetry d.updated
    → All IsRetry (note_outcome d id (judge r)).updated
unfolding judge
judge-IsRetry d id r h = elim (Bool-cases (leb max_attempts r.attempts)) [
  | inl spent ↦ rw spent h
  | inr more ↦ rw more (All-insert d.updated r.event_id r h (refl, more))
]

settle-IsRetry :
    (d : Drained) (id : Text) (now : ℕ) (r : SpoolRecord) (answer : Result Text ℕ)
    → All IsRetry d.updated
    → All IsRetry (note_outcome d id (settle now r answer)).updated
unfolding settle
settle-IsRetry d id now r (err e) h = judge-IsRetry d id (defer now r e) h
settle-IsRetry d id now r (ok status) h = elim (Bool-cases (leb 200 status && ltb status 300)) [
  | inl accepted ↦ rw accepted h
  | inr refused ↦ elim (Bool-cases (is_permanent status)) [
    | inl permanent ↦ rw (refused, permanent) h
    | inr passing ↦ rw (refused, passing) (judge-IsRetry d id (defer now r (http_status status)) h)
  ]
]

-- For every budget, answers of the dashboard, clock and list of pending records, where the records
-- collected so far to be tried again are kept under their own ids and have attempts left: so are
-- those after the drain.
pub drain_loop-IsRetry :
    (visit : ℕ → Visit) (force : Bool) (now place : ℕ) (d : Drained) (pending : List SpoolRecord)
    → All IsRetry d.updated
    → All IsRetry (drain_loop visit force now place d pending).updated
unfolding drain_loop
drain_loop-IsRetry visit force now place d [] h = h
drain_loop-IsRetry visit force now place d (r ∷ pending) h = elim (Bool-cases (visit place).late) [
  | inl over ↦ rw over h
  | inr on ↦ elim (Bool-cases (not force && ltb now r.next_attempt_ms)) [
    | inl early ↦ rw (on, early) (drain_loop-IsRetry visit force now (place + 1) d pending h)
    | inr due ↦
        rw (on, due)
          (drain_loop-IsRetry visit force now (place + 1)
            (note_outcome d r.event_id (settle (visit place).instant r (visit place).answer))
            pending (settle-IsRetry d r.event_id (visit place).instant r (visit place).answer h))
  ]
]
