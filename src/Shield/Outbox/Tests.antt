-- ===== src/Shield/Outbox/Tests.antt =====
-- The spool on concrete data.
use project_black_monolith.Prelude.{
  ℕ, ◌+◌, ◌≤◌, ◌≡◌, refl, arith, false, Option, none, some, List, [], ◌∷◌, map, ok, length,
  if◌then◌else◌, ◌==◌,
}
use project_black_monolith.Text.{Text, codes}
use project_black_monolith.Text.Search.{All}
use project_black_monolith.Map.{member}
use project_black_monolith.Shield.Outbox.{
  SpoolRecord, Files, defer, enforce_spool_bounds, replay_dead_letters, revived, left_behind,
  reconcile,
}
use project_black_monolith.Shield.Outbox.Bounds.{IsEnd, bytes, enforce_spool_bounds_lem}
use project_black_monolith.Shield.Outbox.Replay.{
  replay_dead_letters-dead, replay_dead_letters-moves,
}
use project_black_monolith.Shield.Outbox.Drain.{
  Visit, nothing, IsRetry, drain_loop, drain_loop-IsRetry,
}
use project_black_monolith.Shield.Outbox.Delivery.{defer-next_attempt_ms, reconcile-dead}

abbrev letter : Text → SpoolRecord
letter id = record {
  event_id = id;
  payload = codes "p";
  attempts = 3;
  next_attempt_ms = 50;
  last_error = some (codes "http 500");
  created_ms = 0;
}

abbrev size : SpoolRecord → ℕ
size _ = 10

abbrev tenant_of : SpoolRecord → Option Text
tenant_of r = some r.event_id

abbrev two : List SpoolRecord
two = letter (codes "a") ∷ letter (codes "b") ∷ []

abbrev files : Files
files = record { spool = ok (letter (codes "c") ∷ []); dead = ok two }

enforce_spool_bounds_lem_example :
    IsEnd two (enforce_spool_bounds size two 2 15).0 (enforce_spool_bounds size two 2 15).1
    × (length (enforce_spool_bounds size two 2 15).0 ≤ 2)
    × (bytes size (enforce_spool_bounds size two 2 15).0 ≤ 15)
enforce_spool_bounds_lem_example = enforce_spool_bounds_lem size two 2 15

replay_dead_letters-dead_example :
    (replay_dead_letters size tenant_of 9 (codes "full") none (some (codes "io")) files none).0.dead
    ≡ ok two
unfolding replay_dead_letters
replay_dead_letters-dead_example =
    replay_dead_letters-dead size tenant_of 9 (codes "full") none (some (codes "io")) files none
      (codes "io") refl

replay_dead_letters-moves_example :
    replay_dead_letters size tenant_of 9 (codes "full") none none files (some (codes "a")) ≡ (
      record {
        spool = ok (letter (codes "c") ∷ map (revived size 9) (letter (codes "a") ∷ []));
        dead = ok (left_behind size tenant_of (some (codes "a")) two);
      },
      ok 1,
    )
unfolding project_black_monolith.Shield.Outbox.selected
    project_black_monolith.Shield.Outbox.over_bound
replay_dead_letters-moves_example =
    replay_dead_letters-moves size tenant_of 9 (codes "full") files (some (codes "a")) two
      (letter (codes "c") ∷ []) (letter (codes "a")) [] refl refl refl refl (omega arith)

defer-next_attempt_ms_example :
    (100 + 1000 ≤ (defer 100 (letter (codes "a")) (codes "e")).next_attempt_ms)
    × ((defer 100 (letter (codes "a")) (codes "e")).next_attempt_ms ≤ 100 + 256999)
    × ((defer 100 (letter (codes "a")) (codes "e")).attempts
        ≡ (if 3 == 4294967295 then 0 else 3 + 1))
defer-next_attempt_ms_example =
    defer-next_attempt_ms 100 (letter (codes "a")) (codes "e") (omega arith)

abbrev refused : ℕ → Visit
refused _ = record { late = false; answer = ok 500; instant = 60 }

drain_loop-IsRetry_example : All IsRetry (drain_loop refused false 60 0 nothing two).updated
drain_loop-IsRetry_example = drain_loop-IsRetry refused false 60 0 nothing two tt

abbrev waiting : Files
waiting = record { spool = ok two; dead = ok [] }

reconcile-dead_example :
    let after = reconcile size none (some (codes "io")) waiting [] [] (letter (codes "a") ∷ []) in
    (after.1 ≡ ok tt)
    × (after.0.dead ≡ ok [])
    × (left : List SpoolRecord) × (after.0.spool ≡ ok left)
    × All (λ r. member (map (λ d. d.event_id) (letter (codes "a") ∷ [])) r.event_id ≡ false) left
reconcile-dead_example =
    reconcile-dead size waiting (codes "io") [] [] (letter (codes "a") ∷ []) two tt refl
