-- ===== src/Shield/Outbox/Replay.antt =====
-- outbox.rs: what replaying dead letters and compacting the spool do to the two files.
use project_black_monolith.Prelude.{
  ℕ, ◌+◌, ◌≤◌, ◌≡◌, refl, ap, inl, inr, false, Option, none, some, List, [], ◌∷◌, ◌++◌, map, ok,
  err, ltb, ltb→le, length, length-append, length-map, arith, Bool-cases, ||-false,
}
use project_black_monolith.Text.{Text}
use project_black_monolith.Shield.Outbox.{
  SpoolRecord, Files, Contents, max_spool_records, max_spool_bytes, revived, selected, left_behind,
  over_bound, replay_dead_letters, replay_read, replay_chosen, replay_into, written_back,
  enforce_spool_bounds, bounded,
}
use project_black_monolith.Shield.Outbox.Bounds.{enforce_spool_bounds-within, bytes}

module _ (size : SpoolRecord → ℕ) (record_tenant : SpoolRecord → Option Text) (now : ℕ)
    (bound_error : Text) where
  written_back-dead :
      (spool_fails dead_fails : Option Text) (f : Files) (spool left : List SpoolRecord) (n : ℕ)
      (e : Text)
      → (written_back size record_tenant spool_fails dead_fails f spool left n).1 ≡ err e
      → (written_back size record_tenant spool_fails dead_fails f spool left n).0.dead ≡ f.dead
  written_back-dead (some a) dead_fails f spool left n e h = refl
  written_back-dead none (some a) f spool left n e h = refl
  written_back-dead none none f spool left n e h = cc

  replay_into-dead :
      (spool_fails dead_fails : Option Text) (f : Files) (chosen left : List SpoolRecord)
      (contents : Contents) (e : Text)
      → (replay_into size record_tenant now bound_error spool_fails dead_fails f chosen left
          contents).1
        ≡ err e
      → (replay_into size record_tenant now bound_error spool_fails dead_fails f chosen left
          contents).0.dead
        ≡ f.dead
  replay_into-dead spool_fails dead_fails f chosen left (err a) e h = refl
  replay_into-dead spool_fails dead_fails f chosen left (ok pending) e h =
      elim (Bool-cases (over_bound size record_tenant pending chosen)) [
        | inl full ↦ rw full
        | inr fits ↦
            rw fits
              (written_back-dead spool_fails dead_fails f _ left (length chosen) e (rw fits at h))
      ]

  replay_chosen-dead :
      (spool_fails dead_fails : Option Text) (f : Files) (chosen left : List SpoolRecord) (e : Text)
      → (replay_chosen size record_tenant now bound_error spool_fails dead_fails f chosen left).1
        ≡ err e
      → (replay_chosen size record_tenant now bound_error spool_fails dead_fails f chosen
          left).0.dead
        ≡ f.dead
  replay_chosen-dead spool_fails dead_fails f [] left e h = refl
  replay_chosen-dead spool_fails dead_fails f (r ∷ chosen) left e h =
      replay_into-dead spool_fails dead_fails f (r ∷ chosen) left f.spool e h

  replay_read-dead :
      (spool_fails dead_fails : Option Text) (f : Files) (tenant : Option Text)
      (contents : Contents) (e : Text)
      → (replay_read size record_tenant now bound_error spool_fails dead_fails f tenant contents).1
        ≡ err e
      → (replay_read size record_tenant now bound_error spool_fails dead_fails f tenant
          contents).0.dead
        ≡ f.dead
  replay_read-dead spool_fails dead_fails f tenant (err a) e h = refl
  replay_read-dead spool_fails dead_fails f tenant (ok dead) e h =
      replay_chosen-dead spool_fails dead_fails f (selected size record_tenant tenant dead)
        (left_behind size record_tenant tenant dead) e h

  -- For every two files and every scope: where a replay of dead letters fails, whatever the reason,
  -- the file of dead letters is what it was.
  pub replay_dead_letters-dead :
      (spool_fails dead_fails : Option Text) (f : Files) (tenant : Option Text) (e : Text)
      → (replay_dead_letters size record_tenant now bound_error spool_fails dead_fails f tenant).1
        ≡ err e
      → (replay_dead_letters size record_tenant now bound_error spool_fails dead_fails f
          tenant).0.dead
        ≡ f.dead
  unfolding replay_dead_letters
  replay_dead_letters-dead spool_fails dead_fails f tenant e h =
      replay_read-dead spool_fails dead_fails f tenant f.dead e h

  few_enough :
      (pending chosen : List SpoolRecord)
      → over_bound size record_tenant pending chosen ≡ false
      → length (pending ++ map (revived size now) chosen) ≤ max_spool_records
  unfolding over_bound
  few_enough pending chosen h =
      let few = (||-false (ltb max_spool_records (length pending + length chosen)) _).0 h in
      let le = ltb→le max_spool_records (length pending + length chosen) (few.0) in
      let e = length-append pending (map (revived size now) chosen) in
      let m = length-map chosen (revived size now) in omega arith

  -- Where both files are read, some dead letter is in the scope, the spool has room for the chosen ones
  -- before and after they are reset, and both files are written: the chosen dead letters stand reset
  -- at the end of the spool, the others stay dead, no pending record is lost, and their number is
  -- returned.
  pub replay_dead_letters-moves :
      (f : Files) (tenant : Option Text) (dead pending : List SpoolRecord) (r : SpoolRecord)
      (chosen : List SpoolRecord)
      → f.dead ≡ ok dead
      → f.spool ≡ ok pending
      → selected size record_tenant tenant dead ≡ r ∷ chosen
      → over_bound size record_tenant pending (r ∷ chosen) ≡ false
      → bytes size (pending ++ map (revived size now) (r ∷ chosen)) ≤ max_spool_bytes
      → replay_dead_letters size record_tenant now bound_error none none f tenant ≡ (
        record {
          spool = ok (pending ++ map (revived size now) (r ∷ chosen));
          dead = ok (left_behind size record_tenant tenant dead);
        },
        ok (length (r ∷ chosen)),
      )
  unfolding replay_dead_letters enforce_spool_bounds
  replay_dead_letters-moves f tenant dead pending r chosen read_dead read_spool found room fits =
      let whole = pending ++ map (revived size now) (r ∷ chosen) in
      let same : bounded size whole max_spool_records max_spool_bytes ≡ whole =
        ap (λ p. p.0)
          (enforce_spool_bounds-within size whole max_spool_records max_spool_bytes
            (few_enough pending (r ∷ chosen) room) fits) in
      rw (read_dead, found, read_spool, room) (rw (same) refl)
