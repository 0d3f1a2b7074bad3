-- ===== src/Shield/Baseline/Revocation.antt =====
-- fingerprint.rs: `revoke`, `approve` and the merge of a reload.
use project_black_monolith.Prelude.{
  ℕ, ◌≡◌, refl, inl, inr, arith, true, false, not, ◌&&◌, ◌||◌, Option, none, some, ok, Option-cases,
  if◌then◌else◌,
}
use project_black_monolith.Text.{Text, text_eq, text_eq_iff}
use project_black_monolith.Map.{
  get, contains_key, insert, remove, member, add, merge_where, or_else, get-insert, get-remove,
  get-or_insert, get-merge_where, member-add, member-discard, member-extend, member-retain,
}
use project_black_monolith.Shield.Baseline.{
  BaselineEntry, BaselineStore, contains, is_revoked, approve, revoke,
}
use project_black_monolith.Shield.Baseline.Sync.{
  Crypto, Disk, file, merge_reloaded, load, reload_if_changed, same_digest, finish_reload,
}

-- For every store and every two names: after the first is revoked, the second has a trusted baseline
-- exactly if it had one and is not the first; and the answer of `revoke` is whether there was an entry
-- to revoke, in which case the name is recorded as revoked.
pub revoke-contains :
    (s : BaselineStore) (name j : Text)
    → (contains (revoke s name).0 j ≡ contains s j && not (text_eq name j))
      × ((revoke s name).1 ≡ contains_key s.tools name)
      × (is_revoked (revoke s name).0 j ≡ is_revoked s j || ((revoke s name).1 && text_eq name j))
unfolding contains revoke is_revoked
revoke-contains s name j = elim (Option-cases (get s.tools name)) [
  | inl absent ↦ rw (absent) (ground (arith, text_eq_iff name j, absent))
  | inr (e, present) ↦
      rw
        (
          present,
          get-remove s.tools name j,
          member-discard s.unpersisted name j,
          member-add s.revoked name j,
        )
        (ground (arith, text_eq_iff name j))
]

-- Where a name has a trusted entry and none waits for approval under it, revoking it and then
-- approving it gives every name the trusted entry and the pending entry it had, and every other name
-- keeps its revocation; the name itself is no longer revoked.
pub approve-revoke :
    (s : BaselineStore) (name : Text) {e : BaselineEntry} (j : Text)
    → get s.tools name ≡ some e
    → get s.pending name ≡ none
    → let t = (approve (revoke s name).0 name).0 in
      (get t.tools j ≡ get s.tools j)
      × (get t.pending j ≡ get s.pending j)
      × (is_revoked t j ≡ not (text_eq name j) && is_revoked s j)
unfolding approve revoke is_revoked
approve-revoke s name {e} j trusted free = rw (trusted) (
    rw (get-or_insert s.pending name e name, (text_eq_iff name name).1 refl, free)
      (
        rw (get-insert (remove s.tools name) name e j, get-remove s.tools name j)
            (ground (arith, text_eq_iff name j)),
        rw (get-remove (insert s.pending name e) name j, get-insert s.pending name e j)
            (ground (arith, text_eq_iff name j)),
        rw (member-discard (add s.revoked name) name j, member-add s.revoked name j)
            (ground (arith, text_eq_iff name j)),
      ))

-- For every two stores and every name: after the reload of a changed file into a store with unsaved
-- changes, the name's trusted entry is the one of the file, else the one of the store; its pending
-- entry is the one of the file, else the one of the store unless the name is trusted by now; it is
-- revoked exactly if either side has it revoked; and its registration counts as not yet written
-- exactly if it did and the file has no entry for it.
merge_reloaded_lem :
    (s reloaded : BaselineStore) (j : Text)
    → let t = merge_reloaded s reloaded in
      (get t.tools j ≡ or_else (get reloaded.tools j) (get s.tools j))
      × (get t.pending j
          ≡ or_else (get reloaded.pending j) (
              if contains_key reloaded.tools j || contains_key s.tools j
              then none
              else get s.pending j))
      × (is_revoked t j ≡ is_revoked s j || is_revoked reloaded j)
      × (member t.unpersisted j ≡ not (contains_key reloaded.tools j) && member s.unpersisted j)
unfolding merge_reloaded is_revoked
merge_reloaded_lem s reloaded j = (
  merged,
  rw
      (
        get-merge_where
            (λ name. not (contains_key (merge_where (λ _. true) reloaded.tools s.tools) name))
            reloaded.pending s.pending j,
        merged,
      )
      (ground (
        arith,
        Option-cases (get reloaded.tools j),
        Option-cases (get s.tools j),
        Option-cases (get reloaded.pending j),
        Option-cases (get s.pending j),
      )),
  member-extend reloaded.revoked s.revoked j,
  member-retain (λ name. not (contains_key reloaded.tools name)) s.unpersisted j,
)
  where
    merged :
        get (merge_where (λ _. true) reloaded.tools s.tools) j
        ≡ or_else (get reloaded.tools j) (get s.tools j)
    merged = get-merge_where (λ _. true) reloaded.tools s.tools j

module _ (c : Crypto) where
  -- Where a store has unsaved changes and the file has changed and loads, every name that the store
  -- has revoked is still revoked after `reload_if_changed`, whatever the file says of it: so an approval that the
  -- operator wrote to the file meanwhile does not lift the revocation.
  pub reload_if_changed-is_revoked :
      (s reloaded : BaselineStore) (modified : Option ℕ) (raw : Text) (again : Disk) (j : Text)
      → s.dirty ≡ true
      → same_digest s.disk_digest (c.sha256 raw) ≡ false
      → load c s.hmac_key again ≡ ok reloaded
      → is_revoked (reload_if_changed c s (file modified raw) again).0 j
        ≡ is_revoked s j || is_revoked reloaded j
  unfolding reload_if_changed finish_reload merge_reloaded is_revoked
  reload_if_changed-is_revoked s reloaded modified raw again j unsaved changed loaded =
      rw (changed, loaded, unsaved) (member-extend reloaded.revoked s.revoked j)
