-- ===== src/Shield/Proxy/Queues.antt =====
-- proxy.rs: the queues of requests that wait stay bounded, and find what was put in them.
use project_black_monolith.Prelude.{
  suc, ◌≤◌, ◌≡◌, ◌≢◌, refl, sym, ◌∙◌, inl, inr, some, List, [], ◌∷◌, ◌++◌, Bool-cases, arith,
  length, length-append, ltb,
}
use project_black_monolith.Text.{Text, text_eq, text_eq_iff, text_eq_refl}
use project_black_monolith.Text.Search.{All, All-map, All-append}
use project_black_monolith.Shield.Proxy.{remove_key, pop_excess, track, find_key, take_key}

module _ {A : Type 0} (key_of : A → Text) where
  -- No two entries have the same key.
  abbrev HasDistinctKeys : List A → Type 0
  HasDistinctKeys [] = Unit
  HasDistinctKeys (p ∷ pending) = All (λ q. key_of p ≢ key_of q) pending × HasDistinctKeys pending

  -- At most 1024 entries, no two with the same key
  abbrev pub IsQueue : List A → Type 0
  IsQueue pending = (length pending ≤ 1024) × HasDistinctKeys pending

  remove_key-All :
      (P : A → Type 0) (pending : List A) (key : Text)
      → All P pending
      → All P (remove_key key_of pending key)
  unfolding remove_key
  remove_key-All P [] key h = tt
  remove_key-All P (p ∷ pending) key h = elim (Bool-cases (text_eq (key_of p) key)) [
    | inl here ↦ rw here (h.1)
    | inr other ↦ rw other (h.0, remove_key-All P pending key (h.1))
  ]

  remove_key-IsQueue :
      (pending : List A) (key : Text)
      → HasDistinctKeys pending
      → HasDistinctKeys (remove_key key_of pending key)
        × All (λ q. key_of q ≢ key) (remove_key key_of pending key)
        × (length (remove_key key_of pending key) ≤ length pending)
  unfolding remove_key
  remove_key-IsQueue [] key h = (tt, tt, omega arith)
  remove_key-IsQueue (p ∷ pending) key h = elim (Bool-cases (text_eq (key_of p) key)) [
    | inl here ↦
        let same : key_of p ≡ key = (text_eq_iff (key_of p) key).0 here in
        let others : All (λ q. key_of q ≢ key) pending =
          All-map (λ q. key_of p ≢ key_of q) (λ q. key_of q ≢ key) pending
            (λ q differ e. differ (same ∙ sym e)) (h.0) in
        rw here (h.1, others, omega arith)
    | inr other ↦
        let (distinct, gone, shorter) = remove_key-IsQueue pending key (h.1) in
        let differ : key_of p ≢ key = λ e. cc (other, (text_eq_iff (key_of p) key).1 e) in
        let apart = remove_key-All (λ q. key_of p ≢ key_of q) pending key (h.0) in
        rw other ((apart, distinct), (differ, gone), omega arith)
  ]

  HasDistinctKeys-append :
      (pending : List A) (entry : A)
      → HasDistinctKeys pending
      → All (λ q. key_of q ≢ key_of entry) pending
      → HasDistinctKeys (pending ++ entry ∷ [])
  HasDistinctKeys-append [] entry distinct new = (tt, tt)
  HasDistinctKeys-append (p ∷ pending) entry distinct new = (
    All-append (λ q. key_of p ≢ key_of q) pending (entry ∷ []) (distinct.0) (new.0, tt),
    HasDistinctKeys-append pending entry (distinct.1) (new.1),
  )

  -- The entry is at the end, and the front goes if there are too many.
  pushed :
      (pending : List A) (entry : A)
      → length pending ≤ 1024
      → HasDistinctKeys pending
      → All (λ q. key_of q ≢ key_of entry) pending
      → (kept : List A) × ((pop_excess key_of (pending ++ entry ∷ [])).0 ≡ kept ++ entry ∷ [])
        × (length kept ≤ 1023)
        × HasDistinctKeys kept
        × All (λ q. key_of q ≢ key_of entry) kept
  pushed [] entry short distinct new = ([], refl, omega arith, tt, tt)
  pushed (p ∷ pending) entry short distinct new =
      let size = length-append pending (entry ∷ []) in
      elim (Bool-cases (ltb 1024 (suc (length (pending ++ entry ∷ []))))) [
        | inl over ↦ (pending, rw over refl, omega arith, distinct.1, new.1)
        | inr fits ↦ (p ∷ pending, rw fits refl, ground arith, distinct, new)
      ]

  tracked :
      (pending : List A) (entry : A)
      → IsQueue pending
      → (kept : List A) × ((track key_of pending entry).0 ≡ kept ++ entry ∷ [])
        × (length kept ≤ 1023)
        × HasDistinctKeys kept
        × All (λ q. key_of q ≢ key_of entry) kept
  unfolding track
  tracked pending entry h =
      let (distinct, gone, shorter) = remove_key-IsQueue pending (key_of entry) (h.1) in
      pushed (remove_key key_of pending (key_of entry)) entry (omega (arith, h.0)) distinct gone

  pub track-IsQueue :
      (pending : List A) (entry : A) → IsQueue pending → IsQueue ((track key_of pending entry).0)
  track-IsQueue pending entry h =
      let (kept, e, short, distinct, new) = tracked pending entry h in
      let size = length-append kept (entry ∷ []) in
      rw e (omega arith, HasDistinctKeys-append kept entry distinct new)

  find_key-last :
      (kept : List A) (entry : A)
      → All (λ q. key_of q ≢ key_of entry) kept
      → find_key key_of (kept ++ entry ∷ []) (key_of entry) ≡ some entry
  unfolding find_key
  find_key-last [] entry new = rw (text_eq_refl (key_of entry)) refl
  find_key-last (p ∷ kept) entry new = elim (Bool-cases (text_eq (key_of p) (key_of entry))) [
    | inl same ↦ absurd (new.0 ((text_eq_iff (key_of p) (key_of entry)).0 same))
    | inr other ↦ rw other (find_key-last kept entry (new.1))
  ]

  -- A request that was noted is found by the key of its response.
  track-find_key :
      (pending : List A) (entry : A)
      → IsQueue pending
      → find_key key_of ((track key_of pending entry).0) (key_of entry) ≡ some entry
  track-find_key pending entry h =
      let (kept, e, _, _, new) = tracked pending entry h in rw e (find_key-last kept entry new)

  pub take_key-IsQueue :
      (pending : List A) (key : Text) → IsQueue pending → IsQueue ((take_key key_of pending key).0)
  unfolding take_key
  take_key-IsQueue pending key h =
      let (distinct, _, shorter) = remove_key-IsQueue pending key (h.1) in
      (omega (arith, h.0), distinct)
