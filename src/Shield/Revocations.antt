-- ===== src/Shield/Revocations.antt =====
-- outbox.rs: the sessions that the dashboard revokes, as its responses say.
use project_black_monolith.Prelude.{
  ℕ, ◌≡◌, refl, ◌↔◌, ◌⊎◌, inl, inr, Bool, true, false, not, ◌&&◌, ◌||◌, Option, none, some, [],
  length, leb, if◌then◌else◌, Bool-cases, arith,
}
use project_black_monolith.Text.{
  Text, codes, text_eq_iff, trim, is_empty, any, is_control, byte_len,
}
use project_black_monolith.Map.{TextSet, member, add, member-add}
use project_black_monolith.Json.{
  Json, null, bool, number, string, array, object, Items, nil, cons, get_member, as_array,
}
use project_black_monolith.Shield.Proxy.Gate.{is_session_revoked}

-- `!id.is_empty() && id.len() <= 128 && id.chars().all(|c| !c.is_control())`
unfoldable pub is_session_id : Text → Bool
unfolding is_empty byte_len any is_control
is_session_id id = not (is_empty id) && leb (byte_len id) 128 && not (any is_control id)

-- The set of the ids that pass, of the strings of the list
unfoldable collect_ids : Items → TextSet
unfolding trim is_session_id add
collect_ids nil = []
collect_ids (cons (string s) values) =
    let rest = collect_ids values in if is_session_id (trim s) then add rest (trim s) else rest
collect_ids (cons null values) = collect_ids values
collect_ids (cons (bool b) values) = collect_ids values
collect_ids (cons (number n) values) = collect_ids values
collect_ids (cons (array vs) values) = collect_ids values
collect_ids (cons (object ms) values) = collect_ids values

-- The count, and the sessions that are revoked after; without a usable list nothing changes.
unfoldable adopt : TextSet → Option Items → Option ℕ × TextSet
unfolding collect_ids
adopt revoked none = (none, revoked)
adopt revoked (some values) = let cleaned = collect_ids values in (some (length cleaned), cleaned)

unfoldable pub snapshot_of : Option Json → Option Items
unfolding get_member
snapshot_of none = none
snapshot_of (some value) = as_array (get_member value (codes "revoked_sessions"))

-- `from_str` is serde_json's parser.
unfoldable pub observe_revoked_sessions : (Text → Option Json) → TextSet → Text → Option ℕ × TextSet
unfolding adopt snapshot_of
observe_revoked_sessions from_str revoked body = adopt revoked (snapshot_of (from_str body))

-- The id is listed: a string of the list is it, with blanks around it perhaps.
abbrev pub Lists : Items → Text → Type 0
Lists nil id = ⊥
Lists (cons (string s) values) id = (trim s ≡ id) ⊎ Lists values id
Lists (cons null values) id = Lists values id
Lists (cons (bool b) values) id = Lists values id
Lists (cons (number n) values) id = Lists values id
Lists (cons (array vs) values) id = Lists values id
Lists (cons (object ms) values) id = Lists values id

collect_ids_iff :
    (values : Items) (id : Text)
    → is_session_id id ≡ true
    → (member (collect_ids values) id ≡ true) ↔ Lists values id
unfolding collect_ids member
collect_ids_iff nil id h = (λ e. cc, λ e. absurd e)
collect_ids_iff (cons null values) id h = collect_ids_iff values id h
collect_ids_iff (cons (bool b) values) id h = collect_ids_iff values id h
collect_ids_iff (cons (number n) values) id h = collect_ids_iff values id h
collect_ids_iff (cons (array vs) values) id h = collect_ids_iff values id h
collect_ids_iff (cons (object ms) values) id h = collect_ids_iff values id h
collect_ids_iff (cons (string s) values) id h =
    let rest = collect_ids_iff values id h in
    elim (Bool-cases (is_session_id (trim s))) [
      | inl fits ↦
          rw (fits, member-add (collect_ids values) (trim s) id)
            (ground (arith, text_eq_iff (trim s) id, rest))
      | inr unfit ↦ rw unfit (
        λ e. inr (rest.0 e),
        λ e. elim e [ inl same ↦ absurd (cc (same, unfit, h)) | inr listed ↦ rest.1 listed ],
      )
    ]

-- What a response says of a session, with what was known before
abbrev pub IsRevokedBy : TextSet → Option Items → Text → Type 0
IsRevokedBy revoked none id = is_session_revoked revoked id ≡ true
IsRevokedBy revoked (some values) id = Lists values id

is_session_revoked-member :
    (revoked : TextSet) (id : Text)
    → trim id ≡ id
    → is_session_id id ≡ true
    → is_session_revoked revoked id ≡ member revoked id
unfolding is_session_revoked is_session_id
is_session_revoked-member revoked id trimmed h =
    let plain : is_empty id || not (leb (byte_len id) 128) ≡ false = ground arith in
    rw (trimmed, plain) refl

adopt_iff :
    (revoked : TextSet) (snapshot : Option Items) (id : Text)
    → trim id ≡ id
    → is_session_id id ≡ true
    → (is_session_revoked ((adopt revoked snapshot).1) id ≡ true) ↔ IsRevokedBy revoked snapshot id
unfolding adopt
adopt_iff revoked none id trimmed h = (λ e. e, λ e. e)
adopt_iff revoked (some values) id trimmed h =
    rw (is_session_revoked-member (collect_ids values) id trimmed h) (collect_ids_iff values id h)

-- A session is revoked after a usable snapshot exactly if the snapshot lists it, and after any other
-- response exactly if it was before: a broken response lifts no revocation. The id is trimmed, not
-- empty, of at most 128 bytes and without control characters.
pub observe_revoked_sessions-is_session_revoked :
    (from_str : Text → Option Json) (revoked : TextSet) (body id : Text)
    → trim id ≡ id
    → is_session_id id ≡ true
    → (is_session_revoked ((observe_revoked_sessions from_str revoked body).1) id ≡ true)
      ↔ IsRevokedBy revoked (snapshot_of (from_str body)) id
unfolding observe_revoked_sessions
observe_revoked_sessions-is_session_revoked from_str revoked body id trimmed h =
    adopt_iff revoked (snapshot_of (from_str body)) id trimmed h
