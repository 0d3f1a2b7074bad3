-- ===== src/Map.antt =====
-- `HashMap<String, V>` and `HashSet<String>` as lists in the order in which they are iterated.
-- An insertion replaces the value of its key in place; a removal drops every pair of its key.
use project_black_monolith.Prelude.{
  ◌≡◌, refl, sym, ap, ◌∙◌, Option-cases, Bool, true, false, not, ◌&&◌, ◌||◌, Option, none, some,
  List, [], ◌∷◌, arith, inl, inr, Bool-cases, if◌then◌else◌,
}
use project_black_monolith.Text.{Text, text_eq, text_eq_iff}

abbrev pub Map {ℓ} : Type ℓ → Type ℓ
Map V = List (Text × V)

abbrev pub is_some {ℓ} : {A : Type ℓ} → Option A → Bool
is_some none = false
is_some (some _) = true

abbrev pub unwrap_or {ℓ} : {A : Type ℓ} → Option A → A → A
unwrap_or none d = d
unwrap_or (some a) d = a

module _ {ℓ} {V : Type ℓ} where
  -- m.get(k)
  unfoldable pub get : Map V → Text → Option V
  get [] k = none
  get ((j, v) ∷ m) k = if text_eq j k then some v else get m k

  abbrev pub contains_key : Map V → Text → Bool
  contains_key m k = is_some (get m k)

  -- m.insert(k, v)
  unfoldable pub insert : Map V → Text → V → Map V
  insert [] k v = (k, v) ∷ []
  insert ((j, w) ∷ m) k v = if text_eq j k then (k, v) ∷ m else (j, w) ∷ insert m k v

  -- the map after m.remove(k)
  unfoldable pub remove : Map V → Text → Map V
  remove [] k = []
  remove ((j, w) ∷ m) k = let rest = remove m k in if text_eq j k then rest else (j, w) ∷ rest

  -- m.entry(k).or_insert(v)
  unfoldable pub or_insert : Map V → Text → V → Map V
  unfolding get insert
  or_insert m k v = if contains_key m k then m else insert m k v

  pub get-insert :
      (m : Map V) (k : Text) (v : V) (j : Text)
      → get (insert m k v) j ≡ (if text_eq k j then some v else get m j)
  unfolding get insert
  get-insert [] k v j = refl
  get-insert ((i, w) ∷ m) k v j =
      ground (arith, text_eq_iff k j, text_eq_iff i k, text_eq_iff i j, get-insert m k v j)

  pub get-insert_self : (m : Map V) (k : Text) (v : V) → get (insert m k v) k ≡ some v
  get-insert_self m k v = rw (get-insert m k v k, (text_eq_iff k k).1 refl)

  pub get-remove :
      (m : Map V) (k j : Text) → get (remove m k) j ≡ (if text_eq k j then none else get m j)
  unfolding get remove
  get-remove [] k j = ground arith
  get-remove ((i, w) ∷ m) k j =
      ground (arith, text_eq_iff k j, text_eq_iff i k, text_eq_iff i j, get-remove m k j)

  pub get-or_insert :
      (m : Map V) (k : Text) (v : V) (j : Text)
      → get (or_insert m k v) j ≡ (if text_eq k j then some (unwrap_or (get m k) v) else get m j)
  unfolding or_insert
  get-or_insert m k v j = ground (arith, text_eq_iff k j, get-insert m k v j)

pub ruleset map_laws = (get-insert, get-remove, get-or_insert)

-- `HashSet<String>`
abbrev pub TextSet : Type 0
TextSet = List Text

unfoldable pub member : TextSet → Text → Bool
member [] k = false
member (j ∷ s) k = text_eq j k || member s k

unfoldable pub add : TextSet → Text → TextSet
add s k = if member s k then s else k ∷ s

unfoldable pub discard : TextSet → Text → TextSet
discard [] k = []
discard (j ∷ s) k = let rest = discard s k in if text_eq j k then rest else j ∷ rest

-- s.extend(t)
unfoldable pub extend : TextSet → TextSet → TextSet
unfolding add member
extend s [] = s
extend s (k ∷ t) = add (extend s t) k

-- s.retain(test)
unfoldable pub retain : (Text → Bool) → TextSet → TextSet
retain test [] = []
retain test (k ∷ s) = let rest = retain test s in if test k then k ∷ rest else rest

pub member-add : (s : TextSet) (k j : Text) → member (add s k) j ≡ text_eq k j || member s j
unfolding add member
member-add s k j = elim (Bool-cases (member s k)) [
  | inl old ↦ elim (Bool-cases (text_eq k j)) [
    | inl same ↦ let e = (text_eq_iff k j).0 same in rw (old, same, ← e, old)
    | inr other ↦ rw (old, other)
  ]
  | inr new ↦ rw new
]

pub member-discard :
    (s : TextSet) (k j : Text) → member (discard s k) j ≡ not (text_eq k j) && member s j
unfolding member discard
member-discard [] k j = ground arith
member-discard (i ∷ s) k j =
    ground (arith, text_eq_iff k j, text_eq_iff i k, text_eq_iff i j, member-discard s k j)

pub member-extend : (s t : TextSet) (j : Text) → member (extend s t) j ≡ member t j || member s j
unfolding extend member
member-extend s [] j = refl
member-extend s (k ∷ t) j = ground (arith, member-add (extend s t) k j, member-extend s t j)

pub member-retain :
    (test : Text → Bool) (s : TextSet) (j : Text) → member (retain test s) j ≡ test j && member s j
unfolding member retain
member-retain test [] j = ground arith
member-retain test (i ∷ s) j = ground (arith, text_eq_iff i j, member-retain test s j)

-- `for (k, v) in m.drain() { d.entry(k).or_insert(v); }`, for the keys that pass the test
module _ {ℓ} {V : Type ℓ} where
  unfoldable pub merge_where : (Text → Bool) → Map V → Map V → Map V
  merge_where test d [] = d
  merge_where test d ((k, v) ∷ m) = merge_where test (if test k then or_insert d k v else d) m

  abbrev pub or_else : Option V → Option V → Option V
  or_else none o = o
  or_else (some a) o = some a

  merge_step :
      (test : Text → Bool) (d : Map V) (k : Text) (v : V) (m : Map V) (j : Text)
      → or_else (get (if test k then or_insert d k v else d) j) (if test j then get m j else none)
        ≡ or_else (get d j) (if test j then get ((k, v) ∷ m) j else none)
  merge_step test d k v m j = elim (Bool-cases (text_eq k j)) [
    | inl same ↦ elim (Bool-cases (test k)) [
      | inl kept ↦
          let e : test j ≡ true = ap test (sym ((text_eq_iff k j).0 same)) ∙ kept in
          let f : get d k ≡ get d j = ap (get d) ((text_eq_iff k j).0 same) in
          rw (kept, e, get-or_insert d k v j, same, f)
            (unfold get in rw same (ground (arith, Option-cases (get d j))))
      | inr dropped ↦
          let e : test j ≡ false = ap test (sym ((text_eq_iff k j).0 same)) ∙ dropped in
          rw (dropped, e)
    ]
    | inr other ↦ unfold get in ground (arith, get-or_insert d k v j)
  ]

  pub get-merge_where :
      (test : Text → Bool) (d m : Map V) (j : Text)
      → get (merge_where test d m) j ≡ or_else (get d j) (if test j then get m j else none)
  unfolding merge_where
  get-merge_where test d [] j = unfold get in ground (arith, Option-cases (get d j))
  get-merge_where test d ((k, v) ∷ m) j =
      get-merge_where test (if test k then or_insert d k v else d) m j ∙ merge_step test d k v m j
