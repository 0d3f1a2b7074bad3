-- ===== src/Shield/Fingerprint.antt =====
-- fingerprint.rs: the canonical form of a JSON value, and the fingerprint of a tool.
use project_black_monolith.Prelude.{
  Bool, true, false, ◌&&◌, ◌||◌, List, [], ◌∷◌, ◌++◌, map, if◌then◌else◌, ltb, ◌==◌,
}
use project_black_monolith.Text.{Text, codes}
use project_black_monolith.Json.{
  Json, null, bool, number, string, array, object, Items, nil, cons, Members, end, member,
}

-- The order of strings: that of their characters, one after the other.
unfoldable pub text_leb : Text → Text → Bool
text_leb [] t = true
text_leb (c ∷ s) [] = false
text_leb (c ∷ s) (d ∷ t) = ltb c d || (c == d && text_leb s t)

abbrev Member : Type 0
Member = Text × Text

-- keys.sort(): the members in the order of their keys
unfoldable insert_member : Member → List Member → List Member
unfolding text_leb
insert_member m [] = m ∷ []
insert_member m (n ∷ ms) = if text_leb m.0 n.0 then m ∷ n ∷ ms else n ∷ insert_member m ms

unfoldable sort_members : List Member → List Member
unfolding insert_member
sort_members [] = []
sort_members (m ∷ ms) = insert_member m (sort_members ms)

-- parts.join(",")
unfoldable join : List Text → Text
join [] = []
join (part ∷ []) = part
join (part ∷ other ∷ parts) = part ++ (b',' ∷ join (other ∷ parts))

-- `quote` is serde_json's form of a string.
module _ (quote : Text → Text) where
  abbrev member_text : Member → Text
  member_text m = quote m.0 ++ (b':' ∷ m.1)

  unfoldable mutual
    unfolding join sort_members

    pub canonicalize : Json → Text
    canonicalize null = codes "null"
    canonicalize (bool true) = codes "true"
    canonicalize (bool false) = codes "false"
    canonicalize (number n) = n
    canonicalize (string s) = quote s
    canonicalize (array vs) = b'[' ∷ (join (canonical_items vs) ++ codes "]")
    canonicalize (object ms) =
        b'{' ∷ (join (map member_text (sort_members (canonical_members ms))) ++ codes "}")

    canonical_items : Items → List Text
    canonical_items nil = []
    canonical_items (cons v vs) = canonicalize v ∷ canonical_items vs

    canonical_members : Members → List Member
    canonical_members end = []
    canonical_members (member k v ms) = (k, canonicalize v) ∷ canonical_members ms
