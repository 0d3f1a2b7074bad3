-- ===== src/Shield/Sanitizer/VendorTokens.antt =====
-- sanitizer.rs: the texts in which `has_vendor_token` finds a token.
use project_black_monolith.Prelude.{
  suc, ◌≡◌, refl, ◌↔◌, inl, inr, Bool, true, false, List, [], ◌∷◌, arith, length, ||_iff,
}
use project_black_monolith.Text.{Text, any, all, is_ascii_alphanumeric}
use project_black_monolith.Text.Search.{All, Any, all_iff}
use project_black_monolith.Map.{unwrap_or}
use project_black_monolith.Shield.Sanitizer.Credentials.{
  is_vendor_char, vendor_loop, vendor_token_prefixes, has_vendor_token,
}
use project_black_monolith.Shield.Sanitizer.Detection.{KeyOf}
use project_black_monolith.Shield.Sanitizer.Tokens.{Occurs}
use project_black_monolith.Shield.Sanitizer.VendorLoop.{vendor_loop-answers}

-- A prefix that is not empty, of characters that a token may have
is_vendor_prefix : Text → Bool
unfolding all is_vendor_char
is_vendor_prefix [] = false
is_vendor_prefix (d ∷ p) = all is_vendor_char (d ∷ p)

vendor_prefix_iff :
    (prefix text : Text)
    → is_vendor_prefix prefix ≡ true
    → (unwrap_or (vendor_loop (suc (length text)) prefix text) false ≡ true)
      ↔ Occurs text prefix (KeyOf is_vendor_char 20)
unfolding is_vendor_prefix
vendor_prefix_iff [] text h = cc
vendor_prefix_iff (d ∷ p) text h =
    let (answer, runs, means) =
      vendor_loop-answers d p ((all_iff is_vendor_char (d ∷ p)).0 h) (suc (length text)) text
        (omega arith) in
    rw runs means

vendor_prefixes_iff :
    (prefixes : List Text) (text : Text)
    → All (λ p. is_vendor_prefix p ≡ true) prefixes
    → (any (λ prefix. unwrap_or (vendor_loop (suc (length text)) prefix text) false) prefixes
        ≡ true)
      ↔ Any (λ prefix. Occurs text prefix (KeyOf is_vendor_char 20)) prefixes
unfolding any
vendor_prefixes_iff [] text h = (λ e. cc, λ e. absurd e)
vendor_prefixes_iff (p ∷ ps) text h =
    let one = vendor_prefix_iff p text (h.0) in
    let rest = vendor_prefixes_iff ps text (h.1) in
    let split = ||_iff (unwrap_or (vendor_loop (suc (length text)) p text) false) _ in
    (
      λ e. elim (split.0 e) [ inl here ↦ inl (one.0 here) | inr later ↦ inr (rest.0 later) ],
      λ e. split.1 (elim e [ inl here ↦ inl (one.1 here) | inr later ↦ inr (rest.1 later) ]),
    )

vendor_token_prefixes-pass : all is_vendor_prefix vendor_token_prefixes ≡ true
unfolding all is_vendor_prefix vendor_token_prefixes is_vendor_char is_ascii_alphanumeric
vendor_token_prefixes-pass = refl

-- A vendor's token is found exactly if one of the prefixes stands somewhere in the text with 20 of
-- its characters after it: a search that goes on after a prefix passes over no token.
pub has_vendor_token_iff :
    (text : Text)
    → (has_vendor_token text ≡ true)
      ↔ Any (λ prefix. Occurs text prefix (KeyOf is_vendor_char 20)) vendor_token_prefixes
unfolding has_vendor_token
has_vendor_token_iff text =
    vendor_prefixes_iff vendor_token_prefixes text
      ((all_iff is_vendor_prefix vendor_token_prefixes).0 vendor_token_prefixes-pass)
