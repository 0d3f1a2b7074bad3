-- ===== src/Prelude/Fallible.antt =====
-- Rust's `Result`, with `?` as the bind of a do block.
use mathlib.Core.Path.{◌≡◌, refl}
use mathlib.Core.Logic.{◌⊎◌, inl, inr, ◌↔◌}
use mathlib.Core.Bool.{Bool, true, false, not}

pub data Result {ℓ κ} (E : Type ℓ) (A : Type κ) : Type (ℓ ⊔ κ) where
  ok : A → Result E A
  err : E → Result E A

infixl 5 ◌>>=◌ ◌>>◌
abbrev pub ◌>>=◌ {ℓ κ ι} :
    {E : Type ℓ} {A : Type κ} {B : Type ι} → Result E A → (A → Result E B) → Result E B
ok a >>= f = f a
err e >>= f = err e

abbrev pub ◌>>◌ {ℓ κ} : {E : Type ℓ} {B : Type κ} → Result E (Unit {0}) → Result E B → Result E B
m >> k = m >>= λ _. k

-- `if bad { return Err(e) }`
abbrev pub refuse_if {ℓ} : {E : Type ℓ} → Bool → E → Result E (Unit {0})
refuse_if true e = err e
refuse_if false e = ok tt

-- `o.ok_or(e)`
abbrev pub map_err {ℓ κ ι} :
    {E : Type ℓ} {F : Type κ} {A : Type ι} → (E → F) → Result E A → Result F A
map_err f (ok a) = ok a
map_err f (err e) = err (f e)

abbrev pub is_ok {ℓ κ} : {E : Type ℓ} {A : Type κ} → Result E A → Bool
is_ok (ok a) = true
is_ok (err e) = false

pub Result-cases {ℓ κ} :
    {E : Type ℓ} {A : Type κ} (r : Result E A) → ((a : A) × (r ≡ ok a)) ⊎ ((e : E) × (r ≡ err e))
Result-cases (ok a) = inl (a, refl)
Result-cases (err e) = inr (e, refl)

-- A chain of steps succeeds exactly if its first step does and the rest does from its value.
pub >>=-eq-ok {ℓ κ ι} :
    {E : Type ℓ} {A : Type κ} {B : Type ι} (first : Result E A) (next : A → Result E B) {result : B}
    → (first >>= next) ≡ ok result
    → (value : A) × (first ≡ ok value) × (next value ≡ ok result)
>>=-eq-ok (err e) next h = cc
>>=-eq-ok (ok value) next h = (value, refl, h)

pub >>-eq-ok {ℓ κ} :
    {E : Type ℓ} {B : Type κ} (m : Result E (Unit {0})) (k : Result E B) {b : B}
    → (m >> k) ≡ ok b
    → (m ≡ ok tt) × (k ≡ ok b)
>>-eq-ok (ok a) k h = (refl, h)
>>-eq-ok (err e) k h = cc

pub refuse_if_iff {ℓ} : {E : Type ℓ} (b : Bool) (e : E) → (refuse_if b e ≡ ok tt) ↔ (b ≡ false)
refuse_if_iff true e = (λ h. cc, λ h. cc)
refuse_if_iff false e = (λ h. refl, λ h. refl)

pub refuse-bind_iff {ℓ κ} :
    {E : Type ℓ} {B : Type κ} (b : Bool) (e : E) (k : Result E B) {a : B}
    → ((refuse_if b e >> k) ≡ ok a) ↔ ((b ≡ false) × (k ≡ ok a))
refuse-bind_iff true e k = (λ h. cc, λ h. cc (h.0))
refuse-bind_iff false e k = (λ h. (refl, h), λ h. h.1)

pub refuse-not_iff {ℓ} :
    {E : Type ℓ} (b : Bool) (e : E) → (refuse_if (not b) e ≡ ok tt) ↔ (b ≡ true)
refuse-not_iff true e = (λ h. refl, λ h. refl)
refuse-not_iff false e = (λ h. cc, λ h. cc)

pub refuse-not-bind_iff {ℓ κ} :
    {E : Type ℓ} {B : Type κ} (b : Bool) (e : E) (k : Result E B) {a : B}
    → ((refuse_if (not b) e >> k) ≡ ok a) ↔ ((b ≡ true) × (k ≡ ok a))
refuse-not-bind_iff true e k = (λ h. (refl, h), λ h. h.1)
refuse-not-bind_iff false e k = (λ h. cc, λ h. cc (h.0))

pub map_err-eq-ok {ℓ κ ι} :
    {E : Type ℓ} {F : Type κ} {A : Type ι} (f : E → F) (r : Result E A) {a : A}
    → map_err f r ≡ ok a
    → r ≡ ok a
map_err-eq-ok f (ok b) h = cc
map_err-eq-ok f (err e) h = cc
