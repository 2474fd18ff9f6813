-- ===== src/Operation/Outcome.antt =====
-- The errors of package operation: three sentinels, with messages that are not modelled.
use mathlib.Core.Path.{◌≡◌, refl, subst}
use mathlib.Core.Bool.{Bool, true, false}
use mathlib.Core.Option.{Option, none, some}

pub data Fault : Type 0 where
  invalid_schema invalid_template invalid_arguments : Fault

pub data Outcome {ℓ} (A : Type ℓ) : Type ℓ where
  ok : A → Outcome A
  invalid : Fault → Outcome A

-- `if b { return …, invalid(…) }`
abbrev pub refuse_if : Bool → Fault → Outcome (Unit {0})
refuse_if b e = elim b [ true ↦ invalid e | false ↦ ok tt ]

abbrev pub or_invalid {ℓ} : {A : Type ℓ} → Option A → Fault → Outcome A
or_invalid o e = elim o [ none ↦ invalid e | some a ↦ ok a ]

module _ {ℓ κ} {A : Type ℓ} {B : Type κ} where
  infixl 5 ◌>>=◌
  abbrev pub ◌>>=◌ : Outcome A → (A → Outcome B) → Outcome B
  ok a >>= next = next a
  invalid e >>= next = invalid e

  -- The parts of a chain that ended well.
  pub >>=-ok :
      (first : Outcome A) (next : A → Outcome B) {b : B}
      → (first >>= next) ≡ ok b
      → (a : A) × (first ≡ ok a) × (next a ≡ ok b)
  >>=-ok (ok a) next h = (a, refl, h)
  >>=-ok (invalid e) next h = absurd (cc)

module _ {ℓ} {B : Type ℓ} where
  infixl 5 ◌>>◌
  abbrev pub ◌>>◌ : Outcome (Unit {0}) → Outcome B → Outcome B
  check >> rest = check >>= λ passed. rest

  -- Behind a check that did not refuse.
  pub refuse_if-ok :
      (b : Bool) (e : Fault) (rest : Outcome B) {r : B}
      → (refuse_if b e >> rest) ≡ ok r
      → (b ≡ false) × (rest ≡ ok r)
  refuse_if-ok true e rest h = absurd (cc)
  refuse_if-ok false e rest h = (refl, h)

  pub or_invalid-ok :
      {A : Type 0} (o : Option A) (e : Fault) (next : A → Outcome B) {r : B}
      → (or_invalid o e >>= next) ≡ ok r
      → (a : A) × (o ≡ some a) × (next a ≡ ok r)
  or_invalid-ok none e next h = absurd (cc)
  or_invalid-ok (some a) e next h = (a, refl, h)

-- What holds of one result holds of the same result.
pub carries : {A : Type 0} (P : A → Type 0) {x y : A} → ok x ≡ ok y → P x → P y
carries P {x} {y} h p = let same : x ≡ y = cc in subst P same p
