-- ===== src/Elf2Cpm/Outcome.antt =====
-- How a step of tools/elf2cpm68k.c ends: with a value, by a call of `error`, which prints a message
-- and exits, or by a read outside of an array, where C says nothing of what follows.
use libgloss_cpm68k.Prelude.{◌≡◌, refl, Bool, true, false, if◌then◌else◌}

-- the calls of `error`, but for those on a failed `malloc` or `fopen`
pub data Error : Type 0 where
  short_read : Error
  invalid_section : Error
  rel_section : Error
  zero_entry_size : Error
  too_many_relocs : Error
  unsupported_reloc : Error
  bad_target : Error
  too_large : Error
  not_sorted : Error
  bad_header : Error
  bad_text : Error
  bad_data : Error

pub data Outcome {ℓ} (A : Type ℓ) : Type ℓ where
  ok : A → Outcome A
  failed : Error → Outcome A
  stray : Outcome A

infixl 5 ◌>>◌ ◌>>=◌
abbrev pub ◌>>=◌ {μ ν} :
    {R : Type μ} {T : Type ν} (first : Outcome R) (next : R → Outcome T) → Outcome T
stray >>= next = stray
failed why >>= next = failed why
ok value >>= next = next value

-- an `error` where a test does not hold
abbrev pub require : Bool → Error → Outcome (Unit {0})
require false why = failed why
require true why = ok tt

-- a read outside of an array where a test does not hold
abbrev pub within : Bool → Outcome (Unit {0})
within false = stray
within true = ok tt

abbrev pub ◌>>◌ {ν} : {T : Type ν} (check : Outcome (Unit {0})) (next : Outcome T) → Outcome T
check >> next = check >>= λ _. next

pub ok-injective : {A : Type 0} {a b : A} → ok a ≡ ok b → a ≡ b
ok-injective h = cc

-- the parts of a chain that ended with a value
module _ {μ ν} {R : Type μ} {T : Type ν} where
  pub >>=-eq-ok :
      (first : Outcome R) (next : R → Outcome T) {t : T}
      → (first >>= next) ≡ ok t
      → (r : R) × (first ≡ ok r) × (next r ≡ ok t)
  >>=-eq-ok stray next e = cc
  >>=-eq-ok (failed why) next e = cc
  >>=-eq-ok (ok r) next e = (r, refl, e)

pub require-eq-ok :
    {A : Type 0} (t : Bool) (why : Error) (next : Outcome A) {a : A}
    → (require t why >> next) ≡ ok a
    → (t ≡ true) × (next ≡ ok a)
require-eq-ok true why next h = (refl, h)
require-eq-ok false why next h = cc

-- `P` holds of the value, where there is one
abbrev pub Gives {ℓ κ} : {A : Type ℓ} → (A → Type κ) → Outcome A → Type κ
Gives P (ok a) = P a
Gives P (failed e) = Unit
Gives P stray = Unit

module _ {ℓ κ} {A : Type ℓ} (P : A → Type κ) where
  pub Gives-if :
      (b : Bool) (m k : Outcome A)
      → (b ≡ true → Gives P m)
      → (b ≡ false → Gives P k)
      → Gives P (if b then m else k)
  Gives-if true m k p q = p refl
  Gives-if false m k p q = q refl

  pub Gives->>= {μ} :
      {B : Type μ} (m : Outcome B) (f : B → Outcome A)
      → ((b : B) → m ≡ ok b → Gives P (f b))
      → Gives P (m >>= f)
  Gives->>= (ok b) f h = h b refl
  Gives->>= (failed e) f h = tt
  Gives->>= stray f h = tt

  pub Gives-require :
      (t : Bool) (e : Error) (k : Outcome A) → (t ≡ true → Gives P k) → Gives P (require t e >> k)
  Gives-require true e k h = h refl
  Gives-require false e k h = tt

  pub Gives-eq-ok : (m : Outcome A) (a : A) → Gives P m → m ≡ ok a → P a
  Gives-eq-ok (ok b) a g h = let e : b ≡ a = cc in rw (← e) g
  Gives-eq-ok (failed e) a g h = cc
  Gives-eq-ok stray a g h = cc
