-- ===== src/Prelude/Outcome.antt =====
-- How an `Initialize` ends: with its object, early with `invalid = true`, or in undefined
-- behaviour (a division by zero, a shift by the width of `int`, the conversion of an infinity).
use Prim.Native.Nat.{ℕ, ◌/◌, ◌^◌}
use mathlib.Core.Path.{◌≡◌, refl}
use mathlib.Core.Bool.{Bool, true, false}
use mathlib.Core.Option.{Option, none, some}
use native.Mathlib.Omega.{arith}
use destiny_3d_cache.Prelude.Tests.{ltb, ◌==◌, if◌then◌else◌}

pub data Outcome (A : Type 0) : Type 0 where
  ok : A → Outcome A
  invalid : Outcome A
  undefined : Outcome A

infixl 5 ◌>>=◌ ◌>>◌
abbrev pub ◌>>=◌ : {A B : Type 0} → Outcome A → (A → Outcome B) → Outcome B
ok a >>= f = f a
invalid >>= f = invalid
undefined >>= f = undefined

abbrev pub ◌>>◌ : {A : Type 0} → Outcome (Unit {0}) → Outcome A → Outcome A
m >> n = m >>= λ _. n

-- `if (b) { invalid = true; initialized = true; return; }`
abbrev pub reject_if : Bool → Outcome (Unit {0})
reject_if true = invalid
reject_if false = ok tt

abbrev pub defined : {A : Type 0} → Option A → Outcome A
defined none = undefined
defined (some a) = ok a

-- `a / b`
abbrev pub quotient : ℕ → ℕ → Outcome ℕ
quotient a b = if b == 0 then undefined else ok (a / b)

-- `1 << n`, of an `int`
abbrev pub shift_one : ℕ → Outcome ℕ
shift_one n = if ltb n 31 then ok (2 ^ n) else undefined

-- Inversion of a block that ended with its object.
pub >>=-ok :
    {A B : Type 0} (m : Outcome A) (f : A → Outcome B) {b : B}
    → (m >>= f) ≡ ok b
    → (a : A) × (m ≡ ok a) × (f a ≡ ok b)
>>=-ok (ok a) f h = (a, refl, h)
>>=-ok invalid f h = cc
>>=-ok undefined f h = cc

pub reject_if-ok : (b : Bool) {u : Unit {0}} → reject_if b ≡ ok u → b ≡ false
reject_if-ok true h = cc
reject_if-ok false h = refl

pub quotient-ok : (a b : ℕ) {q : ℕ} → quotient a b ≡ ok q → a / b ≡ q
quotient-ok a b h = ground arith

pub shift_one-ok : (n : ℕ) {x : ℕ} → shift_one n ≡ ok x → 2 ^ n ≡ x
shift_one-ok n h = ground arith

pub defined-ok : {A : Type 0} (o : Option A) {a : A} → defined o ≡ ok a → o ≡ some a
defined-ok none h = cc
defined-ok (some a) h = cc

pub ok-injective : {A : Type 0} {a b : A} → ok a ≡ ok b → a ≡ b
ok-injective h = cc

-- What a passed check goes on with.
pub reject_if->>-ok : {A : Type 0} (b : Bool) (x y : A) → (reject_if b >> ok x) ≡ ok y → x ≡ y
reject_if->>-ok false x y h = ok-injective h
reject_if->>-ok true x y h = cc

-- An outcome that is an object, and the object.
abbrev pub IsOk : {A : Type 0} → Outcome A → Type 0
IsOk (ok a) = Unit
IsOk _ = ⊥

abbrev pub value : {A : Type 0} (o : Outcome A) → IsOk o → A
value (ok a) h = a
value invalid h = absurd h
value undefined h = absurd h

pub value-ok : {A : Type 0} (o : Outcome A) (h : IsOk o) → o ≡ ok (value o h)
value-ok (ok a) h = refl
value-ok invalid h = absurd h
value-ok undefined h = absurd h
