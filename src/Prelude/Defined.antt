-- ===== src/Prelude/Defined.antt =====
-- Outcomes that are not undefined behaviour.
use Prim.Native.Nat.{ℕ, ◌≤◌, ◌<◌}
use mathlib.Core.Path.{◌≡◌, refl, ap, subst, sym, ◌∙◌}
use mathlib.Core.Bool.{Bool, true, false}
use native.Mathlib.Omega.{arith}
use destiny_3d_cache.Prelude.Powers.{IsPowerOfTwo}
use destiny_3d_cache.Prelude.Log.{log2_int, log2_int-pow}
use destiny_3d_cache.Prelude.Outcome.{
  Outcome, ok, ok-injective, invalid, undefined, ◌>>=◌, reject_if, quotient, shift_one, defined,
}

abbrev pub IsDefined : {A : Type 0} → Outcome A → Type 0
IsDefined undefined = ⊥
IsDefined _ = Unit

pub >>=-IsDefined :
    {A B : Type 0} (m : Outcome A) (f : A → Outcome B)
    → IsDefined m
    → ((a : A) → m ≡ ok a → IsDefined (f a))
    → IsDefined (m >>= f)
>>=-IsDefined (ok a) f h k = k a refl
>>=-IsDefined invalid f h k = tt
>>=-IsDefined undefined f h k = absurd h

pub reject_if-IsDefined : (b : Bool) → IsDefined (reject_if b)
reject_if-IsDefined true = tt
reject_if-IsDefined false = tt

pub quotient-IsDefined : (a b : ℕ) → 1 ≤ b → IsDefined (quotient a b)
quotient-IsDefined a b h = ground (arith, h)

pub shift_one-IsDefined : (n : ℕ) → n < 31 → IsDefined (shift_one n)
shift_one-IsDefined n h = ground (arith, h)

pub log2_int-IsDefined : (x : ℕ) → IsPowerOfTwo x → IsDefined (defined (log2_int x))
log2_int-IsDefined x (k, e) =
    let found = ap log2_int e ∙ log2_int-pow k in subst (λ o. IsDefined (defined o)) (sym found) tt

-- Past an outcome that is known.
pub known-IsDefined :
    {A B : Type 0} (m : Outcome A) (f : A → Outcome B) {a : A}
    → m ≡ ok a
    → IsDefined (f a)
    → IsDefined (m >>= f)
known-IsDefined m f e h =
    >>=-IsDefined m f (subst IsDefined (sym e) tt)
      λ b eb. subst (λ x. IsDefined (f x)) (ok-injective (sym e ∙ eb)) h

pub known-ok :
    {A B : Type 0} (m : Outcome A) (f : A → Outcome B) {a : A} {b : B}
    → m ≡ ok a
    → m >>= f ≡ ok b
    → f a ≡ ok b
known-ok m f e h = ap (λ x. x >>= f) (sym e) ∙ h
