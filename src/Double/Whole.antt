-- ===== src/Double/Whole.antt =====
-- Whole numbers with `none` for NaN: an instance of the interface, for tests and witnesses.
use destiny_3d_cache.Prelude.{
  ℕ, ◌+◌, ◌-◌, ◌*◌, ◌/◌, ◌^◌, false, Option, none, some, arith, ltb, leb, ◌==◌, if◌then◌else◌,
}
use destiny_3d_cache.Double.{Double, IsOrdered}

abbrev pub Whole : Type 0
Whole = Option ℕ

abbrev on_numbers {ℓ} : {A : Type ℓ} → A → (ℕ → ℕ → A) → Whole → Whole → A
on_numbers nan f (some a) (some b) = f a b
on_numbers nan f _ _ = nan

instance abbrev pub whole_double : Double Whole
whole_double = record {
  lit = λ m e. some (m / 10 ^ e);
  add = on_numbers none λ a b. some (a + b);
  sub = on_numbers none λ a b. if leb b a then some (a - b) else none;
  mul = on_numbers none λ a b. some (a * b);
  div = on_numbers none λ a b. if b == 0 then none else some (a / b);
  sqrt = λ x. x;
  exp = λ x. x;
  log = λ x. x;
  log2 = λ x. x;
  pow = on_numbers none λ a b. some (a ^ b);
  fabs = λ x. x;
  lt = on_numbers false ltb;
  le = on_numbers false leb;
}

pub Whole-IsOrdered : IsOrdered Whole
Whole-IsOrdered = ground arith
