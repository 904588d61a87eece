-- ===== src/Search/Doubling.antt =====
-- A doubling loop ends from any start but 0, and visits exactly the doublings up to its bound.
use native.Mathlib.Nat.{pow-zero}
use destiny_3d_cache.Prelude.{
  ℕ, zero, suc, ◌+◌, ◌-◌, ◌*◌, ◌≤◌, ◌<◌, ◌≡◌, refl, ◌↔◌, ◌⊎◌, inl, inr, false, none, some, [],
  arith, leb, Any, Bool-cases, le-mul-pow, mul-pow-suc,
}
use destiny_3d_cache.Search.Loops.{
  yield_point, append_loop, Ends, Yields, Enumerates, Enumerates-iff, append_loop-Enumerates,
  yield_point-Enumerates, doubling_fuel, doubling, counting_rounds, counting, IsDoubled, IsBetween,
}

IsDoubled-step : (x hi y : ℕ) → x ≤ hi → ((x ≡ y) ⊎ IsDoubled (2 * x) hi y) ↔ IsDoubled x hi y
IsDoubled-step x hi y h = (to, from)
  where
    to : (x ≡ y) ⊎ IsDoubled (2 * x) hi y → IsDoubled x hi y
    to (inl e) = (0, omega (arith, pow-zero 2), omega arith)
    to (inr (k, e, le)) = (suc k, omega (arith, mul-pow-suc x k), le)

    from : IsDoubled x hi y → (x ≡ y) ⊎ IsDoubled (2 * x) hi y
    from (zero, e, le) = inl (omega (arith, pow-zero 2))
    from (suc k, e, le) = inr (k, omega (arith, mul-pow-suc x k), le)

none_left : (x hi : ℕ) → leb x hi ≡ false → Enumerates (some []) (IsDoubled x hi)
unfolding Ends Yields
none_left x hi stop = record {
  ends = tt;
  sound = λ y h. absurd h;
  complete = λ y (k, e, le). absurd (ground (arith, le-mul-pow x k));
}

doubling_fuel-Enumerates :
    (fuel x hi : ℕ)
    → 1 ≤ x
    → hi < x + fuel
    → Enumerates (doubling_fuel (suc fuel) x hi) (IsDoubled x hi)
unfolding doubling_fuel
doubling_fuel-Enumerates zero x hi one h =
    let stop : leb x hi ≡ false = ground arith in rw stop (none_left x hi stop)
doubling_fuel-Enumerates (suc fuel) x hi one h = elim (Bool-cases (leb x hi)) [
  | inl go ↦ rw go (
      Enumerates-iff _ (λ y. IsDoubled-step x hi y (ground arith))
        (append_loop-Enumerates (yield_point x) _ (yield_point-Enumerates x)
          (doubling_fuel-Enumerates fuel (2 * x) hi (omega arith) (omega arith))))
  | inr stop ↦ rw stop (none_left x hi stop)
]

pub doubling-Enumerates : (lo hi : ℕ) → 1 ≤ lo → Enumerates (doubling lo hi) (IsDoubled lo hi)
unfolding doubling
doubling-Enumerates lo hi one = doubling_fuel-Enumerates hi lo hi one (omega arith)

-- The loop `for (x = 0; x <= hi; x *= 2)` does not end within any number of rounds.
pub doubling_fuel-zero : (fuel hi : ℕ) → doubling_fuel fuel 0 hi ≡ none
unfolding doubling_fuel append_loop
doubling_fuel-zero zero hi = refl
doubling_fuel-zero (suc fuel) hi = ground (arith, doubling_fuel-zero fuel hi)

counting_rounds_iff : (n x y : ℕ) → Any (λ z. z ≡ y) (counting_rounds n x) ↔ (x ≤ y) × (y < x + n)
unfolding counting_rounds
counting_rounds_iff zero x y = (λ h. absurd h, λ h. omega arith)
counting_rounds_iff (suc n) x y = let (to, from) = counting_rounds_iff n (x + 1) y in ground (arith)

pub counting-Enumerates : (lo hi : ℕ) → Enumerates (counting lo hi) (IsBetween lo hi)
unfolding counting Ends Yields
counting-Enumerates lo hi = record {
  ends = tt;
  sound = λ y h. let b = (counting_rounds_iff (suc hi - lo) lo y).0 h in omega arith;
  complete = λ y h. (counting_rounds_iff (suc hi - lo) lo y).1 (omega arith);
}
