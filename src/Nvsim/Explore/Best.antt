-- ===== src/Nvsim/Explore/Best.antt =====
-- What the loop over the designs of the data array keeps.
use destiny_3d_cache.Prelude.{◌≡◌, refl, ap, none, some, List, [], ◌∷◌, Any, inl, inr}
use destiny_3d_cache.Prelude.Run.{Run, returns, run_all}
use destiny_3d_cache.Double.{Double}
use destiny_3d_cache.Bank.{Bank}
use destiny_3d_cache.InputParameter.{InputParameter}
use destiny_3d_cache.Search.{Point}
use destiny_3d_cache.Search.Loops.{Loop}
use destiny_3d_cache.Result.{Result}
use destiny_3d_cache.Result.Best.{update_all, Replaces, update_all-Replaces}
use destiny_3d_cache.Nvsim.Explore.{Exploration, for_points}

-- A loop that has returned has run its body for a list of points.
pub for_points-returns :
    {D : Type 0} (m : Loop Point) (step : Point → Exploration D → Run (Exploration D))
    (s s' : Exploration D)
    → for_points m step s ≡ returns s'
    → (xs : List Point) × (m ≡ some xs) × (run_all step xs s ≡ returns s')
for_points-returns none step s s' h = cc
for_points-returns (some xs) step s s' h = (xs, refl, h)

module _ {D : Type 0} ⦃d : Double D⦄ where
  -- An update keeps the target and the limits of a result.
  pub update_all-same :
      (r : Result D) (cs : List (Result D))
      → ((update_all r cs).optimization_target ≡ r.optimization_target)
        × ((update_all r cs).limits ≡ r.limits)
  update_all-same r cs = elim (update_all-Replaces r cs) [
    | inl same ↦
        (ap (λ (q : Result D). q.optimization_target) same, ap (λ (q : Result D). q.limits) same)
    | inr some_c ↦ of_any cs some_c
  ]
    where
      of_any :
          (xs : List (Result D))
          → Any (Replaces r (update_all r cs)) xs
          → ((update_all r cs).optimization_target ≡ r.optimization_target)
            × ((update_all r cs).limits ≡ r.limits)
      of_any [] none_c = absurd none_c
      of_any (x ∷ xs) (inl (_, e)) =
          (ap (λ (q : Result D). q.optimization_target) e, ap (λ (q : Result D). q.limits) e)
      of_any (x ∷ xs) (inr later) = of_any xs later
