-- ===== src/Nvsim/Program/Constraints.antt =====
-- The second search of the data array, and the configurations that `applyConstraint` lets through.
use destiny_3d_cache.Prelude.{
  ◌≡◌, refl, sym, subst, true, false, some, List, [], ◌∷◌, map, ◌⊎◌, inl, inr, All, Any, All-of_map,
  All-of_image, ◌≤◌, arith,
}
use destiny_3d_cache.Prelude.Run.{returns}
use destiny_3d_cache.Double.{Double}
use destiny_3d_cache.TypeDef.{MemCellType}
use destiny_3d_cache.InputParameter.{InputParameter}
use destiny_3d_cache.Search.Size.{data_points}
use destiny_3d_cache.Result.{Result, Limits, worst_case, within_limits}
use destiny_3d_cache.Result.Best.{update_all, update_all-Replaces, Replaces}
use destiny_3d_cache.Nvsim.{Simulator, Globals}
use destiny_3d_cache.Nvsim.Explore.{Exploration, Target}
use destiny_3d_cache.Nvsim.Explore.Best.{for_points-returns}
use destiny_3d_cache.Nvsim.Explore.Candidates.{candidates, run_all-Meets}
use destiny_3d_cache.Nvsim.Program.{
  apply_constraint, apply_limit, constrain, start, is_cache, is_h_tree, not_implemented,
}

-- A result is still the one that `APPLY_LIMIT` has reset, or its bank is within the limits.
abbrev pub Constrained : {D : Type 0} ⦃d : Double D⦄ → Limits D → Result D → Type 0
Constrained l r = (r.bank.unit ≡ worst_case r.bank.unit) ⊎ (within_limits l r.bank ≡ true)

module _ {D : Type 0} ⦃d : Double D⦄ where
  update_all-Constrained :
      (l : Limits D) (r : Result D) (cs : List (Result D))
      → Constrained l (update_all (apply_limit l r) cs)
  unfolding apply_limit worst_case
  update_all-Constrained l r cs = elim (update_all-Replaces (apply_limit l r) cs) [
    | inl same ↦ subst (Constrained l) (sym same) (inl refl)
    | inr some_c ↦ go cs some_c
  ]
    where
      go :
          (xs : List (Result D))
          → Any (Replaces (apply_limit l r) (update_all (apply_limit l r) cs)) xs
          → Constrained l (update_all (apply_limit l r) cs)
      go [] h = absurd h
      go (x ∷ xs) (inl (within, e)) = subst (Constrained l) (sym e) (inr within)
      go (x ∷ xs) (inr later) = go xs later

  -- If the second search returns, the bank of every result is within all eight limits, or still has
  -- the worst figures that `APPLY_LIMIT` has given it.
  pub constrain-Constrained :
      (sim : Simulator D) (p : InputParameter D) (t : Target) (g : Globals D)
      (best : List (Result D)) (l : Limits D) (s' : Exploration D)
      → constrain sim p t g best (some l) ≡ returns s'
      → All (Constrained l) s'.best
  constrain-Constrained sim p t g best l s' h =
      let s = start sim p g (map (apply_limit l) best) in
      let (xs, _, ran) = for_points-returns (data_points p) _ s s' h in
      let meets = run_all-Meets sim p (some l) t s.globals xs s s' refl ran in
      let cs = candidates sim p (some l) t s.globals xs in
      subst (All (Constrained l)) (sym meets.best) (
        All-of_map (λ q. (r : Result D) × (apply_limit l r ≡ q)) (Constrained l)
          (λ r. update_all r cs)
          (λ q e.
            subst (λ r. Constrained l (update_all r cs)) e.1 (update_all-Constrained l e.0 cs))
          s.best (All-of_image _ (apply_limit l) best (λ r. (r, refl))))

  -- A configuration that `applyConstraint` returns has a design and a cell that are implemented, at
  -- most one way outside of caches, and internal sensing if it has an H-tree.
  pub apply_constraint-returns :
      (t : MemCellType) (p q : InputParameter D)
      → apply_constraint t p ≡ returns q
      → (not_implemented q.design_target t ≡ false)
        × (is_cache q.design_target ≡ false → q.associativity ≤ 1)
        × (is_h_tree q.routing_mode ≡ true → q.internal_sensing ≡ true)
  unfolding apply_constraint
  apply_constraint-returns t p q h = ground arith
