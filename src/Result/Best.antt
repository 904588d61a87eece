-- ===== src/Result/Best.antt =====
-- What a run of `compareAndUpdate` over a sequence of candidates leaves behind.
use destiny_3d_cache.Prelude.{
  ◌≡◌, refl, ◌∙◌, subst, true, false, ◌&&◌, ◌⊎◌, inl, inr, List, [], ◌∷◌, arith, All, Any, Any-map,
  Bool-cases,
}
use destiny_3d_cache.Double.{Double, IsOrdered, IsNumber, ◌<?◌, ◌≼◌}
use destiny_3d_cache.TypeDef.{
  OptimizationTarget, read_latency_optimized, write_latency_optimized, read_energy_optimized,
  write_energy_optimized, read_edp_optimized, write_edp_optimized, leakage_optimized,
  area_optimized, full_exploration,
}
use destiny_3d_cache.Bank.{Bank}
use destiny_3d_cache.Result.{
  Result, Limits, invalid_value, read_edp, write_edp, within_limits, improves, compare_and_update,
}

module _ {D : Type 0} ⦃d : Double D⦄ where
  -- The figure that a target minimises. Full exploration has none: one value for all banks.
  unfoldable pub metric : OptimizationTarget → Bank D → D
  metric read_latency_optimized b = b.read_latency
  metric write_latency_optimized b = b.write_latency
  metric read_energy_optimized b = b.read_dynamic_energy
  metric write_energy_optimized b = b.write_dynamic_energy
  metric read_edp_optimized b = read_edp b
  metric write_edp_optimized b = write_edp b
  metric leakage_optimized b = b.leakage
  metric area_optimized b = b.area
  metric full_exploration b = invalid_value

  -- `for (...) best.compareAndUpdate(tempResult);`
  unfoldable pub update_all : Result D → List (Result D) → Result D
  update_all r [] = r
  update_all r (new ∷ cs) = update_all (compare_and_update r new).0 cs

  -- `new` took the place of the design in `r`; all else of `r` stayed.
  abbrev pub Replaces : Result D → Result D → Result D → Type 0
  Replaces r best new =
      (within_limits r.limits new.bank ≡ true)
      × (best ≡ record r {
        bank = new.bank;
        local_wire = new.local_wire;
        global_wire = new.global_wire;
      })

  step-Replaces :
      (r new : Result D)
      → let best = (compare_and_update r new).0 in (best ≡ r) ⊎ Replaces r best new
  unfolding compare_and_update
  step-Replaces r new =
      elim (Bool-cases
        (within_limits r.limits new.bank && improves r.optimization_target new.bank r.bank)) [
          | inl e ↦ inr (ground arith, rw e refl)
          | inr e ↦ inl (rw e refl)
        ]

  Replaces-step :
      (r r' new best x : Result D)
      → (r' ≡ r) ⊎ Replaces r r' new
      → Replaces r' best x
      → Replaces r best x
  Replaces-step r r' new best x (inl same) h = subst (λ q. Replaces q best x) same h
  Replaces-step r r' new best x (inr here) h = subst (λ q. Replaces q best x) here.1 h

  -- The kept design is the one that was kept before, or a candidate within the limits; all else
  -- stays.
  pub update_all-Replaces :
      (r : Result D) (cs : List (Result D))
      → (update_all r cs ≡ r) ⊎ Any (Replaces r (update_all r cs)) cs
  unfolding update_all
  update_all-Replaces r [] = inl refl
  update_all-Replaces r (c ∷ cs) =
      let r' = (compare_and_update r c).0 in
      let best = update_all r' cs in
      elim (update_all-Replaces r' cs) [
        | inl kept ↦ elim (step-Replaces r c) [
          | inl same ↦ inl (kept ∙ same)
          | inr here ↦ inr (inl (here.0, kept ∙ here.1))
        ]
        | inr later ↦
            inr (inr (Any-map (λ x h. Replaces-step r r' c best x (step-Replaces r c) h) cs later))
      ]

  module _ (laws : IsOrdered D) where
    open laws use {number_of_le, le_trans, le_of_lt, not_le_of_lt, le_of_not_lt}

    lt_irrefl : (x : D) → (x <? x) ≡ false
    lt_irrefl x = ground (arith, not_le_of_lt x x, le_of_lt x x)

    improves-metric :
        (t : OptimizationTarget) (new bank : Bank D)
        → improves t new bank ≡ (metric t new <? metric t bank)
    unfolding improves metric
    improves-metric full_exploration new bank = ground (arith, lt_irrefl invalid_value)
    improves-metric _ new bank = refl

    metric-IsNumber :
        (t : OptimizationTarget) (l : Limits D) (new old : Bank D)
        → within_limits l new ≡ true
        → IsNumber (metric t old)
        → IsNumber (metric t new)
    unfolding within_limits metric
    metric-IsNumber read_latency_optimized l new old h n =
        ground (arith, number_of_le new.read_latency l.limit_read_latency)
    metric-IsNumber write_latency_optimized l new old h n =
        ground (arith, number_of_le new.write_latency l.limit_write_latency)
    metric-IsNumber read_energy_optimized l new old h n =
        ground (arith, number_of_le new.read_dynamic_energy l.limit_read_dynamic_energy)
    metric-IsNumber write_energy_optimized l new old h n =
        ground (arith, number_of_le new.write_dynamic_energy l.limit_write_dynamic_energy)
    metric-IsNumber read_edp_optimized l new old h n =
        ground (arith, number_of_le (read_edp new) l.limit_read_edp)
    metric-IsNumber write_edp_optimized l new old h n =
        ground (arith, number_of_le (write_edp new) l.limit_write_edp)
    metric-IsNumber leakage_optimized l new old h n =
        ground (arith, number_of_le new.leakage l.limit_leakage)
    metric-IsNumber area_optimized l new old h n =
        ground (arith, number_of_le new.area l.limit_area)
    metric-IsNumber full_exploration l new old h n = n

    -- One call: the kept figure does not grow, and is no greater than that of a legal candidate.
    module _ (t : OptimizationTarget) (l : Limits D) where
      pub step_lem :
          (r new : Result D)
          → r.optimization_target ≡ t
          → r.limits ≡ l
          → IsNumber (metric t r.bank)
          → let best = (compare_and_update r new).0 in
            (best.optimization_target ≡ t)
            × (best.limits ≡ l)
            × (metric t best.bank ≼ metric t r.bank)
            × (within_limits l new.bank ≡ true → metric t best.bank ≼ metric t new.bank)
      unfolding compare_and_update
      step_lem r new et el n = ground (
        arith,
        improves-metric t new.bank r.bank,
        metric-IsNumber t l new.bank r.bank,
        le_of_lt (metric t new.bank) (metric t r.bank),
        le_of_not_lt (metric t new.bank) (metric t r.bank),
        number_of_le (metric t new.bank) (metric t r.bank),
      )

      run_lem :
          (r : Result D) (cs : List (Result D))
          → r.optimization_target ≡ t
          → r.limits ≡ l
          → IsNumber (metric t r.bank)
          → let kept = metric t (update_all r cs).bank in
            (kept ≼ metric t r.bank)
            × All (λ c. within_limits l c.bank ≡ true → kept ≼ metric t c.bank) cs
      unfolding update_all
      run_lem r [] et el n = (n, tt)
      run_lem r (c ∷ cs) et el n =
          let (et', el', down, le_new) = step_lem r c et el n in
          let r' = (compare_and_update r c).0 in
          let (below, rest) = run_lem r' cs et' el' (number_of_le _ _ down).0 in
          (le_trans _ _ _ below down, (λ h. le_trans _ _ _ below (le_new h), rest))

    -- After any run of updates the kept figure is at most that of every candidate within the
    -- limits, and at most the one that was kept before, if that is a number and the comparisons are
    -- those of IEEE 754.
    pub update_all-le :
        (r : Result D) (cs : List (Result D))
        → IsNumber (metric r.optimization_target r.bank)
        → let t = r.optimization_target in
          let kept = metric t (update_all r cs).bank in
          (kept ≼ metric t r.bank)
          × All (λ c. within_limits r.limits c.bank ≡ true → kept ≼ metric t c.bank) cs
    update_all-le r cs n = run_lem r.optimization_target r.limits r cs refl refl n
