-- ===== src/Nvsim/Refine/Improves.antt =====
-- The refinement never makes a kept design worse.
use destiny_3d_cache.Prelude.{
  ◌≡◌, refl, sym, ap, ◌∙◌, subst, true, some, none, List, [], ◌∷◌, ◌⊎◌, inl, inr, Pairwise,
  Pairwise-refl, Pairwise-trans,
}
use destiny_3d_cache.Prelude.Run.{Run, returns, run_all, run_map, >>=-returns, returns-injective}
use destiny_3d_cache.Double.{Double, IsOrdered, IsNumber, ◌≼◌}
use destiny_3d_cache.TypeDef.{MemoryType}
use destiny_3d_cache.InputParameter.{InputParameter, ArraySpace}
use destiny_3d_cache.Search.Loops.{Loop}
use destiny_3d_cache.Result.{Result, within_limits, compare_and_update}
use destiny_3d_cache.Result.Best.{metric, update_all, update_all-le, update_all-Replaces}
use destiny_3d_cache.Nvsim.{Simulator, Globals, calculate, trial_config}
use destiny_3d_cache.Nvsim.Wires.{WireChoice, refine_local_wires}
use destiny_3d_cache.Nvsim.Explore.Best.{update_all-same}
use destiny_3d_cache.Nvsim.Refine.{
  trial_bank, try_and_update, with_local, refine_step, for_wires, refine,
}

-- What an update may do to a result: its target and its limits stay, its figure does not grow, and
-- a new bank keeps to the limits.
pub record Improves {D : Type 0} ⦃d : Double D⦄ (r r' : Result D) : Type 0 where
  pub target : r'.optimization_target ≡ r.optimization_target
  pub limits : r'.limits ≡ r.limits
  pub figure :
      IsNumber (metric r.optimization_target r.bank)
      → metric r.optimization_target r'.bank ≼ metric r.optimization_target r.bank
  pub bank : (r'.bank ≡ r.bank) ⊎ (within_limits r.limits r'.bank ≡ true)

module _ {D : Type 0} ⦃d : Double D⦄ (laws : IsOrdered D) where
  open laws use {le_trans, number_of_le}

  Improves-refl : (r : Result D) → Improves r r
  Improves-refl r = record { target = refl; limits = refl; figure = λ n. n; bank = inl refl }

  Improves-trans : (a b c : Result D) → Improves a b → Improves b c → Improves a c
  Improves-trans a b c x y = record {
    target = y.target ∙ x.target;
    limits = y.limits ∙ x.limits;
    figure = λ n.
        let first = x.figure n in
        let second =
          subst (λ t. IsNumber (metric t b.bank) → metric t c.bank ≼ metric t b.bank) x.target
            y.figure (number_of_le _ _ first).0 in
        le_trans _ _ _ second first;
    bank = elim y.bank [
      | inl same ↦ subst (λ q. (q ≡ a.bank) ⊎ (within_limits a.limits q ≡ true)) (sym same) x.bank
      | inr within ↦ inr (subst (λ l. within_limits l c.bank ≡ true) x.limits within)
    ];
  }

  compare_and_update-Improves : (r new : Result D) → Improves r (compare_and_update r new).0
  unfolding update_all
  compare_and_update-Improves r new =
      let (et, el) = update_all-same r (new ∷ []) in
      record {
        target = et;
        limits = el;
        figure = λ n. (update_all-le laws r (new ∷ []) n).0;
        bank = elim (update_all-Replaces r (new ∷ [])) [
          | inl same ↦ inl (ap (λ (q : Result D). q.bank) same)
          | inr (inl (within, e)) ↦
              let eb = ap (λ (q : Result D). q.bank) e in
              inr (subst (λ q. within_limits r.limits q ≡ true) (sym eb) within)
          | inr (inr none_left) ↦ absurd none_left
        ];
      }

  run_map-Pairwise :
      (R : Result D → Result D → Type 0) (step : Result D → Run (Result D))
      (xs ys : List (Result D))
      → ((x y : Result D) → step x ≡ returns y → R x y)
      → run_map step xs ≡ returns ys
      → Pairwise R xs ys
  run_map-Pairwise R step [] ys h e = subst (Pairwise R []) (returns-injective e) tt
  run_map-Pairwise R step (x ∷ xs) ys h e =
      let (y, first, e1) = >>=-returns (step x) _ e in
      let (rest, later, e2) = >>=-returns (run_map step xs) _ e1 in
      subst (Pairwise R (x ∷ xs)) (returns-injective e2)
        (h x y first, run_map-Pairwise R step xs rest h later)

  module _ (sim : Simulator D) (p : InputParameter D) (m : MemoryType) where
    try_and_update-Improves :
        (g : Globals D) (r r' : Result D) → try_and_update sim p m g r ≡ returns r' → Improves r r'
    unfolding try_and_update
    try_and_update-Improves g r r' h =
        let (bank, _, e) =
          >>=-returns (trial_bank sim p m r.bank (calculate sim p g (trial_config p m r.bank))) _
            h in
        subst (Improves r) (returns-injective e) (compare_and_update-Improves r _)

    for_wires-Improves :
        (wires : WireChoice → Globals D → Result D → Globals D) (g : Globals D)
        (ws : Loop WireChoice) (best best' : List (Result D))
        → for_wires ws (refine_step sim p m wires g) best ≡ returns best'
        → Pairwise Improves best best'
    unfolding refine_step
    for_wires-Improves wires g none best best' h = cc
    for_wires-Improves wires g (some ws) best best' h = go ws best best' h
      where
        go :
            (ws : List WireChoice) (best best' : List (Result D))
            → run_all (refine_step sim p m wires g) ws best ≡ returns best'
            → Pairwise Improves best best'
        go [] best best' h =
            subst (Pairwise Improves best) (returns-injective h)
              (Pairwise-refl _ best Improves-refl)
        go (w ∷ ws) best best' h =
            let (mid, e1, h1) = >>=-returns (refine_step sim p m wires g w best) _ h in
            Pairwise-trans _ best mid best' Improves-trans
              (run_map-Pairwise Improves _ best mid
                (λ x y e. try_and_update-Improves (wires w g x) x y e) e1)
              (go ws mid best' h1)

    -- If the refinement returns, each result keeps its target and its limits, its figure is at most
    -- what it was, if that was a number and the comparisons are those of IEEE 754, and its bank is
    -- the one that it had or one within its limits.
    pub refine-Improves :
        (s : ArraySpace) (g : Globals D) (best best' : List (Result D))
        → refine sim p m s g best ≡ returns best'
        → Pairwise Improves best best'
    unfolding refine
    refine-Improves s g best best' h =
        let (mid, e1, h1) =
          >>=-returns
            (for_wires (refine_local_wires s) (refine_step sim p m (with_local sim p) g) best) _
            h in
        Pairwise-trans _ best mid best' Improves-trans (for_wires-Improves _ g _ best mid e1)
          (for_wires-Improves _ g _ mid best' h1)
