-- ===== src/Nvsim/Explore/Candidates.antt =====
-- The results that the loop over the designs of an array compares the kept ones with.
use mathlib.Core.Path.{fun_ext}
use mathlib.Core.List.{map-id, map-map}
use destiny_3d_cache.Prelude.{
  ◌+◌, ◌/◌, ◌≡◌, refl, sym, ap, ◌∙◌, subst, Option, List, [], ◌∷◌, ◌++◌, map, ◌==◌, if◌then◌else◌,
  arith, length, length-append, Bool-cases, inl, inr,
}
use destiny_3d_cache.Prelude.Outcome.{Outcome, ok, invalid, undefined}
use destiny_3d_cache.Prelude.Run.{returns, exits, run_all, >>=-returns, returns-injective}
use destiny_3d_cache.Double.{Double}
use destiny_3d_cache.Bank.{Bank}
use destiny_3d_cache.InputParameter.{InputParameter}
use destiny_3d_cache.Search.{Point}
use destiny_3d_cache.Result.{Result, Limits, compare_and_update}
use destiny_3d_cache.Result.Best.{update_all}
use destiny_3d_cache.Nvsim.{Simulator, Globals, calculate}
use destiny_3d_cache.Nvsim.Explore.{
  Exploration, Target, active_product, organised, allowed, update_best, temp_result,
  after_calculate, config_of, design_step,
}

exits≢returns : {A : Type 0} (a : A) → ¬ (exits ≡ returns a)
exits≢returns a h = cc

module _ {D : Type 0} ⦃d : Double D⦄ where
  update_all-append :
      (r : Result D) (xs ys : List (Result D))
      → update_all r (xs ++ ys) ≡ update_all (update_all r xs) ys
  unfolding update_all
  update_all-append r [] ys = refl
  update_all-append r (x ∷ xs) ys = update_all-append (compare_and_update r x).0 xs ys

module _ {D : Type 0} ⦃d : Double D⦄ (sim : Simulator D) (p : InputParameter D)
    (limits : Option (Limits D)) (t : Target) (g : Globals D) where
  -- The result of a design, if it is legal and allowed.
  abbrev pub legal : Outcome (Bank D) → List (Result D)
  legal (ok bank) = if allowed limits bank then temp_result sim p g bank ∷ [] else []
  legal _ = []

  unfoldable pub candidate : Point → List (Result D)
  candidate x =
      if t.block_size / active_product x == 0
      then []
      else legal (calculate sim p g (config_of sim p t x))

  unfoldable pub candidates : List Point → List (Result D)
  candidates [] = []
  candidates (x ∷ xs) = candidate x ++ candidates xs

  -- What a part of the search does to its state, from the candidates that it has met.
  pub record Meets (cs : List (Result D)) (s s' : Exploration D) : Type 0 where
    pub globals : s'.globals ≡ s.globals
    pub num_solution : s'.num_solution ≡ s.num_solution + length cs
    pub best : s'.best ≡ map (λ r. update_all r cs) s.best

  Meets-none :
      (s s' : Exploration D)
      → s'.globals ≡ s.globals
      → s'.num_solution ≡ s.num_solution
      → s'.best ≡ s.best
      → Meets [] s s'
  unfolding update_all
  Meets-none s s' eg en eb = record {
    globals = eg;
    num_solution = omega (arith, en);
    best = eb ∙ sym (map-id s.best);
  }

  after_calculate-Meets :
      (x : Point) (o : Outcome (Bank D)) (s s' : Exploration D)
      → s.globals ≡ g
      → after_calculate sim p limits t x o s ≡ returns s'
      → Meets (legal o) s s'
  unfolding update_all
  after_calculate-Meets x undefined s s' eg h = cc
  after_calculate-Meets x invalid s s' eg h =
      subst (Meets [] s) (returns-injective h) (Meets-none s _ refl refl refl)
  after_calculate-Meets x (ok bank) s s' eg h = elim (Bool-cases (allowed limits bank)) [
    | inl keep ↦ elim (Bool-cases (organised x bank == t.capacity)) [
      | inl same ↦
          let e = returns-injective (rw (keep, same) at h) in
          rw keep (
            subst (Meets (temp_result sim p g bank ∷ []) s) e (record {
              globals = refl;
              num_solution = refl;
              best = ap (λ (w : Globals D). update_best (temp_result sim p w bank) s.best) eg;
            }))
      | inr other ↦ absurd (exits≢returns s' (rw (keep, other) at h))
    ]
    | inr drop ↦
        rw drop
          (subst (Meets [] s) (returns-injective (rw drop at h)) (Meets-none s _ refl refl refl))
  ]

  design_step-Meets :
      (x : Point) (s s' : Exploration D)
      → s.globals ≡ g
      → design_step sim p limits t x s ≡ returns s'
      → Meets (candidate x) s s'
  unfolding design_step candidate
  design_step-Meets x s s' eg h = elim (Bool-cases (t.block_size / active_product x == 0)) [
    | inl too_fine ↦
        rw too_fine (
          subst (Meets [] s) (returns-injective (rw too_fine at h)) (Meets-none s s refl refl refl))
    | inr fits ↦ rw fits (
        after_calculate-Meets x (calculate sim p g (config_of sim p t x)) s s' eg (
          subst
            (λ w.
              after_calculate sim p limits t x (calculate sim p w (config_of sim p t x)) s
              ≡ returns s')
            eg (rw fits at h)))
  ]

  Meets-trans :
      (xs ys : List (Result D)) (s s1 s2 : Exploration D)
      → Meets xs s s1
      → Meets ys s1 s2
      → Meets (xs ++ ys) s s2
  Meets-trans xs ys s s1 s2 a b = record {
    globals = b.globals ∙ a.globals;
    num_solution = omega (arith, a.num_solution, b.num_solution, length-append xs ys);
    best =
        b.best
        ∙ (ap (map (λ r. update_all r ys)) a.best
            ∙ (map-map (λ r. update_all r ys) (λ r. update_all r xs) s.best
                ∙ ap (λ (f : Result D → Result D). map f s.best)
                    (fun_ext λ r. sym (update_all-append r xs ys))));
  }

  -- A run over points keeps what the candidates, in order, leave of the kept results.
  pub run_all-Meets :
      (xs : List Point) (s s' : Exploration D)
      → s.globals ≡ g
      → run_all (design_step sim p limits t) xs s ≡ returns s'
      → Meets (candidates xs) s s'
  unfolding candidates
  run_all-Meets [] s s' eg h =
      subst (Meets [] s) (returns-injective h) (Meets-none s s refl refl refl)
  run_all-Meets (x ∷ xs) s s' eg h =
      let (s1, e1, h1) = >>=-returns (design_step sim p limits t x s) _ h in
      let first = design_step-Meets x s s1 eg e1 in
      Meets-trans _ _ s s1 s' first (run_all-Meets xs s1 s' (first.globals ∙ eg) h1)
