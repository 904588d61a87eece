-- ===== src/Nvsim/Explore/Exact.antt =====
-- The designs whose banks hold their capacity exactly, whatever the kind of the bank.
use destiny_3d_cache.Prelude.{
  ℕ, ◌*◌, ◌≡◌, refl, sym, ap, subst, ◌∙◌, true, Option, none, some, List, [], ◌∷◌, ◌==◌, arith, ◌⊎◌,
  inl, inr, IsPowerOfTwo, All, All-of_Any, Bool-cases,
}
use destiny_3d_cache.Prelude.Outcome.{Outcome, ok, invalid, undefined, >>=-ok, ok-injective}
use destiny_3d_cache.Prelude.Run.{Run, returns, exits, never_ends, outside, ◌>>=◌, run_all}
use destiny_3d_cache.Double.{Double}
use destiny_3d_cache.TypeDef.{data_array, tag, RoutingMode, h_tree, non_h_tree}
use destiny_3d_cache.Bank.{Bank}
use destiny_3d_cache.Mat.{Mat}
use destiny_3d_cache.BankConfig.{BankConfig}
use destiny_3d_cache.BankConfig.Powers.{IsPowers, HoldsWords, bank_clamped-eq_self}
use destiny_3d_cache.BankConfig.Capacity.{organised_bits}
use destiny_3d_cache.BankWithHtree.{htree_initialize}
use destiny_3d_cache.BankWithHtree.Capacity.{htree_data-capacity, htree_tag-capacity, htree-config}
use destiny_3d_cache.BankWithoutHtree.{flat_initialize}
use destiny_3d_cache.BankWithoutHtree.Capacity.{flat_data-capacity, flat_tag-capacity, flat-config}
use destiny_3d_cache.InputParameter.{InputParameter}
use destiny_3d_cache.Search.{Point}
use destiny_3d_cache.Search.Loops.{Loop, Yields, Enumerates}
use destiny_3d_cache.Result.{Limits}
use destiny_3d_cache.Nvsim.{
  Simulator, Globals, calculate, initialize_bank, mat_context, bank_context,
}
use destiny_3d_cache.Nvsim.Explore.{
  Exploration, Target, organised, allowed, after_calculate, config_of, for_points,
}

bind-never_exits :
    {A B : Type 0} (m : Run A) (f : A → Run B)
    → ¬ (m ≡ exits)
    → ((a : A) → ¬ (f a ≡ exits))
    → ¬ ((m >>= f) ≡ exits)
bind-never_exits (returns a) f other rest e = rest a e
bind-never_exits exits f other rest e = other refl
bind-never_exits never_ends f other rest e = cc
bind-never_exits outside f other rest e = cc

-- A body that exits for no point of the list does not exit.
run_all-never_exits :
    {S : Type 0} (step : Point → S → Run S) (xs : List Point) (s : S)
    → All (λ x. (s : S) → ¬ (step x s ≡ exits)) xs
    → ¬ (run_all step xs s ≡ exits)
run_all-never_exits step [] s h e = cc
run_all-never_exits step (x ∷ xs) s (here, later) e =
    bind-never_exits (step x s) (run_all step xs) (here s)
      (λ s'. run_all-never_exits step xs s' later) e

pub for_points-never_exits :
    {D : Type 0} (m : Loop Point) (step : Point → Exploration D → Run (Exploration D))
    (s : Exploration D) {P : Point → Type 0}
    → Enumerates m P
    → ((x : Point) → P x → (s : Exploration D) → ¬ (step x s ≡ exits))
    → ¬ (for_points m step s ≡ exits)
unfolding Yields
for_points-never_exits none step s found h e = cc
for_points-never_exits (some xs) step s found h e =
    run_all-never_exits step xs s (All-of_Any _ xs λ x at. h x (found.sound x at)) e

pub returns≢exits : {A : Type 0} {a : A} → ¬ (returns a ≡ exits)
returns≢exits e = cc

-- What a design must be for the capacity of its bank to be exact.
pub record IsExact (c : BankConfig) : Type 0 where
  pub words : ℕ
  pub powers : IsPowers c
  pub holds : HoldsWords c words
  pub active_column : IsPowerOfTwo c.num_active_mat_per_column
  pub active_row : IsPowerOfTwo c.num_active_mat_per_row
  pub array :
      (c.memory_type ≡ data_array) × IsPowerOfTwo c.block_size
      ⊎ (c.memory_type ≡ tag)
        × ((d : ℕ) × (c.block_size
              ≡ d * (c.num_active_subarray_per_row * c.num_active_subarray_per_column)))

module _ {D : Type 0} ⦃d : Double D⦄ (sim : Simulator D) (p : InputParameter D) where
  initialize_bank-exact :
      (mode : RoutingMode) (g : Globals D) (c c' : BankConfig) (m : Mat)
      → IsExact c
      → initialize_bank sim p mode g c ≡ ok (c', m)
      → (c ≡ c') × (organised_bits c m ≡ c.capacity)
  initialize_bank-exact h_tree g c c' m x h =
      let (b, made, e) = >>=-ok (htree_initialize (mat_context sim p g) c) _ h in
      let same = ok-injective e in
      let kept =
        sym (bank_clamped-eq_self c x.powers)
        ∙ (htree-config _ c b made ∙ ap (λ (q : BankConfig × Mat). q.0) same) in
      (
        kept,
        subst (λ w. organised_bits c w ≡ c.capacity) (ap (λ (q : BankConfig × Mat). q.1) same)
            (elim x.array [
              | inl (et, block) ↦ htree_data-capacity _ c x.words b x.powers x.holds block et made
              | inr (et, divide) ↦ htree_tag-capacity _ c x.words b x.powers x.holds divide et made
            ]),
      )
  initialize_bank-exact non_h_tree g c c' m x h =
      let (b, made, e) = >>=-ok (flat_initialize (bank_context sim p g) c) _ h in
      let same = ok-injective e in
      let kept =
        sym (bank_clamped-eq_self c x.powers)
        ∙ (flat-config _ c b made ∙ ap (λ (q : BankConfig × Mat). q.0) same) in
      (
        kept,
        subst (λ w. organised_bits c w ≡ c.capacity) (ap (λ (q : BankConfig × Mat). q.1) same)
            (elim x.array [
              | inl (et, block) ↦
                  flat_data-capacity _ c x.words b x.powers x.holds x.active_column x.active_row
                    block et made
              | inr (et, divide) ↦
                  flat_tag-capacity _ c x.words b x.powers x.holds x.active_column x.active_row
                    divide et made
            ]),
      )

  pub calculate-organised :
      (t : Target) (x : Point) (g : Globals D) (bank : Bank D)
      → IsExact (config_of sim p t x)
      → calculate sim p g (config_of sim p t x) ≡ ok bank
      → organised x bank ≡ t.capacity
  unfolding calculate
  calculate-organised t x g bank exact h =
      let ((c', m), made, e) =
        >>=-ok (initialize_bank sim p p.routing_mode g (config_of sim p t x)) _ h in
      let (kept, bits) = initialize_bank-exact p.routing_mode g _ c' m exact made in
      subst (λ b. organised x b ≡ t.capacity) (ok-injective e)
        (subst
          (λ (c : BankConfig).
            m.subarray.num_column * m.subarray.num_row * c.num_column_mat * c.num_row_mat
              * c.num_column_subarray * c.num_row_subarray * x.stacked_die_count
            ≡ t.capacity)
          kept bits)

  pub after_calculate-never_exits :
      (limits : Option (Limits D)) (t : Target) (x : Point) (o : Outcome (Bank D))
      (s : Exploration D)
      → ((bank : Bank D) → o ≡ ok bank → organised x bank ≡ t.capacity)
      → ¬ (after_calculate sim p limits t x o s ≡ exits)
  after_calculate-never_exits limits t x undefined s h e = cc
  after_calculate-never_exits limits t x invalid s h e = cc
  after_calculate-never_exits limits t x (ok bank) s h e =
      let same : (organised x bank == t.capacity) ≡ true = ground (arith, h bank refl) in
      elim (Bool-cases (allowed limits bank)) [
        | inl keep ↦ returns≢exits (rw (keep, same) at e)
        | inr drop ↦ returns≢exits (rw drop at e)
      ]
