-- ===== src/Technology/Layers.antt =====
-- The figures of the TSVs do not depend on the layer counts that were set before.
use destiny_3d_cache.Prelude.{
  ℕ, ◌<◌, true, ◌&&◌, List, [], ◌∷◌, ◌++◌, ◌==◌, ltb, ◌≡◌, refl, sym, ap, ◌∙◌, arith, Bool-cases,
  inl, inr,
}
use destiny_3d_cache.Prelude.Run.{returns, ◌>>=◌, run_all}
use destiny_3d_cache.Double.{Double}
use destiny_3d_cache.InputParameter.{InputParameter}
use destiny_3d_cache.Technology.{Technology, recalculate, set_layer_count}

module _ {D : Type 0} ⦃d : Double D⦄ (p : InputParameter D) where
  -- The figures of the TSVs are those of the layer count.
  abbrev pub IsCurrent : Technology D → Type 0
  IsCurrent t = recalculate p t.layer_count t ≡ t

  recalculate-IsCurrent : (n : ℕ) (t : Technology D) → IsCurrent (recalculate p n t)
  unfolding recalculate
  recalculate-IsCurrent n t = refl

  recalculate-recalculate :
      (m n : ℕ) (t : Technology D) → recalculate p n (recalculate p m t) ≡ recalculate p n t
  unfolding recalculate
  recalculate-recalculate m n t = refl

  set_layer_count-recalculate :
      (n : ℕ) (t : Technology D)
      → p.local_tsv_projection < 2
      → p.global_tsv_projection < 2
      → IsCurrent t
      → set_layer_count p n t ≡ returns (recalculate p n t)
  unfolding set_layer_count
  set_layer_count-recalculate n t a b h = elim (Bool-cases (n == t.layer_count)) [
    | inl same ↦
        let e : n ≡ t.layer_count = ground (arith, same) in
        rw same (ap returns (sym (ap (λ k. recalculate p k t) e ∙ h)))
    | inr other ↦
        let inside : (ltb p.local_tsv_projection 2 && ltb p.global_tsv_projection 2) ≡ true =
          ground (arith, a, b) in
        rw (other, inside) refl
  ]

  -- If the projections of the configuration are 0 or 1 and the figures of the TSVs are those of the
  -- layer count, then setting one layer count after the other leaves the figures of the last one,
  -- computed from the technology at the start, although `SetLayerCount` computes nothing when the
  -- layer count stays.
  pub run_all-set_layer_count :
      (ns : List ℕ) (n : ℕ) (t : Technology D)
      → p.local_tsv_projection < 2
      → p.global_tsv_projection < 2
      → IsCurrent t
      → run_all (set_layer_count p) (ns ++ n ∷ []) t ≡ returns (recalculate p n t)
  run_all-set_layer_count [] n t a b h =
      ap (λ m. m >>= λ s. returns s) (set_layer_count-recalculate n t a b h)
  run_all-set_layer_count (m ∷ ms) n t a b h =
      ap (λ r. r >>= run_all (set_layer_count p) (ms ++ n ∷ []))
        (set_layer_count-recalculate m t a b h)
      ∙ (run_all-set_layer_count ms n (recalculate p m t) a b (recalculate-IsCurrent m t)
          ∙ ap returns (recalculate-recalculate m n t))
