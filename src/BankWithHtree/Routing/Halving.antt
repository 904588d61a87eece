-- ===== src/BankWithHtree/Routing/Halving.antt =====
-- Each cut halves the product of the words and the data bits that are left to a half of the bank.
use destiny_3d_cache.Prelude.{
  ℕ, zero, suc, ◌+◌, ◌-◌, ◌*◌, ◌/◌, ◌^◌, ◌≤◌, ◌<◌, ◌≡◌, refl, ap, ◌∙◌, ◌⊎◌, inl, inr, false, arith,
  pos, pred_int, is_zero_int, min,
}
use native.Mathlib.Nat.{pow-suc, pow-zero}
use native.Mathlib.Decide.{dec_lt}
use destiny_3d_cache.Prelude.Outcome.{Outcome, ok, >>=-ok, ok-injective}
use destiny_3d_cache.Mat.{positive_part}
use destiny_3d_cache.Mat.Defined.{positive_part-pred_le}
use destiny_3d_cache.BankWithHtree.Routing.{
  Route, check_bits, first_level, horizontal_step, vertical_step, both_horizontal, both_vertical,
  both_step, rounds, last_cut, route,
}

-- After `k` cuts: no data bit is left, or 2^e of them in each of 2^n words, and the `2^k` parts
-- together make up `total`.
abbrev pub Routed : ℕ → ℕ → Route → Type 0
Routed total k s =
    (s.distribute ≡ 0)
    ⊎ ((e : ℕ) × (n : ℕ) × (s.distribute ≡ 2 ^ e)
        × (s.address ≡ pos n)
        × (2 ^ e * 2 ^ n * 2 ^ k ≡ total))

-- What one level does to what is left to route.
record Cut (s s' : Route) : Type 0 where
  not_exhausted : is_zero_int s.address ≡ false
  halved :
      (s'.distribute ≡ s.distribute / 2) × (s'.address ≡ s.address)
      ⊎ (s'.distribute ≡ s.distribute) × (s'.address ≡ pred_int s.address)
  same_levels : s'.level_horizontal ≡ s.level_horizontal
  same_broadcast : s'.broadcast ≡ s.broadcast
  columns : s'.column_to_active ≤ s.column_to_active

horizontal_step-Cut : (s s' : Route) → horizontal_step s ≡ ok s' → Cut s s'
unfolding horizontal_step check_bits
horizontal_step-Cut s s' h = ground arith

vertical_step-Cut : (s s' : Route) → vertical_step s ≡ ok s' → Cut s s'
unfolding vertical_step check_bits
vertical_step-Cut s s' h = ground arith

both_horizontal-Cut : (s s' : Route) → both_horizontal s ≡ ok s' → Cut s s'
unfolding both_horizontal check_bits
both_horizontal-Cut s s' h = ground arith

both_vertical-Cut : (s s' : Route) → both_vertical s ≡ ok s' → Cut s s'
unfolding both_vertical check_bits
both_vertical-Cut s s' h = ground arith

halve_data : (t e n k : ℕ) → 2 ^ suc e * 2 ^ n * 2 ^ k ≡ t → 2 ^ e * 2 ^ n * 2 ^ suc k ≡ t
halve_data t e n k h = omega (
  arith,
  ap (λ (x : ℕ). x * (2 ^ n * 2 ^ k)) (pow-suc 2 e),
  ap (λ (x : ℕ). x * (2 ^ e * 2 ^ n)) (pow-suc 2 k),
)

halve_words : (t e n k : ℕ) → 2 ^ e * 2 ^ suc n * 2 ^ k ≡ t → 2 ^ e * 2 ^ n * 2 ^ suc k ≡ t
halve_words t e n k h = omega (
  arith,
  ap (λ (x : ℕ). x * (2 ^ e * 2 ^ k)) (pow-suc 2 n),
  ap (λ (x : ℕ). x * (2 ^ e * 2 ^ n)) (pow-suc 2 k),
)

Cut-Routed : (t k : ℕ) (s s' : Route) → Cut s s' → Routed t k s → Routed t (suc k) s'
Cut-Routed t k s s' c (inl none_left) = inl (ground (arith, c.halved))
Cut-Routed t k s s' c (inr (e, n, data_bits, words, total)) = elim c.halved [
  | inl (d, a) ↦ of_data e data_bits d a total
  | inr (d, a) ↦ of_words n words d a total
]
  where
    of_data :
        (e : ℕ)
        → s.distribute ≡ 2 ^ e
        → s'.distribute ≡ s.distribute / 2
        → s'.address ≡ s.address
        → 2 ^ e * 2 ^ n * 2 ^ k ≡ t
        → Routed t (suc k) s'
    of_data zero p d a q = inl (omega (arith, pow-zero 2))
    of_data (suc e) p d a q =
        inr (e, n, omega (arith, pow-suc 2 e), a ∙ words, halve_data t e n k q)

    of_words :
        (n : ℕ)
        → s.address ≡ pos n
        → s'.distribute ≡ s.distribute
        → s'.address ≡ pred_int s.address
        → 2 ^ e * 2 ^ n * 2 ^ k ≡ t
        → Routed t (suc k) s'
    of_words zero p d a q = absurd (ground (arith, c.not_exhausted))
    of_words (suc n) p d a q = inr (e, n, d ∙ data_bits, a ∙ ap pred_int p, halve_words t e n k q)

record Same (s s' : Route) : Type 0 where
  same_data : s'.distribute ≡ s.distribute
  same_address : s'.address ≡ s.address
  same_levels : s'.level_horizontal ≡ s.level_horizontal
  same_broadcast : s'.broadcast ≡ s.broadcast
  same_columns : s'.column_to_active ≡ s.column_to_active

first_level-Same : (s s' : Route) → first_level s ≡ ok s' → Same s s'
unfolding first_level check_bits
first_level-Same s s' h = ground arith

last_cut-Cut : (s s' : Route) → 0 < s.level_horizontal → last_cut s ≡ ok s' → Cut s s'
unfolding last_cut check_bits
last_cut-Cut s s' wide h = ground arith

last_cut-Same :
    (s s' : Route)
    → s.level_horizontal ≡ 0
    → s.column_to_active ≤ 1
    → last_cut s ≡ ok s'
    → Same s s'
unfolding last_cut check_bits
last_cut-Same s s' flat narrow h = ground arith

Cut-address_le : (s s' : Route) → Cut s s' → positive_part s'.address ≤ positive_part s.address
Cut-address_le s s' c = elim c.halved [
  | inl (_, same) ↦ omega (arith, ap positive_part same)
  | inr (_, less) ↦ omega (arith, ap positive_part less, positive_part-pred_le s.address)
]

-- What holds after `k` cuts, from the routing's first state `s0` on.
pub record Progress (t k : ℕ) (s0 s : Route) : Type 0 where
  pub routed : Routed t k s
  pub same_levels : s.level_horizontal ≡ s0.level_horizontal
  pub same_broadcast : s.broadcast ≡ s0.broadcast
  pub columns : s.column_to_active ≤ s0.column_to_active
  pub address : positive_part s.address ≤ positive_part s0.address

module _ (t : ℕ) (s0 : Route) where
  Cut-Progress : (k : ℕ) (s s' : Route) → Cut s s' → Progress t k s0 s → Progress t (suc k) s0 s'
  Cut-Progress k s s' c p = record {
    routed = Cut-Routed t k s s' c p.routed;
    same_levels = c.same_levels ∙ p.same_levels;
    same_broadcast = c.same_broadcast ∙ p.same_broadcast;
    columns = omega (arith, c.columns, p.columns);
    address = omega (arith, Cut-address_le s s' c, p.address);
  }

  abbrev Advances : ℕ → (Route → Outcome Route) → Type 0
  Advances d step =
      (k : ℕ) (s s' : Route) → step s ≡ ok s' → Progress t k s0 s → Progress t (k + d) s0 s'

  one_more : (k : ℕ) (s : Route) → Progress t (suc k) s0 s → Progress t (k + 1) s0 s
  one_more k s p = let e : k + 1 ≡ suc k = omega arith in rw e p

  horizontal_step-Advances : Advances 1 horizontal_step
  horizontal_step-Advances k s s' h p =
      one_more k s' (Cut-Progress k s s' (horizontal_step-Cut s s' h) p)

  vertical_step-Advances : Advances 1 vertical_step
  vertical_step-Advances k s s' h p =
      one_more k s' (Cut-Progress k s s' (vertical_step-Cut s s' h) p)

  both_step-Advances : Advances 2 both_step
  unfolding both_step
  both_step-Advances k s s' h p =
      let (m, h1, h2) = >>=-ok (both_horizontal s) both_vertical h in
      let p1 = Cut-Progress k s m (both_horizontal-Cut s m h1) p in
      let e : k + 2 ≡ suc (suc k) = omega arith in
      rw e (Cut-Progress (suc k) m s' (both_vertical-Cut m s' h2) p1)

  rounds-Advances :
      (d : ℕ) (step : Route → Outcome Route)
      → Advances d step
      → (n : ℕ) → Advances (n * d) (rounds n step)
  unfolding rounds
  rounds-Advances d step a zero k s s' h p =
      let e : k + 0 * d ≡ k = omega arith in rw (e, ← ok-injective h) p
  rounds-Advances d step a (suc n) k s s' h p =
      let (m, h1, h2) = >>=-ok (step s) (rounds n step) h in
      let e : k + suc n * d ≡ k + d + n * d = omega arith in
      rw e (rounds-Advances d step a n (k + d) m s' h2 (a k s m h1 p))

  Same-Progress : (k : ℕ) (s s' : Route) → Same s s' → Progress t k s0 s → Progress t k s0 s'
  Same-Progress k s s' c p = record {
    routed = elim p.routed [
      | inl none_left ↦ inl (c.same_data ∙ none_left)
      | inr (e, n, d, a, total) ↦ inr (e, n, c.same_data ∙ d, c.same_address ∙ a, total)
    ];
    same_levels = c.same_levels ∙ p.same_levels;
    same_broadcast = c.same_broadcast ∙ p.same_broadcast;
    columns = omega (arith, c.same_columns, p.columns);
    address = omega (arith, ap positive_part c.same_address, p.address);
  }

  last_cut-Advances :
      (s0.level_horizontal ≡ 0 → s0.column_to_active ≤ 1)
      → Advances (min 1 s0.level_horizontal) last_cut
  last_cut-Advances narrow k s s' h p = elim (dec_lt 0 s0.level_horizontal) [
    | yes wide ↦
        let e : k + min 1 s0.level_horizontal ≡ suc k = omega arith in
        rw e (Cut-Progress k s s' (last_cut-Cut s s' (omega (arith, p.same_levels)) h) p)
    | no flat ↦
        let e : k + min 1 s0.level_horizontal ≡ k = omega arith in
        rw e (
          Same-Progress k s s'
            (last_cut-Same s s' (omega (arith, p.same_levels))
              (omega (arith, p.columns, narrow (omega arith))) h)
            p)
  ]

  first_Progress : Routed t 0 s0 → Progress t 0 s0 s0
  first_Progress r = record {
    routed = r;
    same_levels = refl;
    same_broadcast = refl;
    columns = omega arith;
    address = omega arith;
  }

  -- If at most one column of mats is active where there is only one, and the routing ends with a state,
  -- then it has cut the bank once for each level: no data bit is left for a mat, or what is left is
  -- 2^e data bits in each of 2^n words, and 2^(h + v) mats with as much make up what the routing has
  -- started from. The broadcast bits and the levels are the same, and the active columns
  -- and the address bits are no more.
  pub route-Progress :
      (s' : Route)
      → (s0.level_horizontal ≡ 0 → s0.column_to_active ≤ 1)
      → route s0 ≡ ok s'
      → Routed t 0 s0
      → Progress t (s0.level_horizontal + s0.level_vertical) s0 s'
  unfolding route
  route-Progress s' narrow ended r =
      let h = s0.level_horizontal - 1 in
      let v = s0.level_vertical in
      let (s1, e1, r1) = >>=-ok (first_level s0) _ ended in
      let (s2, e2, r2) = >>=-ok (rounds (h - v) horizontal_step s1) _ r1 in
      let (s3, e3, r3) = >>=-ok (rounds (v - h) vertical_step s2) _ r2 in
      let (s4, e4, r4) = >>=-ok (rounds (min h v) both_step s3) last_cut r3 in
      let p1 = Same-Progress 0 s0 s1 (first_level-Same s0 s1 e1) (first_Progress r) in
      let p2 = rounds-Advances 1 horizontal_step horizontal_step-Advances (h - v) 0 s1 s2 e2 p1 in
      let p3 = rounds-Advances 1 vertical_step vertical_step-Advances (v - h) _ s2 s3 e3 p2 in
      let p4 = rounds-Advances 2 both_step both_step-Advances (min h v) _ s3 s4 e4 p3 in
      let p5 = last_cut-Advances narrow _ s4 s' r4 p4 in
      let e : s0.level_horizontal + v ≡ _ + min 1 s0.level_horizontal = omega arith in rw e p5
