-- ===== src/Search/Loops.antt =====
-- Nested `for` loops, as the list of what the innermost body sees, in order. `none` is a loop that
-- never ends. A loop that doubles its variable from 0 is one.
use destiny_3d_cache.Prelude.{
  ℕ, zero, suc, ◌+◌, ◌-◌, ◌*◌, ◌^◌, ◌≤◌, ◌≡◌, refl, sym, subst, ◌↔◌, ◌⊎◌, inl, inr, Option, none,
  some, List, [], ◌∷◌, ◌++◌, arith, leb, if◌then◌else◌, Any,
}

abbrev pub Loop : Type 0 → Type 0
Loop A = Option (List A)

module _ {A : Type 0} where
  abbrev pub yield_point : A → Loop A
  yield_point x = some (x ∷ [])

  unfoldable pub append_loop : Loop A → Loop A → Loop A
  append_loop none n = none
  append_loop (some xs) none = none
  append_loop (some xs) (some ys) = some (xs ++ ys)

  unfoldable pub Ends : Loop A → Type 0
  Ends none = ⊥
  Ends (some xs) = Unit

  unfoldable pub Yields : Loop A → A → Type 0
  Yields none x = ⊥
  Yields (some xs) x = Any (λ y. y ≡ x) xs

  -- The loop ends, and its body sees exactly the values with `P`.
  pub record Enumerates (m : Loop A) (P : A → Type 0) : Type 0 where
    pub ends : Ends m
    pub sound : (x : A) → Yields m x → P x
    pub complete : (x : A) → P x → Yields m x

  Any-append :
      (x : A) (xs ys : List A)
      → Any (λ y. y ≡ x) (xs ++ ys) ↔ (Any (λ y. y ≡ x) xs ⊎ Any (λ y. y ≡ x) ys)
  Any-append x [] ys = (inr, λ h. elim h [ inl e ↦ absurd e | inr e ↦ e ])
  Any-append x (z ∷ xs) ys = let (to, from) = Any-append x xs ys in ground arith

  pub append_loop-Enumerates :
      (m n : Loop A) {P Q : A → Type 0}
      → Enumerates m P
      → Enumerates n Q
      → Enumerates (append_loop m n) (λ x. P x ⊎ Q x)
  unfolding append_loop Ends Yields
  append_loop-Enumerates none n em en = absurd em.ends
  append_loop-Enumerates (some xs) none em en = absurd en.ends
  append_loop-Enumerates (some xs) (some ys) em en = record {
    ends = tt;
    sound = λ x h. elim ((Any-append x xs ys).0 h) [
      | inl l ↦ inl (em.sound x l)
      | inr r ↦ inr (en.sound x r)
    ];
    complete = λ x h.
        (Any-append x xs ys).1
          (elim h [ inl p ↦ inl (em.complete x p) | inr q ↦ inr (en.complete x q) ]);
  }

  pub Enumerates-iff :
      (m : Loop A) {P Q : A → Type 0} → ((x : A) → P x ↔ Q x) → Enumerates m P → Enumerates m Q
  Enumerates-iff m e h = record {
    ends = h.ends;
    sound = λ x y. (e x).0 (h.sound x y);
    complete = λ x q. h.complete x ((e x).1 q);
  }

  pub yield_point-Enumerates : (x : A) → Enumerates (yield_point x) (λ y. x ≡ y)
  unfolding Ends Yields
  yield_point-Enumerates x = record {
    ends = tt;
    sound = λ y h. elim h [ inl e ↦ e | inr e ↦ absurd e ];
    complete = λ y e. inl e;
  }

module _ {A B : Type 0} where
  unfoldable pub for_each : List A → (A → Loop B) → Loop B
  unfolding append_loop
  for_each [] body = some []
  for_each (x ∷ xs) body = append_loop (body x) (for_each xs body)

  infixl 5 ◌>>=◌
  unfoldable pub ◌>>=◌ : Loop A → (A → Loop B) → Loop B
  unfolding for_each
  none >>= body = none
  some xs >>= body = for_each xs body

  for_each-Enumerates :
      (xs : List A) (body : A → Loop B) (P : A → Type 0) {Q : A → B → Type 0}
      → ((x : A) → Any (λ y. y ≡ x) xs → P x)
      → ((x : A) → P x → Enumerates (body x) (Q x))
      → Enumerates (for_each xs body) (λ y. (x : A) × Any (λ z. z ≡ x) xs × Q x y)
  unfolding for_each Ends Yields
  for_each-Enumerates [] body P ps h = record {
    ends = tt;
    sound = λ y e. absurd e;
    complete = λ y q. q.1;
  }
  for_each-Enumerates (x ∷ xs) body P {Q} ps h =
      Enumerates-iff (append_loop (body x) (for_each xs body))
        (λ y. (
          λ s. elim s [ inl q ↦ (x, inl refl, q) | inr (z, at, q) ↦ (z, inr at, q) ],
          λ (z, at, q). elim at [
            | inl e ↦ inl (subst (λ w. Q w y) (sym e) q)
            | inr later ↦ inr (z, later, q)
          ],
        ))
        (append_loop-Enumerates (body x) (for_each xs body) (h x (ps x (inl refl)))
          (for_each-Enumerates xs body P (λ z at. ps z (inr at)) h))

  -- A loop around a loop sees the pairs of values that both see.
  pub bind-Enumerates :
      (m : Loop A) (body : A → Loop B) {P : A → Type 0} {Q : A → B → Type 0}
      → Enumerates m P
      → ((x : A) → P x → Enumerates (body x) (Q x))
      → Enumerates (m >>= body) (λ y. (x : A) × P x × Q x y)
  unfolding ◌>>=◌ Ends Yields
  bind-Enumerates none body em h = absurd em.ends
  bind-Enumerates (some xs) body {P} em h =
      Enumerates-iff (for_each xs body)
        (λ y. (λ (x, at, q). (x, em.sound x at, q), λ (x, p, q). (x, em.complete x p, q)))
        (for_each-Enumerates xs body P em.sound h)

-- `for (x = lo; x <= hi; x *= 2)`. What a `let` binds waits, so the loop stops at its test.
unfoldable pub doubling_fuel : ℕ → ℕ → ℕ → Loop ℕ
unfolding append_loop
doubling_fuel zero x hi = none
doubling_fuel (suc fuel) x hi =
    let rest = append_loop (yield_point x) (doubling_fuel fuel (2 * x) hi) in
    if leb x hi then rest else some []

-- A value that is not 0 passes `hi` within `hi` rounds.
unfoldable pub doubling : ℕ → ℕ → Loop ℕ
unfolding doubling_fuel
doubling lo hi = doubling_fuel (suc hi) lo hi

-- `for (x = lo; x <= hi; x++)`, with the rounds that are left
unfoldable pub counting_rounds : ℕ → ℕ → List ℕ
counting_rounds zero x = []
counting_rounds (suc n) x = x ∷ counting_rounds n (x + 1)

unfoldable pub counting : ℕ → ℕ → Loop ℕ
unfolding counting_rounds
counting lo hi = some (counting_rounds (suc hi - lo) lo)

abbrev pub IsDoubled : ℕ → ℕ → ℕ → Type 0
IsDoubled lo hi x = (k : ℕ) × (x ≡ lo * 2 ^ k) × (x ≤ hi)

abbrev pub IsBetween : ℕ → ℕ → ℕ → Type 0
IsBetween lo hi x = (lo ≤ x) × (x ≤ hi)
