-- ===== src/Prelude/Lists.antt =====
-- Predicates on lists by recursion, which the tactics read and build.
use Prim.Native.Nat.{ℕ, suc, ◌+◌}
use mathlib.Core.Path.{◌≡◌, refl}
use mathlib.Core.Logic.{◌⊎◌, inl, inr}
use mathlib.Core.List.{List, [], ◌∷◌, ◌++◌, map}
use native.Mathlib.Omega.{arith}

module _ {ℓ} {A : Type ℓ} where
  abbrev pub length : List A → ℕ
  length [] = 0
  length (x ∷ xs) = suc (length xs)

  abbrev pub All {κ} : (A → Type κ) → List A → Type κ
  All P [] = Unit
  All P (x ∷ xs) = P x × All P xs

  abbrev pub Any : (A → Type 0) → List A → Type 0
  Any P [] = ⊥
  Any P (x ∷ xs) = P x ⊎ Any P xs

  pub All-map {κ μ} :
      {P : A → Type κ} {Q : A → Type μ} (f : (x : A) → P x → Q x) (xs : List A)
      → All P xs
      → All Q xs
  All-map f [] h = tt
  All-map f (x ∷ xs) (p, ps) = (f x p, All-map f xs ps)

  pub Any-map : {P Q : A → Type 0} (f : (x : A) → P x → Q x) (xs : List A) → Any P xs → Any Q xs
  Any-map f [] h = h
  Any-map f (x ∷ xs) (inl p) = inl (f x p)
  Any-map f (x ∷ xs) (inr ps) = inr (Any-map f xs ps)

  pub length-append : (xs ys : List A) → length (xs ++ ys) ≡ length xs + length ys
  length-append [] ys = omega arith
  length-append (x ∷ xs) ys = omega (arith, length-append xs ys)

  pub All-append {κ} : (P : A → Type κ) (xs ys : List A) → All P xs → All P ys → All P (xs ++ ys)
  All-append P [] ys h k = k
  All-append P (x ∷ xs) ys (p, ps) k = (p, All-append P xs ys ps k)

  pub All-append_left : (P : A → Type 0) (xs ys : List A) → All P (xs ++ ys) → All P xs
  All-append_left P [] ys h = tt
  All-append_left P (x ∷ xs) ys (p, ps) = (p, All-append_left P xs ys ps)

  pub All-append_right : (P : A → Type 0) (xs ys : List A) → All P (xs ++ ys) → All P ys
  All-append_right P [] ys h = h
  All-append_right P (x ∷ xs) ys (p, ps) = All-append_right P xs ys ps

  -- A predicate of what `f` returns, for each element that has `P`.
  pub All-of_map :
      (P Q : A → Type 0) (f : A → A)
      → ((x : A) → P x → Q (f x))
      → (xs : List A) → All P xs
      → All Q (map f xs)
  All-of_map P Q f step [] h = tt
  All-of_map P Q f step (x ∷ xs) (p, ps) = (step x p, All-of_map P Q f step xs ps)

pub All-of_Any :
    {A : Type 0} (P : A → Type 0) (xs : List A) → ((x : A) → Any (λ y. y ≡ x) xs → P x) → All P xs
All-of_Any P [] h = tt
All-of_Any P (x ∷ xs) h = (h x (inl refl), All-of_Any P xs λ y at. h y (inr at))

-- A relation between the elements of two lists at the same place.
abbrev pub Pairwise : {A : Type 0} → (A → A → Type 0) → List A → List A → Type 0
Pairwise R [] [] = Unit
Pairwise R [] (y ∷ ys) = ⊥
Pairwise R (x ∷ xs) [] = ⊥
Pairwise R (x ∷ xs) (y ∷ ys) = R x y × Pairwise R xs ys

pub Pairwise-refl :
    {A : Type 0} (R : A → A → Type 0) (xs : List A) → ((x : A) → R x x) → Pairwise R xs xs
Pairwise-refl R [] r = tt
Pairwise-refl R (x ∷ xs) r = (r x, Pairwise-refl R xs r)

pub Pairwise-trans :
    {A : Type 0} (R : A → A → Type 0) (xs ys zs : List A)
    → ((x y z : A) → R x y → R y z → R x z)
    → Pairwise R xs ys
    → Pairwise R ys zs
    → Pairwise R xs zs
Pairwise-trans R [] [] [] t h k = tt
Pairwise-trans R [] [] (z ∷ zs) t h k = absurd k
Pairwise-trans R [] (y ∷ ys) zs t h k = absurd h
Pairwise-trans R (x ∷ xs) [] zs t h k = absurd h
Pairwise-trans R (x ∷ xs) (y ∷ ys) [] t h k = absurd k
Pairwise-trans R (x ∷ xs) (y ∷ ys) (z ∷ zs) t (h, hs) (k, ks) =
    (t x y z h k, Pairwise-trans R xs ys zs t hs ks)

pub All-of_image :
    {A : Type 0} (P : A → Type 0) (f : A → A) (xs : List A) → ((x : A) → P (f x)) → All P (map f xs)
All-of_image P f [] h = tt
All-of_image P f (x ∷ xs) h = (h x, All-of_image P f xs h)
