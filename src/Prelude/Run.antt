-- ===== src/Prelude/Run.antt =====
-- How a run of the program goes on: it returns, calls `exit(-1)`, never ends, or leaves what is
-- modelled (undefined behaviour, a number that is negative where none is meant to be).
use mathlib.Core.Path.{◌≡◌, refl}
use mathlib.Core.List.{List, [], ◌∷◌}
use mathlib.Core.Bool.{Bool, true, false}

pub data Run (A : Type 0) : Type 0 where
  returns : A → Run A
  exits : Run A
  never_ends : Run A
  outside : Run A

infixl 5 ◌>>=◌
abbrev pub ◌>>=◌ : {A B : Type 0} → Run A → (A → Run B) → Run B
returns a >>= f = f a
exits >>= f = exits
never_ends >>= f = never_ends
outside >>= f = outside

-- `if (b) exit(-1);`
abbrev pub exit_if : Bool → Run (Unit {0})
exit_if true = exits
exit_if false = returns tt

-- A body for each element, in order.
abbrev pub run_all : {A S : Type 0} → (A → S → Run S) → List A → S → Run S
run_all step [] s = returns s
run_all step (x ∷ xs) s = step x s >>= run_all step xs

-- A body that replaces each element, in order.
abbrev pub run_map : {A : Type 0} → (A → Run A) → List A → Run (List A)
run_map step [] = returns []
run_map step (x ∷ xs) = do y ← step x; ys ← run_map step xs; returns (y ∷ ys)

pub >>=-returns :
    {A B : Type 0} (m : Run A) (f : A → Run B) {b : B}
    → (m >>= f) ≡ returns b
    → (a : A) × (m ≡ returns a) × (f a ≡ returns b)
>>=-returns (returns a) f h = (a, refl, h)
>>=-returns exits f h = cc
>>=-returns never_ends f h = cc
>>=-returns outside f h = cc

pub returns-injective : {A : Type 0} {a b : A} → returns a ≡ returns b → a ≡ b
returns-injective h = cc

-- A run that returns, and what it returns.
abbrev pub IsReturned : {A : Type 0} → Run A → Type 0
IsReturned (returns a) = Unit
IsReturned _ = ⊥

abbrev pub result : {A : Type 0} (m : Run A) → IsReturned m → A
result (returns a) h = a
result exits h = absurd h
result never_ends h = absurd h
result outside h = absurd h

pub result-returns : {A : Type 0} (m : Run A) (h : IsReturned m) → m ≡ returns (result m h)
result-returns (returns a) h = refl
result-returns exits h = absurd h
result-returns never_ends h = absurd h
result-returns outside h = absurd h
