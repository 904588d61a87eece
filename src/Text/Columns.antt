-- ===== src/Text/Columns.antt =====
-- Lines of columns, each with a comma behind it, as the program writes its CSV file.
use destiny_3d_cache.Prelude.{
  ℕ, suc, ◌+◌, Bool, true, false, List, [], ◌∷◌, ◌++◌, ◌==◌, ◌≡◌, refl, arith, All, length,
  if◌then◌else◌, Bool-cases, inl, inr,
}
use destiny_3d_cache.Text.{Text}
use destiny_3d_cache.Text.Decimal.{decimal_then, decimal_then-keeps}

abbrev pub write_columns : List Text → Text
write_columns [] = []
write_columns (c ∷ cs) = c ++ (b',' ∷ write_columns cs)

abbrev pub commas : Text → ℕ
commas [] = 0
commas (c ∷ s) = if c == b',' then suc (commas s) else commas s

-- A text that stays within its column.
pub record IsColumn (s : Text) : Type 0 where
  pub has_no_comma : commas s ≡ 0

pub commas-append : (s t : Text) → commas (s ++ t) ≡ commas s + commas t
commas-append [] t = omega arith
commas-append (c ∷ s) t = elim (Bool-cases (c == b',')) [
  | inl comma ↦ rw comma (omega (arith, commas-append s t))
  | inr other ↦ rw other (commas-append s t)
]

-- There are as many commas as columns.
pub commas-write_columns :
    (cs : List Text) → All IsColumn cs → commas (write_columns cs) ≡ length cs
commas-write_columns [] h = refl
commas-write_columns (c ∷ cs) (here, later) = omega (
  arith,
  commas-append c (b',' ∷ write_columns cs),
  here.has_no_comma,
  commas-write_columns cs later,
)

pub plain-IsColumn : {s : Text} → commas s ≡ 0 → IsColumn s
plain-IsColumn h = record { has_no_comma = h }

pub append-IsColumn : (s t : Text) → IsColumn s → IsColumn t → IsColumn (s ++ t)
append-IsColumn s t hs ht = record {
  has_no_comma = omega (arith, commas-append s t, hs.has_no_comma, ht.has_no_comma);
}

pub if-IsColumn : (b : Bool) (s t : Text) → IsColumn s → IsColumn t → IsColumn (if b then s else t)
if-IsColumn true s t hs ht = hs
if-IsColumn false s t hs ht = ht

-- An integer has no comma.
pub decimal_then-IsColumn : (n : ℕ) → IsColumn (decimal_then n [])
decimal_then-IsColumn n =
    decimal_then-keeps IsColumn
      (λ c t low high h.
        let other : (c == b',') ≡ false = ground (arith, high, low) in
        record { has_no_comma = rw other h.has_no_comma })
      n [] (plain-IsColumn refl)

-- Facts of columns, one after the other.
infixr 5 ◌▹◌
abbrev pub ◌▹◌ : {A B : Type 0} → A → B → A × B
a ▹ b = (a, b)
