-- ===== src/Text.antt =====
-- The part of <string.h> and <stdio.h> with which the program reads its files. A text is the list of
-- its bytes, and a file holds no NUL.
pub mod Scan
pub mod Rules
pub mod Lines
pub mod Words
pub mod Decimal
pub mod Columns
use Prim.Native.Char.{code}
use Prim.Native.String.{String}
use Prim.Native.String
use destiny_3d_cache.Prelude.{ℕ, Bool, true, false, ◌&&◌, ◌||◌, List, [], ◌∷◌, ◌==◌, leb}

abbrev pub Text : Type 0
Text = List ℕ

abbrev pub codes : String → Text
codes String.[] = []
codes (String.◌∷◌ c s) = code c ∷ codes s

-- `isspace`
abbrev pub is_space : ℕ → Bool
is_space c = c == b' ' || leb 9 c && leb c 13

-- `!strncmp(key, line, strlen(key))`
abbrev pub starts_with : Text → Text → Bool
starts_with [] line = true
starts_with (k ∷ key) [] = false
starts_with (k ∷ key) (c ∷ line) = k == c && starts_with key line

-- `!strcmp(a, b)`
abbrev pub same_text : Text → Text → Bool
same_text [] [] = true
same_text [] (b ∷ bs) = false
same_text (a ∷ as') [] = false
same_text (a ∷ as') (b ∷ bs) = a == b && same_text as' bs
