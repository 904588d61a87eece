-- ===== src/Text/Words.antt =====
-- Words, and that `sscanf` reads them whole.
use destiny_3d_cache.Prelude.{
  Bool, true, false, ◌&&◌, [], ◌∷◌, some, ◌≡◌, refl, ap, ◌∙◌, not, arith,
}
use destiny_3d_cache.Text.{Text, is_space}
use destiny_3d_cache.Text.Scan.{skip_spaces, first_word, some_word}

abbrev pub has_no_space : Text → Bool
has_no_space [] = true
has_no_space (c ∷ s) = not (is_space c) && has_no_space s

abbrev pub is_word : Text → Bool
is_word [] = false
is_word (c ∷ s) = has_no_space (c ∷ s)

abbrev pub IsWord : Text → Type 0
IsWord w = is_word w ≡ true

and_left : (a b : Bool) → (a && b) ≡ true → a ≡ true
and_left a b h = ground arith

and_right : (a b : Bool) → (a && b) ≡ true → b ≡ true
and_right a b h = ground arith

not-true : (a : Bool) → not a ≡ true → a ≡ false
not-true a h = ground arith

first_word-has_no_space : (w : Text) → has_no_space w ≡ true → first_word w ≡ w
first_word-has_no_space [] h = refl
first_word-has_no_space (c ∷ s) h =
    let dull = not-true (is_space c) (and_left (not (is_space c)) (has_no_space s) h) in
    rw (dull, first_word)
      (ap (◌∷◌ c) (first_word-has_no_space s (and_right (not (is_space c)) (has_no_space s) h)))

first_word-IsWord : (w : Text) → IsWord w → some_word (first_word w) ≡ some w
first_word-IsWord [] h = cc
first_word-IsWord (c ∷ s) h = ap some_word (first_word-has_no_space (c ∷ s) h)

skip_spaces-IsWord : (w : Text) → IsWord w → skip_spaces w ≡ w
skip_spaces-IsWord [] h = refl
skip_spaces-IsWord (c ∷ s) h =
    let dull = not-true (is_space c) (and_left (not (is_space c)) (has_no_space s) h) in
    rw (dull, skip_spaces) refl

-- `%s` behind a space in the format assigns a word whole.
pub scanned-IsWord :
    (w : Text) → IsWord w → some_word (first_word (skip_spaces (skip_spaces w))) ≡ some w
scanned-IsWord w h =
    ap (λ v. some_word (first_word v))
      (ap skip_spaces (skip_spaces-IsWord w h) ∙ skip_spaces-IsWord w h)
    ∙ first_word-IsWord w h
