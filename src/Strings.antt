-- ===== src/Strings.antt =====
-- What the program uses of Go's package strings, on texts of Unicode characters.
pub mod Split
use Prim.Native.Char.{Char, code}
use Prim.Native.String.{[], ◌∷◌}
use mindengage_lms.Prelude.{
  ℕ, String, Option, none, some, Bool, true, false, ◌&&◌, ◌||◌, ◌==◌, str_eq, leb, if◌then◌else◌,
}

-- Tables of package unicode that are data of the language's library: the simple lower case of a
-- character, the punctuation class, and simple case folding.
pub record Unicode : Type 0 where
  pub lower : Char → Char
  pub is_punct : Char → Bool
  -- what simple case folding makes of a character
  pub fold : Char → Char

abbrev between : ℕ → ℕ → ℕ → Bool
between lo hi c = leb lo c && leb c hi

-- unicode.IsSpace
unfoldable pub is_space : Char → Bool
is_space ch =
    let c = code ch in
    between 9 13 c
    || c == 0x20
    || c == 0x85
    || c == 0xa0
    || c == 0x1680
    || between 0x2000 0x200a c
    || between 0x2028 0x2029 c
    || c == 0x202f
    || c == 0x205f
    || c == 0x3000

abbrev pub is_empty : String → Bool
is_empty [] = true
is_empty (c ∷ s) = false

unfoldable pub trim_left : String → String
trim_left [] = []
trim_left (c ∷ s) = if is_space c then trim_left s else (c ∷ s)

unfoldable pub trim_right : String → String
trim_right [] = []
trim_right (c ∷ s) = let r = trim_right s in if is_space c && is_empty r then [] else (c ∷ r)

-- strings.TrimSpace
unfoldable pub trim_space : String → String
unfolding trim_left trim_right is_space
trim_space s = trim_right (trim_left s)

-- strings.ToLower
unfoldable pub to_lower : Unicode → String → String
to_lower u [] = []
to_lower u (c ∷ s) = u.lower c ∷ to_lower u s

-- strings.HasPrefix
unfoldable pub has_prefix : String → String → Bool
has_prefix s [] = true
has_prefix [] (c ∷ p) = false
has_prefix (d ∷ s) (c ∷ p) = code d == code c && has_prefix s p

-- strings.HasSuffix
unfoldable pub has_suffix : String → String → Bool
has_suffix [] p = str_eq [] p
has_suffix (c ∷ s) p = str_eq (c ∷ s) p || has_suffix s p

-- strings.TrimSuffix
unfoldable pub trim_suffix : String → String → String
trim_suffix [] p = []
trim_suffix (c ∷ s) p = if str_eq (c ∷ s) p then [] else (c ∷ trim_suffix s p)

-- strings.Contains
unfoldable pub contains : String → String → Bool
unfolding has_prefix
contains [] p = has_prefix [] p
contains (c ∷ s) p = has_prefix (c ∷ s) p || contains s p

-- The characters of a text up to the first space.
unfoldable pub first_word : String → String
first_word [] = []
first_word (c ∷ s) = if is_space c then [] else (c ∷ first_word s)

-- The first of strings.Fields, if there is one.
unfoldable pub first_field : String → Option String
first_field s = let t = trim_left s in if is_empty t then none else some (first_word t)

-- strings.TrimPrefix
unfoldable pub trim_prefix : String → String → String
trim_prefix s p = if has_prefix s p then drop_prefix s p else s
  where
    drop_prefix : String → String → String
    drop_prefix t [] = t
    drop_prefix [] (c ∷ q) = []
    drop_prefix (d ∷ t) (c ∷ q) = drop_prefix t q

-- strings.EqualFold
unfoldable pub equal_fold : Unicode → String → String → Bool
equal_fold u [] [] = true
equal_fold u [] (d ∷ t) = false
equal_fold u (c ∷ s) [] = false
equal_fold u (c ∷ s) (d ∷ t) = code (u.fold c) == code (u.fold d) && equal_fold u s t
