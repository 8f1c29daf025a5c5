-- ===== src/Strings/Split.antt =====
-- What the program uses of Go's package strings to take texts apart, of sort.Strings, and of
-- strconv.Atoi.
use Prim.Native.Char.{Char, code}
use Prim.Native.String.{◌++◌ as ◌<>◌}
use mindengage_lms.Prelude.{
  ℕ, ◌+◌, ◌-◌, ◌*◌, ◌^◌, ltb, leb, ◌==◌, ℤ, pos, negsuc, String, Bool, true, false, ◌&&◌, Option,
  none, some, List, [], ◌∷◌, if◌then◌else◌,
}
use mindengage_lms.Strings.{is_space}

abbrev starts_word : String → Bool
starts_word String.[] = false
starts_word (String.◌∷◌ c s) = if is_space c then false else true

abbrev cons_head : Char → List String → List String
cons_head c [] = String.◌∷◌ c "" ∷ []
cons_head c (w ∷ ws) = String.◌∷◌ c w ∷ ws

-- strings.Fields
unfoldable pub fields : String → List String
unfolding is_space
fields String.[] = []
fields (String.◌∷◌ c s) =
    let rest = fields s in
    if is_space c then rest else if starts_word s then cons_head c rest else String.◌∷◌ c "" ∷ rest

-- strings.Split by one character, given by its code.
unfoldable pub split_on : ℕ → String → List String
split_on d String.[] = "" ∷ []
split_on d (String.◌∷◌ c s) =
    let rest = split_on d s in if code c == d then "" ∷ rest else cons_head c rest

-- `s[:i]` for the index `i` of a character in `s`; the whole of `s` where it has none.
unfoldable pub before_first : ℕ → String → String
before_first d String.[] = ""
before_first d (String.◌∷◌ c s) =
    let rest = before_first d s in if code c == d then "" else String.◌∷◌ c rest

-- `s[i+1:]` for the index `i` of a character in `s`.
unfoldable pub after_first : ℕ → String → Option String
after_first d String.[] = none
after_first d (String.◌∷◌ c s) = let rest = after_first d s in if code c == d then some s else rest

-- `s[:i]` for the last index `i` of a character in `s`.
unfoldable pub before_last : ℕ → String → Option String
before_last d String.[] = none
before_last d (String.◌∷◌ c s) = elim (before_last d s) [
  | some t ↦ some (String.◌∷◌ c t)
  | none ↦ if code c == d then some "" else none
]

-- strings.Join
unfoldable pub join : (sep : String) → List String → String
join sep [] = ""
join sep (w ∷ []) = w
join sep (w ∷ v ∷ ws) = (w <> sep) <> join sep (v ∷ ws)

-- The order of texts by their characters, which is that of their bytes in UTF-8.
unfoldable pub text_le : String → String → Bool
text_le String.[] t = true
text_le (String.◌∷◌ c s) String.[] = false
text_le (String.◌∷◌ c s) (String.◌∷◌ d t) =
    if code c == code d then text_le s t else ltb (code c) (code d)

unfoldable pub insert_sorted : String → List String → List String
unfolding text_le
insert_sorted s [] = s ∷ []
insert_sorted s (t ∷ ts) = if text_le s t then s ∷ t ∷ ts else t ∷ insert_sorted s ts

-- sort.Strings
unfoldable pub sort_strings : List String → List String
unfolding insert_sorted
sort_strings [] = []
sort_strings (s ∷ ss) = insert_sorted s (sort_strings ss)

abbrev is_digit : Char → Bool
is_digit c = leb 48 (code c) && leb (code c) 57

-- The number that a text of digits stands for.
unfoldable pub digits : ℕ → String → Option ℕ
digits n String.[] = some n
digits n (String.◌∷◌ c s) =
    let rest = digits (n * 10 + (code c - 48)) s in if is_digit c then rest else none

unfoldable pub unsigned : String → Option ℕ
unfolding digits
unsigned String.[] = none
unsigned (String.◌∷◌ c s) = digits 0 (String.◌∷◌ c s)

abbrev in_range : ℕ → ℤ → Option ℕ → Option ℤ
in_range bound n none = none
in_range bound n (some m) = if leb m bound then some n else none

abbrev minus : ℕ → ℤ
minus ℕ.zero = pos 0
minus (ℕ.suc n) = negsuc n

abbrev value : Option ℕ → ℕ
value none = 0
value (some n) = n

-- strconv.Atoi: a sign and digits, `none` for a syntax error or a number beyond 64 bits.
unfoldable pub atoi : String → Option ℤ
unfolding unsigned
atoi String.[] = none
atoi (String.◌∷◌ c s) =
    if code c == 45
    then in_range (2 ^ 63) (minus (value (unsigned s))) (unsigned s)
    else if code c == 43
    then in_range (2 ^ 63 - 1) (pos (value (unsigned s))) (unsigned s)
    else in_range (2 ^ 63 - 1) (pos (value (unsigned (String.◌∷◌ c s)))) (unsigned (String.◌∷◌ c s))
