-- ===== src/Grading/TextMatch.antt =====
-- internal/grading/textmatch.go: the normal form of a short answer, and the edit distance.
use Prim.Native.Char.{Char, code}
use Prim.Native.String.{◌++◌}
use mindengage_lms.Prelude.{
  ℕ, suc, ◌+◌, String, Bool, true, false, List, [], ◌∷◌, ◌==◌, ltb, if◌then◌else◌,
}
use mindengage_lms.Strings.{Unicode, is_space}

-- The loop of normalize: `space` and whether `out` is empty are its state, and what it appends is
-- the result.
unfoldable pub normalize_from : Unicode → (space : Bool) → (is_first : Bool) → String → String
normalize_from u space is_first String.[] = String.[]
normalize_from u space is_first (String.◌∷◌ c s) =
    let skip = normalize_from u true is_first s in
    let drop = normalize_from u space is_first s in
    let rest = String.◌∷◌ (u.lower c) (normalize_from u false false s) in
    if is_space c
    then skip
    else if u.is_punct c
    then drop
    else if space
    then (if is_first then rest else " " ++ rest)
    else rest

unfoldable pub normalize : Unicode → String → String
normalize u s = normalize_from u false true s

-- []rune(s)
unfoldable pub runes : String → List Char
runes String.[] = []
runes (String.◌∷◌ c s) = c ∷ runes s

unfoldable pub min3 : ℕ → ℕ → ℕ → ℕ
min3 a b c = if ltb a b then (if ltb a c then a else c) else if ltb b c then b else c

unfoldable pub cost : Char → Char → ℕ
cost a b = if code a == code b then 0 else 1

-- dp[0], dp[1], ... before the first round.
unfoldable pub first_row : ℕ → List Char → List ℕ
first_row j [] = j ∷ []
first_row j (b ∷ bs) = j ∷ first_row (j + 1) bs

-- The inner loop from one j on: `prev` is the old dp[j-1], `left` the new one, `old` the old
-- entries from dp[j] on; the result is the new entries from dp[j] on.
unfoldable pub next_entries : Char → List Char → (prev left : ℕ) → (old : List ℕ) → List ℕ
next_entries a [] prev left old = []
next_entries a (b ∷ bs) prev left [] = []
next_entries a (b ∷ bs) prev left (tmp ∷ old) =
    let v = min3 (tmp + 1) (left + 1) (prev + cost a b) in v ∷ next_entries a bs tmp v old

-- One round of the outer loop.
unfoldable pub next_row : ℕ → Char → List Char → List ℕ → List ℕ
next_row i a br [] = []
next_row i a br (prev ∷ old) = i ∷ next_entries a br prev i old

-- The rounds from i on.
unfoldable pub last_row : ℕ → List Char → List Char → List ℕ → List ℕ
last_row i [] br dp = dp
last_row i (a ∷ ar) br dp = last_row (i + 1) ar br (next_row i a br dp)

-- dp[m], the last entry.
unfoldable pub last_entry : List ℕ → ℕ
last_entry [] = 0
last_entry (d ∷ []) = d
last_entry (d ∷ e ∷ ds) = last_entry (e ∷ ds)

abbrev pub count : List Char → ℕ
count [] = 0
count (c ∷ cs) = suc (count cs)

unfoldable pub distance : List Char → List Char → ℕ
distance [] br = count br
distance (a ∷ ar) [] = count (a ∷ ar)
distance (a ∷ ar) (b ∷ br) = last_entry (last_row 1 (a ∷ ar) (b ∷ br) (first_row 0 (b ∷ br)))

unfoldable pub levenshtein : String → String → ℕ
levenshtein a b = distance (runes a) (runes b)
