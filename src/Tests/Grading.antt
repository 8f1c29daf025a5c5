-- ===== src/Tests/Grading.antt =====
-- The edit distance of two short texts, and the theorem on it applied to them.
use Prim.Native.Nat.{◌≤◌}
use mindengage_lms.Prelude.{ℕ, ◌≡◌, refl}
use mindengage_lms.Grading.TextMatch.{
  runes, levenshtein, distance, first_row, last_row, last_entry, next_row, next_entries, min3, cost,
}
use mindengage_lms.Grading.EditDistance.{Edits, levenshtein_lem}

kitten_sitting : levenshtein "kitten" "sitting" ≡ 3
unfolding levenshtein distance runes first_row last_row last_entry next_row next_entries min3 cost
kitten_sitting = refl

levenshtein_lem_example :
    Edits (runes "kitten") (runes "sitting") (levenshtein "kitten" "sitting")
    × ((n : ℕ) → Edits (runes "kitten") (runes "sitting") n → levenshtein "kitten" "sitting" ≤ n)
levenshtein_lem_example = levenshtein_lem "kitten" "sitting"
