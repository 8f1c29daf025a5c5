-- ===== src/Grading/EditDistance.antt =====
-- internal/grading/textmatch.go: what levenshtein computes. `Edits a b n` is a script of n single
-- character edits that turns `a` into `b`; the rows of the table are compared with a recursive
-- distance on the reversed prefixes.
use Prim.Native.Char.{Char, code}
use Prim.Native.Nat.{◌≤◌}
use native.Mathlib.Omega.{arith}
use native.Mathlib.Decide.{ℕ_discrete}
use text.Mathlib.TextEquality.{Char-path}
use mindengage_lms.Prelude.{
  ℕ, suc, ◌+◌, String, List, [], ◌∷◌, ◌≡◌, refl, sym, ap, ◌∙◌, subst, ◌⊎◌, inl, inr,
}
use mindengage_lms.Grading.TextMatch.{
  runes, min3, cost, first_row, next_entries, next_row, last_row, last_entry, count, distance,
  levenshtein,
}

pub data Edits : List Char → List Char → ℕ → Type 0 where
  done : Edits [] [] 0
  keep : {c : Char} {a b : List Char} {n : ℕ} → Edits a b n → Edits (c ∷ a) (c ∷ b) n
  substitute : {c d : Char} {a b : List Char} {n : ℕ} → Edits a b n → Edits (c ∷ a) (d ∷ b) (suc n)
  delete : {c : Char} {a b : List Char} {n : ℕ} → Edits a b n → Edits (c ∷ a) b (suc n)
  add : {d : Char} {a b : List Char} {n : ℕ} → Edits a b n → Edits a (d ∷ b) (suc n)

-- The distance by recursion on the first characters.
abbrev dist : List Char → List Char → ℕ
dist [] b = count b
dist (c ∷ a) [] = count (c ∷ a)
dist (c ∷ a) (d ∷ b) = min3 (dist a (d ∷ b) + 1) (dist (c ∷ a) b + 1) (dist a b + cost c d)

-- The entries of the row of `ra` after the one of `rb`.
abbrev entries : (ra rb bs : List Char) → List ℕ
entries ra rb [] = []
entries ra rb (b ∷ bs) = dist ra (b ∷ rb) ∷ entries ra (b ∷ rb) bs

abbrev rev_onto : (xs ra : List Char) → List Char
rev_onto [] ra = ra
rev_onto (a ∷ xs) ra = rev_onto xs (a ∷ ra)

next_entries-entries :
    (a : Char) (ra rb bs : List Char)
    → next_entries a bs (dist ra rb) (dist (a ∷ ra) rb) (entries ra rb bs) ≡ entries (a ∷ ra) rb bs
unfolding next_entries
next_entries-entries a ra rb [] = refl
next_entries-entries a ra rb (b ∷ bs) =
    ap (λ t. dist (a ∷ ra) (b ∷ rb) ∷ t) (next_entries-entries a ra (b ∷ rb) bs)

first_row-entries : (rb bs : List Char) → first_row (count rb) bs ≡ dist [] rb ∷ entries [] rb bs
unfolding first_row
first_row-entries rb [] = refl
first_row-entries rb (b ∷ bs) =
    ap (λ t. count rb ∷ t)
      (ap (λ n. first_row n bs) {x = count rb + 1} {y = suc (count rb)} (omega arith)
        ∙ first_row-entries (b ∷ rb) bs)

dist-nil : (ra : List Char) → dist ra [] ≡ count ra
dist-nil [] = refl
dist-nil (a ∷ ra) = refl

next_row-entries :
    (a : Char) (ra bs : List Char)
    → next_row (count (a ∷ ra)) a bs (dist ra [] ∷ entries ra [] bs)
      ≡ dist (a ∷ ra) [] ∷ entries (a ∷ ra) [] bs
unfolding next_row
next_row-entries a ra bs = ap (λ t. count (a ∷ ra) ∷ t) (next_entries-entries a ra [] bs)

last_row-entries :
    (xs ra bs : List Char)
    → last_row (suc (count ra)) xs bs (dist ra [] ∷ entries ra [] bs)
      ≡ dist (rev_onto xs ra) [] ∷ entries (rev_onto xs ra) [] bs
unfolding last_row
last_row-entries [] ra bs = refl
last_row-entries (a ∷ xs) ra bs =
    ap (λ t. last_row (suc (count ra) + 1) xs bs t) (next_row-entries a ra bs)
    ∙ ap (λ n. last_row n xs bs (dist (a ∷ ra) [] ∷ entries (a ∷ ra) [] bs))
        {x = suc (count ra) + 1} {y = suc (suc (count ra))} (omega arith)
    ∙ last_row-entries xs (a ∷ ra) bs

last_entry-entries :
    (ra rb bs : List Char) → last_entry (dist ra rb ∷ entries ra rb bs) ≡ dist ra (rev_onto bs rb)
unfolding last_entry
last_entry-entries ra rb [] = refl
last_entry-entries ra rb (b ∷ bs) = last_entry-entries ra (b ∷ rb) bs

count-rev_onto : (xs ra : List Char) → count (rev_onto xs ra) ≡ count xs + count ra
count-rev_onto [] ra = omega arith
count-rev_onto (x ∷ xs) ra = omega (arith, count-rev_onto xs (x ∷ ra))

-- The table computes the recursive distance of the reversed texts.
distance-dist : (a b : List Char) → distance a b ≡ dist (rev_onto a []) (rev_onto b [])
unfolding distance
distance-dist [] b = omega (arith, count-rev_onto b [])
distance-dist (c ∷ a) [] = omega (arith, count-rev_onto (c ∷ a) [], dist-nil (rev_onto (c ∷ a) []))
distance-dist (c ∷ a) (d ∷ b) =
    ap (λ r. last_entry (last_row 1 (c ∷ a) (d ∷ b) r)) (first_row-entries [] (d ∷ b))
    ∙ ap last_entry (last_row-entries (c ∷ a) [] (d ∷ b))
    ∙ last_entry-entries (rev_onto (c ∷ a) []) [] (d ∷ b)

min3-cases : (a b c : ℕ) → (min3 a b c ≡ a) ⊎ ((min3 a b c ≡ b) ⊎ (min3 a b c ≡ c))
unfolding min3
min3-cases a b c = ground arith

min3-le : (a b c : ℕ) → (min3 a b c ≤ a) × (min3 a b c ≤ b) × (min3 a b c ≤ c)
unfolding min3
min3-le a b c = (ground arith, ground arith, ground arith)

insert_only : (b : List Char) → Edits [] b (count b)
insert_only [] = done
insert_only (d ∷ b) = add (insert_only b)

delete_only : (a : List Char) → Edits a [] (count a)
delete_only [] = done
delete_only (c ∷ a) = delete (delete_only a)

Edits-length : {a b : List Char} {n m : ℕ} → n ≡ m → Edits a b n → Edits a b m
Edits-length {a} {b} p e = subst (λ k. Edits a b k) p e

cost-cases : (c d : Char) → ((c ≡ d) × (cost c d ≡ 0)) ⊎ (cost c d ≡ 1)
unfolding cost
cost-cases c d = elim (ℕ_discrete (code c) (code d)) [
  | yes p ↦ inl (Char-path c d p, ground arith)
  | no p ↦ inr (ground arith)
]

keep-substitute :
    (c d : Char) {a b : List Char} {n : ℕ} → Edits a b n → Edits (c ∷ a) (d ∷ b) (n + cost c d)
keep-substitute c d {a} {b} {n} e = elim (cost-cases c d) [
  | inl (same, p) ↦
      Edits-length (omega (arith, p)) (subst (λ x. Edits (c ∷ a) (x ∷ b) n) same (keep e))
  | inr p ↦ Edits-length (omega (arith, p)) (substitute e)
]

-- The recursive distance is reached by a script.
Edits-dist : (a b : List Char) → Edits a b (dist a b)
Edits-dist [] b = insert_only b
Edits-dist (c ∷ a) [] = delete_only (c ∷ a)
Edits-dist (c ∷ a) (d ∷ b) =
    elim (min3-cases (dist a (d ∷ b) + 1) (dist (c ∷ a) b + 1) (dist a b + cost c d)) [
      | inl p ↦ Edits-length (omega (arith, p)) (delete {c = c} (Edits-dist a (d ∷ b)))
      | inr (inl p) ↦ Edits-length (omega (arith, p)) (add {d = d} (Edits-dist (c ∷ a) b))
      | inr (inr p) ↦ Edits-length (sym p) (keep-substitute c d (Edits-dist a b))
    ]

cost_refl : (c : Char) → cost c c ≡ 0
unfolding cost
cost_refl c = ground arith

cost-le : (c d : Char) → cost c d ≤ 1
unfolding cost
cost-le c d = ground arith

-- How the distance grows with each edit.
dist-cons :
    (c d : Char) (a b : List Char)
    → (dist (c ∷ a) (d ∷ b) ≤ dist a (d ∷ b) + 1)
      × (dist (c ∷ a) (d ∷ b) ≤ dist (c ∷ a) b + 1)
      × (dist (c ∷ a) (d ∷ b) ≤ dist a b + cost c d)
dist-cons c d a b = min3-le (dist a (d ∷ b) + 1) (dist (c ∷ a) b + 1) (dist a b + cost c d)

dist-delete : (c : Char) (a b : List Char) → dist (c ∷ a) b ≤ dist a b + 1
dist-delete c a [] = omega (arith, dist-nil a)
dist-delete c a (d ∷ b) = (dist-cons c d a b).0

dist-add : (d : Char) (a b : List Char) → dist a (d ∷ b) ≤ dist a b + 1
dist-add d [] b = omega arith
dist-add d (c ∷ a) b = (dist-cons c d a b).1

-- No script is shorter.
dist-Edits : {a b : List Char} {n : ℕ} → Edits a b n → dist a b ≤ n
dist-Edits done = omega arith
dist-Edits (keep {c} {a} {b} {n} e) =
    omega (arith, (dist-cons c c a b).2, cost_refl c, dist-Edits e)
dist-Edits (substitute {c} {d} {a} {b} {n} e) =
    omega (arith, (dist-cons c d a b).2, cost-le c d, dist-Edits e)
dist-Edits (delete {c} {a} {b} {n} e) = omega (arith, dist-delete c a b, dist-Edits e)
dist-Edits (add {d} {a} {b} {n} e) = omega (arith, dist-add d a b, dist-Edits e)

-- Both texts written backwards need the same edits.
Edits-rev_onto :
    {a b c d : List Char} {n m : ℕ}
    → Edits a b n
    → Edits c d m
    → Edits (rev_onto a c) (rev_onto b d) (n + m)
Edits-rev_onto done e = Edits-length (omega arith) e
Edits-rev_onto (keep f) e = Edits-rev_onto f (keep e)
Edits-rev_onto (substitute f) e = Edits-length (omega arith) (Edits-rev_onto f (substitute e))
Edits-rev_onto (delete f) e = Edits-length (omega arith) (Edits-rev_onto f (delete e))
Edits-rev_onto (add f) e = Edits-length (omega arith) (Edits-rev_onto f (add e))

rev_onto-twice : (a b : List Char) → rev_onto (rev_onto a b) [] ≡ rev_onto b a
rev_onto-twice [] b = refl
rev_onto-twice (x ∷ a) b = rev_onto-twice a (x ∷ b)

-- levenshtein is the least number of single character insertions, deletions and substitutions
-- that turn the one text into the other: some script has that many, and no script has fewer.
pub levenshtein_lem :
    (a b : String)
    → Edits (runes a) (runes b) (levenshtein a b)
      × ((n : ℕ) → Edits (runes a) (runes b) n → levenshtein a b ≤ n)
unfolding levenshtein
levenshtein_lem a b = (reached, λ n e. least n e)
  where
    reached : Edits (runes a) (runes b) (distance (runes a) (runes b))
    reached =
        subst (λ u. Edits (runes a) u (distance (runes a) (runes b))) (rev_onto-twice (runes b) [])
          (subst (λ t. Edits t (rev_onto (rev_onto (runes b) []) []) (distance (runes a) (runes b)))
            (rev_onto-twice (runes a) [])
            (Edits-length (omega (arith, distance-dist (runes a) (runes b)))
              (Edits-rev_onto (Edits-dist (rev_onto (runes a) []) (rev_onto (runes b) [])) done)))

    least : (n : ℕ) → Edits (runes a) (runes b) n → distance (runes a) (runes b) ≤ n
    least n e = omega (arith, distance-dist (runes a) (runes b), dist-Edits (Edits-rev_onto e done))
