-- ===== src/Platform/Ags/Paging.antt =====
-- pkg/platform/lti/ags/server.go: the pages of a collection.
use native.Mathlib.Nat.{suc-mul}
use mindengage_lms.Prelude.{
  take, drop, ℕ, zero, suc, ◌+◌, ◌*◌, ◌^◌, ◌≤◌, ◌<◌, ◌==◌, ℤ, pos, ◌≤ℤ◌, ltb_ℤ, leb_ℤ, eqb_ℤ, add64,
  sub64, mul64, add64-pos, sub64-pos, mul64-pos, String, Bool, true, false, ◌&&◌, ◌≡◌, refl, ap,
  ◌∙◌, inl, inr, Option, none, some, List, [], ◌∷◌, ◌++◌, GoMap, Bool-cases, arith, &&-eq-true,
}
use mindengage_lms.Strings.Split.{atoi}
use mindengage_lms.Platform.Http.{get}
use mindengage_lms.Platform.Ags.{or_default, parse_limit_page, offset_of, next_page, count}

-- A number that was read is used only where it is valid, so the result is valid wherever the default
-- is.
or_default-valid :
    (P : ℤ → Type 0) (d : ℤ) (is_valid : ℤ → Bool) (o : Option ℤ)
    → P d
    → ((n : ℤ) → is_valid n ≡ true → P n)
    → P (or_default d is_valid o)
or_default-valid P d is_valid none p k = p
or_default-valid P d is_valid (some n) p k = elim (Bool-cases (is_valid n)) [
  | inl e ↦ rw e (k n e)
  | inr e ↦ rw e p
]

-- Whatever a query says, the limit is from 1 to the largest one and the page is at least 1, if this
-- holds of the defaults.
pub parse_limit_page_lem :
    (q : GoMap String) (def_limit def_page max_limit : ℤ)
    → pos 1 ≤ℤ def_limit
    → def_limit ≤ℤ max_limit
    → pos 1 ≤ℤ def_page
    → (pos 1 ≤ℤ (parse_limit_page q def_limit def_page max_limit).0)
      × ((parse_limit_page q def_limit def_page max_limit).0 ≤ℤ max_limit)
      × (pos 1 ≤ℤ (parse_limit_page q def_limit def_page max_limit).1)
unfolding parse_limit_page
parse_limit_page_lem q dl dp ml a b c =
    let limit =
      or_default-valid (λ n. (pos 1 ≤ℤ n) × (n ≤ℤ ml)) dl (λ n. ltb_ℤ (pos 0) n && leb_ℤ n ml)
        (atoi (get "limit" q)) (a, b)
        (λ n e.
          let (l, m) = &&-eq-true (ltb_ℤ (pos 0) n) (leb_ℤ n ml) e in
          (ground arith, ground arith)) in
    (
      limit.0,
      limit.1,
      or_default-valid (λ n. pos 1 ≤ℤ n) dp (λ n. ltb_ℤ (pos 0) n) (atoi (get "page" q)) c
          (λ n e. ground arith),
    )

module _ {A : Type 0} where
  -- A storage that lists a window of all its elements.
  abbrev pub Lists : List A → ((offset limit : ℤ) → List A) → Type 0
  Lists all list = (o l : ℕ) → list (pos o) (pos l) ≡ take l (drop o all)

  -- What a client has read that follows the links to the next page, with the number of pages it reads
  -- at most; `none` where it has not come to the end.
  unfoldable pub follow : ((offset limit : ℤ) → List A) → ℕ → (limit page : ℤ) → Option (List A)
  follow list zero limit page = none
  follow list (suc n) limit page =
      let xs = list (offset_of limit page) limit in
      elim (next_page xs limit page none) [
        | none ↦ some xs
        | some next ↦ elim (follow list n next.limit next.page) [
          | none ↦ none
          | some rest ↦ some (xs ++ rest)
        ]
      ]

  take-drop : (n : ℕ) (xs : List A) → take n xs ++ drop n xs ≡ xs
  take-drop zero xs = refl
  take-drop (suc n) [] = refl
  take-drop (suc n) (x ∷ xs) = ap (λ ys. x ∷ ys) (take-drop n xs)

  drop_add : (k m n : ℕ) (xs : List A) → k ≡ m + n → drop k xs ≡ drop n (drop m xs)
  drop_add k zero n xs e = ap (λ i. drop i xs) (omega (arith, e))
  drop_add zero (suc m) n xs e = absurd (omega (arith, e))
  drop_add (suc k) (suc m) zero [] e = refl
  drop_add (suc k) (suc m) (suc n) [] e = refl
  drop_add (suc k) (suc m) n (x ∷ xs) e = drop_add k m n xs (omega (arith, e))

  -- A window that is not full is all there is.
  take_short : (n : ℕ) (xs : List A) → count (take n xs) == n ≡ false → take n xs ≡ xs
  take_short zero xs h = cc
  take_short (suc n) [] h = refl
  take_short (suc n) (x ∷ xs) h = ap (λ ys. x ∷ ys) (take_short n xs (ground arith))

  count-take :
      (n : ℕ) (xs : List A) → count (take n xs) == n ≡ true → count xs ≡ n + count (drop n xs)
  count-take zero xs h = omega arith
  count-take (suc n) [] h = absurd (ground arith)
  count-take (suc n) (x ∷ xs) h = omega (arith, count-take n xs (ground arith))

  module _ (list : (offset limit : ℤ) → List A) (all : List A) (lists : Lists all list)
      (l : ℕ) where
    -- The page number k + 1, at the offset o.
    page :
        (k o : ℕ)
        → k * l ≡ o
        → k < 2 ^ 62
        → o < 2 ^ 63
        → list (offset_of (pos l) (pos (suc k))) (pos l) ≡ take l (drop o all)
    unfolding offset_of
    page k o e b c =
        let before : sub64 (pos (suc k)) (pos 1) ≡ pos k =
          sub64-pos (suc k) 1 (omega (arith, b)) (omega arith) ∙ ground arith in
        ap (λ x. list (mul64 x (pos l)) (pos l)) before
        ∙ ap (λ x. list x (pos l)) (mul64-pos k l (omega (arith, e, c)) ∙ ap pos e)
        ∙ lists o l

    follow_from :
        (n k o : ℕ)
        → pos 1 ≤ℤ pos l
        → k * l ≡ o
        → k ≤ o
        → o + count (drop o all) + l < 2 ^ 62
        → count (drop o all) < n
        → follow list n (pos l) (pos (suc k)) ≡ some (drop o all)
    unfolding follow next_page
    follow_from zero k o p e m b h = absurd (omega (arith, h))
    follow_from (suc n) k o p e m b h =
        let xs = take l (drop o all) in
        let here = page k o e (omega (arith, m, b)) (omega (arith, b)) in
        elim (Bool-cases (eqb_ℤ (pos (count xs)) (pos l))) [
          | inl full ↦
              let many = count-take l (drop o all) (ground arith) in
              let same = drop_add (o + l) o l all refl in
              let rest =
                follow_from n (suc k) (o + l) p (suc-mul k l ∙ ap (λ x. x + l) e)
                  (omega (arith, m, p)) (omega (arith, b, many, ap count same))
                  (omega (arith, h, many, p, ap count same)) in
              let page_after : add64 (pos (suc k)) (pos 1) ≡ pos (suc (suc k)) =
                add64-pos (suc k) 1 (omega (arith, m, b)) ∙ ap pos (omega arith) in
              rw (follow, here, next_page, full, page_after, rest, here)
                (ap some (ap (λ ys. xs ++ ys) same ∙ take-drop l (drop o all)))
          | inr short ↦
              rw (follow, here, next_page, short, here)
                (ap some (take_short l (drop o all) (ground arith)))
        ]

  -- A client that asks for the first page and follows the links to the next one reads every element
  -- of the collection once, in its order, and comes to an end, after at most one page more than there
  -- are elements: for any limit from 1, and a collection that is small beside 2 ^ 62.
  pub follow_lem :
      (list : (offset limit : ℤ) → List A) (all : List A) (l : ℕ)
      → Lists all list
      → 1 ≤ l
      → count all + l < 2 ^ 62
      → follow list (suc (count all)) (pos l) (pos 1) ≡ some all
  follow_lem list all l lists p b =
      follow_from list all lists l (suc (count all)) 0 0 (ground arith) (omega arith) (omega arith)
        (omega (arith, b)) (omega arith)
