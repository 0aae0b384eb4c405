-- ===== src/Buffer/Slices.antt =====
-- Lemmas on lists of memory cells: slices, splices and resizing.
use mini_net.Prelude.{
  ℕ, zero, suc, ◌+◌, ◌-◌, ◌≤◌, ◌≡◌, refl, ap, List, [], ◌∷◌, ◌++◌, arith, length, take, drop,
  splice, slice, drop-drop,
}

module _ {ℓ} {A : Type ℓ} where
  pub take-splice :
      (xs : List A) (j : ℕ) (ys : List A)
      → j + length ys ≤ length xs
      → take (j + length ys) (splice xs j ys) ≡ take j xs ++ ys
  take-splice [] zero [] h = refl
  take-splice [] zero (y ∷ ys) h = absurd (omega arith)
  take-splice [] (suc j) ys h = absurd (omega arith)
  take-splice (x ∷ xs) zero [] h = refl
  take-splice (x ∷ xs) zero (y ∷ ys) h =
      let e : zero + suc (length ys) ≡ suc (zero + length ys) = omega arith in
      rw e (ap (◌∷◌ y) (take-splice xs zero ys (omega arith)))
  take-splice (x ∷ xs) (suc j) ys h =
      let e : suc j + length ys ≡ suc (j + length ys) = omega arith in
      rw e (ap (◌∷◌ x) (take-splice xs j ys (omega arith)))

  pub slice-splice :
      (xs : List A) (i j : ℕ) (ys : List A)
      → i ≤ j
      → j + length ys ≤ length xs
      → slice (splice xs j ys) i (j + length ys) ≡ slice xs i j ++ ys
  slice-splice xs zero j ys h k =
      let e : j + length ys - zero ≡ j + length ys = omega arith in
      let e' : j - zero ≡ j = omega arith in rw (e, e') (take-splice xs j ys k)
  slice-splice [] (suc i) j ys h k = absurd (omega arith)
  slice-splice (x ∷ xs) (suc i) zero ys h k = absurd (omega arith)
  slice-splice (x ∷ xs) (suc i) (suc j) ys h k =
      let e : suc j + length ys - suc i ≡ j + length ys - i = omega arith in
      let e' : suc j - suc i ≡ j - i = omega arith in
      rw (e, e') (slice-splice xs i j ys (omega arith) (omega arith))

  pub take-append_le : (n : ℕ) (xs ys : List A) → n ≤ length xs → take n (xs ++ ys) ≡ take n xs
  take-append_le zero xs ys h = refl
  take-append_le (suc n) [] ys h = absurd (omega arith)
  take-append_le (suc n) (x ∷ xs) ys h = ap (◌∷◌ x) (take-append_le n xs ys (omega arith))

  pub slice-append :
      (xs ys : List A) (i j : ℕ) → j ≤ length xs → slice (xs ++ ys) i j ≡ slice xs i j
  slice-append xs ys zero j h = take-append_le (j - 0) xs ys (omega arith)
  slice-append [] ys (suc i) j h = let e : j - suc i ≡ 0 = omega arith in rw e
  slice-append (x ∷ xs) ys (suc i) zero h = let e : 0 - suc i ≡ 0 = omega arith in rw e
  slice-append (x ∷ xs) ys (suc i) (suc j) h =
      let e' : suc j - suc i ≡ j - i = omega arith in rw e' (slice-append xs ys i j (omega arith))

  pub length-slice : (xs : List A) (i j : ℕ) → i ≤ j → j ≤ length xs → length (slice xs i j) ≡ j - i
  length-slice xs zero j h k = length-take_le (j - 0) xs (omega arith)
    where
      length-take_le : (n : ℕ) (xs : List A) → n ≤ length xs → length (take n xs) ≡ n
      length-take_le zero xs h = refl
      length-take_le (suc n) [] h = absurd (omega arith)
      length-take_le (suc n) (x ∷ xs) h = ap suc (length-take_le n xs (omega arith))
  length-slice [] (suc i) j h k = absurd (omega arith)
  length-slice (x ∷ xs) (suc i) zero h k = absurd (omega arith)
  length-slice (x ∷ xs) (suc i) (suc j) h k =
      let e' : suc j - suc i ≡ j - i = omega arith in
      rw e' (length-slice xs i j (omega arith) (omega arith))

  take-nil : (n : ℕ) → take {A = A} n [] ≡ []
  take-nil zero = refl
  take-nil (suc n) = refl

  drop-take : (n j : ℕ) (xs : List A) → drop n (take j xs) ≡ take (j - n) (drop n xs)
  drop-take zero j xs = let e : j - 0 ≡ j = omega arith in rw e
  drop-take (suc n) zero xs = let e : 0 - suc n ≡ 0 = omega arith in rw e
  drop-take (suc n) (suc j) [] = rw take-nil
  drop-take (suc n) (suc j) (x ∷ xs) =
      let e : suc j - suc n ≡ j - n = omega arith in rw e (drop-take n j xs)

  pub drop-slice : (xs : List A) (i j n : ℕ) → drop n (slice xs i j) ≡ slice xs (i + n) j
  drop-slice xs i j n =
      let e : j - i - n ≡ j - (i + n) = omega arith in
      rw (drop-take n (j - i) (drop i xs), drop-drop n i xs, e)

  pub take-take : (n m : ℕ) (xs : List A) → n ≤ m → take n (take m xs) ≡ take n xs
  take-take zero m xs h = refl
  take-take (suc n) zero xs h = absurd (omega arith)
  take-take (suc n) (suc m) [] h = refl
  take-take (suc n) (suc m) (x ∷ xs) h = ap (◌∷◌ x) (take-take n m xs (omega arith))

  -- A copy to the front is read back from the front.
  pub slice-splice_front :
      (xs ys : List A) (n : ℕ) → length ys ≡ n → n ≤ length xs → slice (splice xs 0 ys) 0 n ≡ ys
  slice-splice_front xs ys n e h =
      let k : n - 0 ≡ 0 + length ys = omega arith in rw k (take-splice xs 0 ys (omega arith))
