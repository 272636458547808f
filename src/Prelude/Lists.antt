-- ===== src/Prelude/Lists.antt =====
-- Lists measured and cut by native numbers, under the library's names.
use Prim.Native.Nat.{ℕ, zero, suc, ◌+◌, ◌-◌, ◌≤◌, min, compare, Ordering}
use mathlib.Core.Path.{◌≡◌, refl, ap}
use mathlib.Core.Bool.{Bool, true, false}
use mathlib.Core.List.{List, [], ◌∷◌, ◌++◌}
use mathlib.Core.Option.{Option, none, some}
use native.Mathlib.Omega.{arith}

module _ {ℓ} {A : Type ℓ} where
  abbrev pub length : List A → ℕ
  length [] = 0
  length (x ∷ xs) = suc (length xs)

  abbrev pub get_elem? : List A → ℕ → Option A
  get_elem? [] i = none
  get_elem? (x ∷ xs) zero = some x
  get_elem? (x ∷ xs) (suc i) = get_elem? xs i

  abbrev pub take : ℕ → List A → List A
  take zero xs = []
  take (suc n) [] = []
  take (suc n) (x ∷ xs) = x ∷ take n xs

  abbrev pub drop : ℕ → List A → List A
  drop zero xs = xs
  drop (suc n) [] = []
  drop (suc n) (x ∷ xs) = drop n xs

  abbrev pub replicate : ℕ → A → List A
  replicate zero a = []
  replicate (suc n) a = a ∷ replicate n a

  abbrev pub is_empty : List A → Bool
  is_empty [] = true
  is_empty (x ∷ xs) = false

  pub length-append : (xs ys : List A) → length (xs ++ ys) ≡ length xs + length ys
  length-append [] ys = omega arith
  length-append (x ∷ xs) ys = omega (arith, length-append xs ys)

module _ {ℓ} {A : Type ℓ} where
  pub take-append-drop : (n : ℕ) (xs : List A) → take n xs ++ drop n xs ≡ xs
  take-append-drop zero xs = refl
  take-append-drop (suc n) [] = refl
  take-append-drop (suc n) (x ∷ xs) = ap (λ l. x ∷ l) (take-append-drop n xs)

  pub length-take : (n : ℕ) (xs : List A) → length (take n xs) ≡ min n (length xs)
  length-take zero xs = omega arith
  length-take (suc n) [] = omega arith
  length-take (suc n) (x ∷ xs) = omega (arith, length-take n xs)

  pub length-drop : (n : ℕ) (xs : List A) → length (drop n xs) ≡ length xs - n
  length-drop zero xs = omega arith
  length-drop (suc n) [] = omega arith
  length-drop (suc n) (x ∷ xs) = omega (arith, length-drop n xs)

  pub length-replicate : (n : ℕ) (a : A) → length (replicate n a) ≡ n
  length-replicate zero a = refl
  length-replicate (suc n) a = ap suc (length-replicate n a)

  pub take-length : (n : ℕ) (xs : List A) → length xs ≤ n → take n xs ≡ xs
  take-length zero [] h = refl
  take-length zero (x ∷ xs) h = absurd (omega arith)
  take-length (suc n) [] h = refl
  take-length (suc n) (x ∷ xs) h = ap (λ l. x ∷ l) (take-length n xs (omega arith))

  pub drop-length : (n : ℕ) (xs : List A) → length xs ≤ n → drop n xs ≡ []
  drop-length zero [] h = refl
  drop-length zero (x ∷ xs) h = absurd (omega arith)
  drop-length (suc n) [] h = refl
  drop-length (suc n) (x ∷ xs) h = drop-length n xs (omega arith)

  pub take-length-take : (n : ℕ) (xs : List A) → take (length (take n xs)) xs ≡ take n xs
  take-length-take zero [] = refl
  take-length-take zero (x ∷ xs) = refl
  take-length-take (suc n) [] = refl
  take-length-take (suc n) (x ∷ xs) = ap (λ l. x ∷ l) (take-length-take n xs)

  pub drop-length-take : (n : ℕ) (xs : List A) → drop (length (take n xs)) xs ≡ drop n xs
  drop-length-take zero [] = refl
  drop-length-take zero (x ∷ xs) = refl
  drop-length-take (suc n) [] = refl
  drop-length-take (suc n) (x ∷ xs) = drop-length-take n xs

  pub drop-nil : (n : ℕ) → ◌≡◌ {A = List A} (drop n []) []
  drop-nil zero = refl
  drop-nil (suc n) = refl

  -- `a + b` is written with the first argument matched: the cut of the cut.
  pub drop-drop : (m n : ℕ) (xs : List A) → drop n (drop m xs) ≡ drop (m + n) xs
  drop-drop m n xs = go m n xs (m + n) refl
    where
      go : (m n : ℕ) (xs : List A) (k : ℕ) → m + n ≡ k → drop n (drop m xs) ≡ drop k xs
      go zero n xs k e = ap (λ j. drop j xs) (omega arith)
      go (suc m) n [] zero e = absurd (omega arith)
      go (suc m) n [] (suc k) e = drop-nil n
      go (suc m) n (x ∷ xs) zero e = absurd (omega arith)
      go (suc m) n (x ∷ xs) (suc k) e = go m n xs k (omega arith)

  pub take-append : (xs ys : List A) (n : ℕ) → n ≡ length xs → take n (xs ++ ys) ≡ xs
  take-append [] ys zero e = refl
  take-append [] ys (suc n) e = absurd (omega arith)
  take-append (x ∷ xs) ys zero e = absurd (omega arith)
  take-append (x ∷ xs) ys (suc n) e = ap (λ l. x ∷ l) (take-append xs ys n (omega arith))

  pub drop-append : (xs ys : List A) (n : ℕ) → n ≡ length xs → drop n (xs ++ ys) ≡ ys
  drop-append [] ys zero e = refl
  drop-append [] ys (suc n) e = absurd (omega arith)
  drop-append (x ∷ xs) ys zero e = absurd (omega arith)
  drop-append (x ∷ xs) ys (suc n) e = drop-append xs ys n (omega arith)

  -- Two cuts in a row are one longer cut.
  pub take-append-take : (m n : ℕ) (xs : List A) → take m xs ++ take n (drop m xs) ≡ take (m + n) xs
  take-append-take m n xs = go m n xs (m + n) refl
    where
      go : (m n : ℕ) (xs : List A) (k : ℕ) → m + n ≡ k → take m xs ++ take n (drop m xs) ≡ take k xs
      go zero n xs k e = ap (λ j. take j xs) (omega arith)
      go (suc m) zero [] zero e = refl
      go (suc m) (suc n) [] zero e = refl
      go (suc m) zero [] (suc k) e = refl
      go (suc m) (suc n) [] (suc k) e = refl
      go (suc m) n (x ∷ xs) zero e = absurd (omega arith)
      go (suc m) n (x ∷ xs) (suc k) e = ap (λ l. x ∷ l) (go m n xs k (omega arith))

  -- Equal lists that begin with blocks of one length agree block by block.
  pub append-cancel :
      (xs xs' : List A) {ys ys' : List A}
      → length xs ≡ length xs'
      → xs ++ ys ≡ xs' ++ ys'
      → (xs ≡ xs') × (ys ≡ ys')
  append-cancel [] [] e h = (refl, h)
  append-cancel [] (x ∷ xs') e h = absurd (omega arith)
  append-cancel (x ∷ xs) [] e h = absurd (omega arith)
  append-cancel (x ∷ xs) (x' ∷ xs') {ys} {ys'} e h =
      let t : xs ++ ys ≡ xs' ++ ys' = cc in
      let hd : x ≡ x' = cc in let (p, q) = append-cancel xs xs' (omega arith) t in (ap₂' hd p, q)
    where
      ap₂' : x ≡ x' → xs ≡ xs' → x ∷ xs ≡ x' ∷ xs'
      ap₂' p q = λ i. p i ∷ q i

-- `==` on byte slices and arrays.
unfoldable pub bytes_eq : List ℕ → List ℕ → Bool
bytes_eq [] [] = true
bytes_eq [] (y ∷ ys) = false
bytes_eq (x ∷ xs) [] = false
bytes_eq (x ∷ xs) (y ∷ ys) = elim (compare x y) [ Ordering.eq ↦ bytes_eq xs ys | _ ↦ false ]

pub bytes_eq→eq : (xs ys : List ℕ) → bytes_eq xs ys ≡ true → xs ≡ ys
unfolding bytes_eq
bytes_eq→eq [] [] h = refl
bytes_eq→eq [] (y ∷ ys) h = cc
bytes_eq→eq (x ∷ xs) [] h = cc
bytes_eq→eq (x ∷ xs) (y ∷ ys) h = ground (arith, bytes_eq→eq xs ys)

pub bytes_eq_refl : (xs : List ℕ) → bytes_eq xs xs ≡ true
unfolding bytes_eq
bytes_eq_refl [] = refl
bytes_eq_refl (x ∷ xs) = ground (arith, bytes_eq_refl xs)

abbrev pub All {ℓ κ} : {A : Type ℓ} → (A → Type κ) → List A → Type κ
All P [] = Unit
All P (x ∷ xs) = P x × All P xs
