-- ===== src/Base/Lists.antt =====
-- Lists measured and indexed by native numbers, under the library's names.
use Prim.Native.Nat.{ℕ, zero, suc, ◌+◌, ◌-◌, ◌≤◌, ◌<◌, min}
use mathlib.Core.Path.{◌≡◌, refl, sym, ap, ◌∙◌}
use mathlib.Core.List.{List, [], ◌∷◌, ◌++◌, reverse, reverse-cons}
use native.Mathlib.Omega.{arith}

module _ {ℓ} {A : Type ℓ} where
  abbrev pub length : List A → ℕ
  length [] = 0
  length (x ∷ xs) = suc (length xs)

  abbrev pub get_or : List A → ℕ → A → A
  get_or [] i d = d
  get_or (x ∷ xs) zero d = x
  get_or (x ∷ xs) (suc i) d = get_or xs i d

  abbrev pub take : ℕ → List A → List A
  take zero xs = []
  take (suc n) [] = []
  take (suc n) (x ∷ xs) = x ∷ take n xs

  abbrev pub drop : ℕ → List A → List A
  drop zero xs = xs
  drop (suc n) [] = []
  drop (suc n) (x ∷ xs) = drop n xs

  abbrev pub All {κ} : (A → Type κ) → List A → Type κ
  All P [] = Unit {κ}
  All P (x ∷ xs) = P x × All P xs

module _ {ℓ} {A : Type ℓ} where
  pub length-append : (xs ys : List A) → length (xs ++ ys) ≡ length xs + length ys
  length-append [] ys = omega arith
  length-append (x ∷ xs) ys = omega (arith, length-append xs ys)

  pub length-take : (n : ℕ) (xs : List A) → length (take n xs) ≡ min n (length xs)
  length-take zero xs = omega arith
  length-take (suc n) [] = omega arith
  length-take (suc n) (x ∷ xs) = omega (arith, length-take n xs)

  pub length-drop : (n : ℕ) (xs : List A) → length (drop n xs) ≡ length xs - n
  length-drop zero xs = omega arith
  length-drop (suc n) [] = omega arith
  length-drop (suc n) (x ∷ xs) = omega (arith, length-drop n xs)

  pub take-append-drop : (n : ℕ) (xs : List A) → take n xs ++ drop n xs ≡ xs
  take-append-drop zero xs = refl
  take-append-drop (suc n) [] = refl
  take-append-drop (suc n) (x ∷ xs) = rw (take-append-drop n xs)

  -- The split of a concatenation at the length of its first part.
  pub take-append : (n : ℕ) (xs ys : List A) → length xs ≡ n → take n (xs ++ ys) ≡ xs
  take-append zero [] ys e = refl
  take-append zero (x ∷ xs) ys e = absurd (omega arith)
  take-append (suc n) [] ys e = absurd (omega arith)
  take-append (suc n) (x ∷ xs) ys e = rw (take-append n xs ys (omega arith))

  pub drop-append : (n : ℕ) (xs ys : List A) → length xs ≡ n → drop n (xs ++ ys) ≡ ys
  drop-append zero [] ys e = refl
  drop-append zero (x ∷ xs) ys e = absurd (omega arith)
  drop-append (suc n) [] ys e = absurd (omega arith)
  drop-append (suc n) (x ∷ xs) ys e = drop-append n xs ys (omega arith)

  -- A split that lies inside the first part.
  pub take-append_inside : (n : ℕ) (xs ys : List A) → n ≤ length xs → take n (xs ++ ys) ≡ take n xs
  take-append_inside zero xs ys h = refl
  take-append_inside (suc n) [] ys h = absurd (omega arith)
  take-append_inside (suc n) (x ∷ xs) ys h = rw (take-append_inside n xs ys (omega arith))

  pub drop-append_inside :
      (n : ℕ) (xs ys : List A) → n ≤ length xs → drop n (xs ++ ys) ≡ drop n xs ++ ys
  drop-append_inside zero xs ys h = refl
  drop-append_inside (suc n) [] ys h = absurd (omega arith)
  drop-append_inside (suc n) (x ∷ xs) ys h = drop-append_inside n xs ys (omega arith)

  pub drop-nil : (n : ℕ) → drop {A = A} n [] ≡ []
  drop-nil zero = refl
  drop-nil (suc n) = refl

  pub drop-drop : (m n : ℕ) (xs : List A) → drop m (drop n xs) ≡ drop (n + m) xs
  drop-drop m zero xs = let e : 0 + m ≡ m = omega arith in rw e
  drop-drop m (suc n) [] = drop-nil m ∙ sym (drop-nil (suc n + m))
  drop-drop m (suc n) (x ∷ xs) =
      let e : suc n + m ≡ suc (n + m) = omega arith in rw e (drop-drop m n xs)

  pub length-reverse : (xs : List A) → length (reverse xs) ≡ length xs
  length-reverse [] = refl
  length-reverse (x ∷ xs) =
      omega (
        arith,
        ap length (reverse-cons x xs),
        length-append (reverse xs) (x ∷ []),
        length-reverse xs,
      )

module _ {ℓ κ} {A : Type ℓ} (P : A → Type κ) where
  pub All-append : (xs ys : List A) → All P xs → All P ys → All P (xs ++ ys)
  All-append [] ys hx hy = hy
  All-append (x ∷ xs) ys hx hy = (hx.0, All-append xs ys hx.1 hy)

  pub All-take : (n : ℕ) (xs : List A) → All P xs → All P (take n xs)
  All-take zero xs h = tt
  All-take (suc n) [] h = tt
  All-take (suc n) (x ∷ xs) h = (h.0, All-take n xs h.1)

  pub All-drop : (n : ℕ) (xs : List A) → All P xs → All P (drop n xs)
  All-drop zero xs h = h
  All-drop (suc n) [] h = tt
  All-drop (suc n) (x ∷ xs) h = All-drop n xs h.1

  pub All-get_or : (n : ℕ) (xs : List A) (x : A) → All P xs → n < length xs → P (get_or xs n x)
  All-get_or n [] x h l = absurd (omega arith)
  All-get_or zero (y ∷ xs) x h l = h.0
  All-get_or (suc n) (y ∷ xs) x h l = All-get_or n xs x h.1 (omega arith)

  pub All-reverse : (xs : List A) → All P xs → All P (reverse xs)
  All-reverse [] h = tt
  All-reverse (x ∷ xs) h =
      rw (reverse-cons x xs) (All-append (reverse xs) (x ∷ []) (All-reverse xs h.1) (h.0, tt))

module _ {ℓ} {A : Type ℓ} where
  -- A field behind a first part of known length.
  pub take-drop_field :
      (before field after : List A) (n k : ℕ)
      → length before ≡ n
      → length field ≡ k
      → take k (drop n (before ++ (field ++ after))) ≡ field
  take-drop_field before field after n k e f =
      rw (drop-append n before (field ++ after) e) (take-append k field after f)

  pub drop-append_past :
      (n k : ℕ) (xs ys : List A) → length xs ≡ n → drop (n + k) (xs ++ ys) ≡ drop k ys
  drop-append_past n k xs ys e = rw (← drop-drop k n (xs ++ ys)) (rw (drop-append n xs ys e) refl)

  pub length-take-drop :
      (n k : ℕ) (xs : List A) → n + k ≤ length xs → length (take k (drop n xs)) ≡ k
  length-take-drop n k xs h = omega (arith, length-take k (drop n xs), length-drop n xs)

  pub drop_split : (n k : ℕ) (xs : List A) → drop n xs ≡ take k (drop n xs) ++ drop (n + k) xs
  drop_split n k xs = sym (rw (← drop-drop k n xs) (take-append-drop k (drop n xs)))

  pub get_or-append :
      (n k : ℕ) (xs ys : List A) (x : A)
      → length xs ≡ n
      → get_or (xs ++ ys) (n + k) x ≡ get_or ys k x
  get_or-append zero k [] ys x e = let z : 0 + k ≡ k = omega arith in rw z
  get_or-append zero k (y ∷ xs) ys x e = absurd (omega arith)
  get_or-append (suc n) k [] ys x e = absurd (omega arith)
  get_or-append (suc n) k (y ∷ xs) ys x e =
      let z : suc n + k ≡ suc (n + k) = omega arith in
      rw z (get_or-append n k xs ys x (omega arith))

  pub get_or_nil : (n : ℕ) (x : A) → get_or {A = A} [] n x ≡ x
  get_or_nil n x = refl

  pub get_or-drop : (n k : ℕ) (xs : List A) (x : A) → get_or xs (n + k) x ≡ get_or (drop n xs) k x
  get_or-drop zero k xs x = let z : 0 + k ≡ k = omega arith in rw z
  get_or-drop (suc n) k [] x = refl
  get_or-drop (suc n) k (y ∷ xs) x =
      let z : suc n + k ≡ suc (n + k) = omega arith in rw z (get_or-drop n k xs x)

  -- A suffix begins with the element at its offset.
  pub drop-get_or :
      (n : ℕ) (xs : List A) (x : A) → n < length xs → drop n xs ≡ get_or xs n x ∷ drop (n + 1) xs
  drop-get_or n [] x h = absurd (omega arith)
  drop-get_or zero (y ∷ xs) x h = refl
  drop-get_or (suc n) (y ∷ xs) x h =
      let z : suc n + 1 ≡ suc (n + 1) = omega arith in rw z (drop-get_or n xs x (omega arith))
