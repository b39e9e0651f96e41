-- ===== src/Prelude/Lists.antt =====
-- Lists measured and indexed by native numbers, under the library's names.
use Prim.Native.Nat.{ℕ, zero, suc, ◌+◌, ◌-◌, ◌≤◌, ◌<◌, min}
use mathlib.Core.Path.{◌≡◌, refl, ap, ◌∙◌}
use mathlib.Core.List.{List, [], ◌∷◌, ◌++◌}
use mathlib.Core.Option.{Option, none, some}
use native.Mathlib.Omega.{arith}

module _ {ℓ} {A : Type ℓ} where
  abbrev pub length : List A → ℕ
  length [] = 0
  length (x ∷ xs) = suc (length xs)

  abbrev pub get_elem? : List A → ℕ → Option A
  get_elem? [] i = none
  get_elem? (x ∷ xs) zero = some x
  get_elem? (x ∷ xs) (suc i) = get_elem? xs i

  abbrev pub get_or : List A → ℕ → A → A
  get_or [] i d = d
  get_or (x ∷ xs) zero d = x
  get_or (x ∷ xs) (suc i) d = get_or xs i d

  -- A write out of bounds changes nothing.
  abbrev pub set : List A → ℕ → A → List A
  set [] i v = []
  set (x ∷ xs) zero v = v ∷ xs
  set (x ∷ xs) (suc i) v = x ∷ set xs i v

  abbrev pub take : ℕ → List A → List A
  take zero xs = []
  take (suc n) [] = []
  take (suc n) (x ∷ xs) = x ∷ take n xs

  abbrev pub drop : ℕ → List A → List A
  drop zero xs = xs
  drop (suc n) [] = []
  drop (suc n) (x ∷ xs) = drop n xs

  abbrev pub replicate : ℕ → A → List A
  replicate zero a = []
  replicate (suc n) a = a ∷ replicate n a

  -- The first value, or else the second.
  abbrev pub or_else : Option A → Option A → Option A
  or_else none b = b
  or_else (some a) b = some a

  pub or_else-none : (a : Option A) → or_else a none ≡ a
  or_else-none none = refl
  or_else-none (some a) = refl

  pub or_else_assoc : (a b c : Option A) → or_else (or_else a b) c ≡ or_else a (or_else b c)
  or_else_assoc none b c = refl
  or_else_assoc (some a) b c = refl

  pub length-append : (xs ys : List A) → length (xs ++ ys) ≡ length xs + length ys
  length-append [] ys = omega arith
  length-append (x ∷ xs) ys = omega (arith, length-append xs ys)

  pub length-take-drop :
      (n : ℕ) (xs : List A)
      → n ≤ length xs
      → (length (take n xs) ≡ n) × (length (drop n xs) + n ≡ length xs)
  length-take-drop zero xs h = (refl, omega arith)
  length-take-drop (suc n) [] h = absurd (omega arith)
  length-take-drop (suc n) (x ∷ xs) h = omega (arith, length-take-drop n xs)

  pub drop-cons :
      (i : ℕ) (xs : List A)
      → i < length xs
      → (x : A) × (rest : List A) × (drop i xs ≡ x ∷ rest) × (suc (length rest) + i ≡ length xs)
  drop-cons zero [] h = absurd (omega arith)
  drop-cons zero (x ∷ xs) h = (x, xs, refl, omega arith)
  drop-cons (suc i) [] h = absurd (omega arith)
  drop-cons (suc i) (x ∷ xs) h =
      let (y, rest, e, n) = drop-cons i xs (omega arith) in (y, rest, e, omega (arith, n))

  pub get_or-drop : (k i : ℕ) (xs : List A) (d : A) → get_or (drop k xs) i d ≡ get_or xs (k + i) d
  get_or-drop zero i xs d = let e : i ≡ 0 + i = omega arith in ap (λ j. get_or xs j d) e
  get_or-drop (suc k) i [] d = refl
  get_or-drop (suc k) i (x ∷ xs) d =
      let e : suc (k + i) ≡ suc k + i = omega arith in
      get_or-drop k i xs d ∙ ap (λ j. get_or (x ∷ xs) j d) e

  pub get_or-take : (n i : ℕ) (xs : List A) (d : A) → i < n → get_or (take n xs) i d ≡ get_or xs i d
  get_or-take zero i xs d h = absurd (omega arith)
  get_or-take (suc n) i [] d h = refl
  get_or-take (suc n) zero (x ∷ xs) d h = refl
  get_or-take (suc n) (suc i) (x ∷ xs) d h = get_or-take n i xs d (omega arith)

  pub length-take : (n : ℕ) (xs : List A) → length (take n xs) ≡ min n (length xs)
  length-take zero xs = omega arith
  length-take (suc n) [] = omega arith
  length-take (suc n) (x ∷ xs) = omega (arith, length-take n xs)

  pub length-drop : (n : ℕ) (xs : List A) → length (drop n xs) ≡ length xs - n
  length-drop zero xs = omega arith
  length-drop (suc n) [] = omega arith
  length-drop (suc n) (x ∷ xs) = omega (arith, length-drop n xs)

  pub take-append-drop : (n : ℕ) (xs : List A) → take n xs ++ drop n xs ≡ xs
  take-append-drop zero xs = refl
  take-append-drop (suc n) [] = refl
  take-append-drop (suc n) (x ∷ xs) = ap (λ r. x ∷ r) (take-append-drop n xs)

  pub append_nil : (xs : List A) → xs ++ [] ≡ xs
  append_nil [] = refl
  append_nil (x ∷ xs) = ap (λ r. x ∷ r) (append_nil xs)

  pub append_assoc : (xs ys zs : List A) → (xs ++ ys) ++ zs ≡ xs ++ (ys ++ zs)
  append_assoc [] ys zs = refl
  append_assoc (x ∷ xs) ys zs = ap (λ r. x ∷ r) (append_assoc xs ys zs)
