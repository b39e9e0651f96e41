-- ===== src/Prelude/Index.antt =====
-- Reading a list at an index, and after a write.
use maturin.Prelude.{
  ℕ, zero, suc, ◌+◌, ◌<◌, ◌≡◌, ◌==◌, ltb, if◌then◌else◌, length, get_elem?, set, take, drop, none,
  some, List, [], ◌∷◌, refl, ap, ◌∙◌, arith,
}

pub get_elem?-set {ℓ} :
    {A : Type ℓ} (xs : List A) (i j : ℕ) (v : A)
    → i < length xs
    → get_elem? (set xs i v) j ≡ (if j == i then some v else get_elem? xs j)
get_elem?-set [] i j v h = absurd (omega arith)
get_elem?-set (x ∷ xs) zero zero v h = ground arith
get_elem?-set (x ∷ xs) zero (suc j) v h = ground arith
get_elem?-set (x ∷ xs) (suc i) zero v h = ground arith
get_elem?-set (x ∷ xs) (suc i) (suc j) v h = ground (arith, get_elem?-set xs i j v (omega arith))

pub length-set {ℓ} : {A : Type ℓ} (xs : List A) (i : ℕ) (v : A) → length (set xs i v) ≡ length xs
length-set [] i v = refl
length-set (x ∷ xs) zero v = refl
length-set (x ∷ xs) (suc i) v = ap suc (length-set xs i v)

-- An index below the length.
pub get_elem?-length {ℓ} :
    {A : Type ℓ} (xs : List A) (i : ℕ) → i < length xs → (v : A) × (get_elem? xs i ≡ some v)
get_elem?-length [] i h = absurd (omega arith)
get_elem?-length (x ∷ xs) zero h = (x, refl)
get_elem?-length (x ∷ xs) (suc i) h = get_elem?-length xs i (omega arith)

pub get_elem?-take {ℓ} :
    {A : Type ℓ} (n : ℕ) (xs : List A) (j : ℕ)
    → get_elem? (take n xs) j ≡ (if ltb j n then get_elem? xs j else none)
get_elem?-take zero [] j = ground arith
get_elem?-take zero (x ∷ xs) j = ground arith
get_elem?-take (suc n) [] j = ground arith
get_elem?-take (suc n) (x ∷ xs) zero = ground arith
get_elem?-take (suc n) (x ∷ xs) (suc j) = ground (arith, get_elem?-take n xs j)

pub get_elem?-drop {ℓ} :
    {A : Type ℓ} (n : ℕ) (xs : List A) (j : ℕ) → get_elem? (drop n xs) j ≡ get_elem? xs (n + j)
get_elem?-drop zero xs j = let e : j ≡ 0 + j = omega arith in ap (get_elem? xs) e
get_elem?-drop (suc n) [] j = refl
get_elem?-drop (suc n) (x ∷ xs) j =
    let e : suc (n + j) ≡ suc n + j = omega arith in
    get_elem?-drop n xs j ∙ ap (get_elem? (x ∷ xs)) e
