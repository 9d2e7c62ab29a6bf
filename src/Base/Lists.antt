-- ===== src/Base/Lists.antt =====
-- Lists measured, read and written by native numbers, under the library's names.
use Prim.Native.Nat.{ℕ, zero, suc, ◌+◌, ◌≤◌, ◌<◌}
use mathlib.Core.Path.{◌≡◌, refl, ap, subst, ◌∙◌}
use mathlib.Core.Logic.{◌≢◌, ◌⊎◌, inl, inr}
use mathlib.Core.List.{List, [], ◌∷◌, ◌++◌, map}
use mathlib.Core.Option.{Option, none, some, some-injective}
use native.Mathlib.Omega.{arith}

module _ {ℓ} {A : Type ℓ} where
  abbrev pub length : List A → ℕ
  length [] = 0
  length (x ∷ xs) = suc (length xs)

  abbrev pub get_elem? : List A → ℕ → Option A
  get_elem? [] i = none
  get_elem? (x ∷ xs) zero = some x
  get_elem? (x ∷ xs) (suc i) = get_elem? xs i

  abbrev pub get_or : List A → ℕ → A → A
  get_or [] i d = d
  get_or (x ∷ xs) zero d = x
  get_or (x ∷ xs) (suc i) d = get_or xs i d

  abbrev pub take : ℕ → List A → List A
  take zero xs = []
  take (suc n) [] = []
  take (suc n) (x ∷ xs) = x ∷ take n xs

  abbrev pub drop : ℕ → List A → List A
  drop zero xs = xs
  drop (suc n) [] = []
  drop (suc n) (x ∷ xs) = drop n xs

  -- `xs[i] = f(xs[i])`; out of bounds it changes nothing.
  abbrev pub modify : (A → A) → ℕ → List A → List A
  modify f i [] = []
  modify f zero (x ∷ xs) = f x ∷ xs
  modify f (suc i) (x ∷ xs) = x ∷ modify f i xs

  pub length-append : (xs ys : List A) → length (xs ++ ys) ≡ length xs + length ys
  length-append [] ys = omega arith
  length-append (x ∷ xs) ys = omega (arith, length-append xs ys)

  pub length-modify : (f : A → A) (i : ℕ) (xs : List A) → length (modify f i xs) ≡ length xs
  length-modify f i [] = refl
  length-modify f zero (x ∷ xs) = refl
  length-modify f (suc i) (x ∷ xs) = ap suc (length-modify f i xs)

  -- A list of at least `i + 1` items has an item at `i`.
  pub get_elem?-eq-some :
      (xs : List A) (i : ℕ) → i < length xs → (x : A) × (get_elem? xs i ≡ some x)
  get_elem?-eq-some [] i h = elim h [ ]
  get_elem?-eq-some (x ∷ xs) zero h = (x, refl)
  get_elem?-eq-some (x ∷ xs) (suc i) h = get_elem?-eq-some xs i (omega arith)

  pub lt-length : (xs : List A) (i : ℕ) {x : A} → get_elem? xs i ≡ some x → i < length xs
  lt-length [] i h = absurd (ground arith)
  lt-length (x ∷ xs) zero h = omega arith
  lt-length (x ∷ xs) (suc i) h = omega (arith, lt-length xs i h)

  pub get_elem?-modify_self :
      (f : A → A) (xs : List A) (i : ℕ) {x : A}
      → get_elem? xs i ≡ some x
      → get_elem? (modify f i xs) i ≡ some (f x)
  get_elem?-modify_self f [] i h = absurd (ground arith)
  get_elem?-modify_self f (x ∷ xs) zero h = cc
  get_elem?-modify_self f (x ∷ xs) (suc i) h = get_elem?-modify_self f xs i h

  pub get_elem?-modify_ne :
      (f : A → A) (xs : List A) (i j : ℕ) → i ≢ j → get_elem? (modify f i xs) j ≡ get_elem? xs j
  get_elem?-modify_ne f [] i j h = refl
  get_elem?-modify_ne f (x ∷ xs) zero zero h = absurd (h refl)
  get_elem?-modify_ne f (x ∷ xs) zero (suc j) h = refl
  get_elem?-modify_ne f (x ∷ xs) (suc i) zero h = refl
  get_elem?-modify_ne f (x ∷ xs) (suc i) (suc j) h =
      get_elem?-modify_ne f xs i j (λ e. h (ap suc e))

  -- A change that `g` does not see leaves the image of `g` alone.
  pub map-modify {κ} :
      {B : Type κ} (g : A → B) (f : A → A)
      → ((x : A) → g (f x) ≡ g x)
      → (i : ℕ) (xs : List A) → map g (modify f i xs) ≡ map g xs
  map-modify g f h i [] = refl
  map-modify g f h zero (x ∷ xs) = ap (λ y. y ∷ map g xs) (h x)
  map-modify g f h (suc i) (x ∷ xs) = ap (λ ys. g x ∷ ys) (map-modify g f h i xs)

module _ {ℓ κ} {A : Type ℓ} {B : Type κ} (g : A → B) where
  pub length-map : (xs : List A) → length (map g xs) ≡ length xs
  length-map [] = refl
  length-map (x ∷ xs) = ap suc (length-map xs)

  pub get_elem?-map :
      (xs : List A) (i : ℕ) {x : A} → get_elem? xs i ≡ some x → get_elem? (map g xs) i ≡ some (g x)
  get_elem?-map [] i h = absurd (ground arith)
  get_elem?-map (x ∷ xs) zero h = cc
  get_elem?-map (x ∷ xs) (suc i) h = get_elem?-map xs i h

-- What holds of the head and of every item of the tail holds of every item.
pub get_elem?-cons {ℓ κ} :
    {A : Type ℓ} (P : A → Type κ) (x : A) (xs : List A)
    → P x
    → ((j : ℕ) (y : A) → get_elem? xs j ≡ some y → P y)
    → (j : ℕ) (y : A) → get_elem? (x ∷ xs) j ≡ some y
    → P y
get_elem?-cons P x xs head rest zero y h = subst P (some-injective x y h) head
get_elem?-cons P x xs head rest (suc j) y h = rest j y h

pub get_or-eq {ℓ} :
    {A : Type ℓ} (xs : List A) (i : ℕ) (d : A) {x : A} → get_elem? xs i ≡ some x → get_or xs i d ≡ x
get_or-eq [] i d h = cc
get_or-eq (x ∷ xs) zero d h = cc
get_or-eq (x ∷ xs) (suc i) d h = get_or-eq xs i d h

-- `x` is an item of the list.
abbrev pub IsOneOf : {A : Type 0} → A → List A → Type 0
IsOneOf x [] = ⊥
IsOneOf x (y ∷ ys) = (y ≡ x) ⊎ IsOneOf x ys

pub get_elem?-IsOneOf :
    {A : Type 0} (xs : List A) (i : ℕ) {x : A} → get_elem? xs i ≡ some x → IsOneOf x xs
get_elem?-IsOneOf [] i h = cc
get_elem?-IsOneOf (y ∷ ys) zero h = inl (some-injective _ _ h)
get_elem?-IsOneOf (y ∷ ys) (suc i) h = inr (get_elem?-IsOneOf ys i h)

module _ {ℓ} {A : Type ℓ} where
  pub get_elem?-append_left :
      (xs ys : List A) (i : ℕ) {x : A} → get_elem? xs i ≡ some x → get_elem? (xs ++ ys) i ≡ some x
  get_elem?-append_left [] ys i h = cc
  get_elem?-append_left (x ∷ xs) ys zero h = h
  get_elem?-append_left (x ∷ xs) ys (suc i) h = get_elem?-append_left xs ys i h

  pub get_elem?-append_last :
      (xs : List A) (x : A) → get_elem? (xs ++ (x ∷ [])) (length xs) ≡ some x
  get_elem?-append_last [] x = refl
  get_elem?-append_last (y ∷ ys) x = get_elem?-append_last ys x

  -- An item of a list with one more at its end is an old one or the last.
  pub get_elem?-append_inv :
      (xs : List A) (x : A) (i : ℕ) {y : A}
      → get_elem? (xs ++ (x ∷ [])) i ≡ some y
      → (get_elem? xs i ≡ some y) ⊎ ((i ≡ length xs) × (x ≡ y))
  get_elem?-append_inv [] x zero h = inr (refl, some-injective _ _ h)
  get_elem?-append_inv [] x (suc i) h = cc
  get_elem?-append_inv (z ∷ zs) x zero h = inl h
  get_elem?-append_inv (z ∷ zs) x (suc i) h = elim (get_elem?-append_inv zs x i h) [
    | inl old ↦ inl old
    | inr (at, e) ↦ inr (ap suc at, e)
  ]

module _ {ℓ} {A : Type ℓ} where
  pub get_or-modify_self :
      (f : A → A) (xs : List A) (i : ℕ) (d : A)
      → i < length xs
      → get_or (modify f i xs) i d ≡ f (get_or xs i d)
  get_or-modify_self f [] i d h = elim h [ ]
  get_or-modify_self f (x ∷ xs) zero d h = refl
  get_or-modify_self f (x ∷ xs) (suc i) d h = get_or-modify_self f xs i d (omega (arith, h))

  pub get_or-modify_ne :
      (f : A → A) (xs : List A) (i j : ℕ) (d : A)
      → i ≢ j
      → get_or (modify f i xs) j d ≡ get_or xs j d
  get_or-modify_ne f [] i j d h = refl
  get_or-modify_ne f (x ∷ xs) zero zero d h = absurd (h refl)
  get_or-modify_ne f (x ∷ xs) zero (suc j) d h = refl
  get_or-modify_ne f (x ∷ xs) (suc i) zero d h = refl
  get_or-modify_ne f (x ∷ xs) (suc i) (suc j) d h = get_or-modify_ne f xs i j d (λ e. h (ap suc e))

  pub get_or-take : (xs : List A) (n i : ℕ) (d : A) → i < n → get_or (take n xs) i d ≡ get_or xs i d
  get_or-take xs zero i d h = elim h [ ]
  get_or-take [] (suc n) i d h = refl
  get_or-take (x ∷ xs) (suc n) zero d h = refl
  get_or-take (x ∷ xs) (suc n) (suc i) d h = get_or-take xs n i d (omega (arith, h))

  pub length-take-le : (xs : List A) (n : ℕ) → length (take n xs) ≤ n
  length-take-le xs zero = omega arith
  length-take-le [] (suc n) = omega arith
  length-take-le (x ∷ xs) (suc n) = omega (arith, length-take-le xs n)

pub map-take {ℓ κ} :
    {A : Type ℓ} {B : Type κ} (g : A → B) (n : ℕ) (xs : List A)
    → map g (take n xs) ≡ take n (map g xs)
map-take g zero xs = refl
map-take g (suc n) [] = refl
map-take g (suc n) (x ∷ xs) = ap (λ ys. g x ∷ ys) (map-take g n xs)

-- Two counts that both reach the end of the list take the same.
pub take-all {ℓ} :
    {A : Type ℓ} (xs : List A) (m n : ℕ) → length xs ≤ m → length xs ≤ n → take m xs ≡ take n xs
take-all [] zero zero h k = refl
take-all [] zero (suc n) h k = refl
take-all [] (suc m) zero h k = refl
take-all [] (suc m) (suc n) h k = refl
take-all (x ∷ xs) zero n h k = elim h [ ]
take-all (x ∷ xs) (suc m) zero h k = elim k [ ]
take-all (x ∷ xs) (suc m) (suc n) h k =
    ap (λ ys. x ∷ ys) (take-all xs m n (omega (arith, h)) (omega (arith, k)))

suc_add : (m n : ℕ) → suc m + n ≡ suc (m + n)
suc_add m n = omega arith

module _ {ℓ} {A : Type ℓ} where
  pub length-take : (n : ℕ) (xs : List A) → n ≤ length xs → length (take n xs) ≡ n
  length-take zero xs h = refl
  length-take (suc n) [] h = elim h [ ]
  length-take (suc n) (x ∷ xs) h = ap suc (length-take n xs (omega (arith, h)))

  pub length-drop : (n : ℕ) (xs : List A) → n ≤ length xs → length xs ≡ n + length (drop n xs)
  length-drop zero xs h = omega arith
  length-drop (suc n) [] h = elim h [ ]
  length-drop (suc n) (x ∷ xs) h = omega (arith, length-drop n xs (omega (arith, h)))

  pub take-take : (n : ℕ) (xs : List A) → take n (take n xs) ≡ take n xs
  take-take zero xs = refl
  take-take (suc n) [] = refl
  take-take (suc n) (x ∷ xs) = ap (λ ys. x ∷ ys) (take-take n xs)

  pub take-take-suc : (n : ℕ) (xs : List A) → take n (take (suc n) xs) ≡ take n xs
  take-take-suc zero xs = refl
  take-take-suc (suc n) [] = refl
  take-take-suc (suc n) (x ∷ xs) = ap (λ ys. x ∷ ys) (take-take-suc n xs)

  -- What is taken is as long as was asked, or all there is.
  pub length-take_cases :
      (n : ℕ) (xs : List A)
      → ((n ≤ length xs) × (length (take n xs) ≡ n))
        ⊎ ((length xs ≤ n) × (length (take n xs) ≡ length xs))
  length-take_cases zero xs = inl (omega arith, refl)
  length-take_cases (suc n) [] = inr (omega arith, refl)
  length-take_cases (suc n) (x ∷ xs) = elim (length-take_cases n xs) [
    | inl (h, e) ↦ inl (omega (arith, h), ap suc e)
    | inr (h, e) ↦ inr (omega (arith, h), ap suc e)
  ]

  -- A page of the items up to its end is that page of all of them.
  pub take-drop-take :
      (m n : ℕ) (xs : List A) → take n (drop m (take (m + n) xs)) ≡ take n (drop m xs)
  take-drop-take zero n xs = ap (λ k. take n (take k xs)) (zero_add n) ∙ take-take n xs
    where
      zero_add : (k : ℕ) → zero + k ≡ k
      zero_add k = omega arith
  take-drop-take (suc m) n [] = ap (λ k. take n (drop (suc m) (take k []))) (suc_add m n)
  take-drop-take (suc m) n (x ∷ xs) =
      ap (λ k. take n (drop (suc m) (take k (x ∷ xs)))) (suc_add m n) ∙ take-drop-take m n xs
