-- ===== src/TraceStore/Slots.antt =====
-- internal/tracestore/store.go: the place of the i-th newest key in the circular queue.
use native.Mathlib.Nat.{mod-eq_of_lt, mod-eq-sub-mod}
use native.Mathlib.Decide.{dec_lt}
use llms_proxy.Base.{
  ℕ, zero, suc, ◌+◌, ◌-◌, ◌%◌, ◌≤◌, ◌<◌, ◌≡◌, ◌≢◌, ◌⊎◌, inl, inr, ap, sym, ◌∙◌, arith, List, ◌∷◌,
  length, take, modify, get_or, get_or-modify_self, get_or-modify_ne, get_or-take,
}

abbrev pub slot : ℕ → ℕ → ℕ → ℕ
slot n head i = ((head + n - 1) % n + n - i) % n

pub mod_once : (x n : ℕ) → n ≤ x → x < n + n → x % n ≡ x - n
mod_once x n lo hi =
    omega (arith, mod-eq-sub-mod {n = x} {m = n} lo, mod-eq_of_lt {n = x - n} {m = n} (omega arith))

-- the place of the newest key
start_pos : (n head : ℕ) → 0 < head → head < n → (head + n - 1) % n ≡ head - 1
start_pos n head p h = omega (arith, mod_once (head + n - 1) n (omega arith) (omega arith))

start_zero : (n : ℕ) → 0 < n → (0 + n - 1) % n ≡ n - 1
start_zero n h = omega (arith, mod-eq_of_lt {n = 0 + n - 1} {m = n} (omega arith))

-- From the head down.
pub slot-below : (n head i : ℕ) → head < n → i < head → slot n head i ≡ head - 1 - i
slot-below n head i head_in h =
    let s = start_pos n head (omega arith) head_in in
    omega (arith, s, mod_once ((head + n - 1) % n + n - i) n (omega (arith, s)) (omega (arith, s)))

-- And past the end of the keys.
pub slot-above : (n head i : ℕ) → head < n → head ≤ i → i < n → slot n head i ≡ head + n - 1 - i
slot-above n zero i head_in h k =
    let s = start_zero n head_in in
    omega (arith, s, mod_once ((0 + n - 1) % n + n - i) n (omega (arith, s)) (omega (arith, s)))
slot-above n (suc head) i head_in h k =
    let s = start_pos n (suc head) (omega arith) head_in in
    omega (arith, s, mod-eq_of_lt {n = (suc head + n - 1) % n + n - i} {m = n} (omega (arith, s)))

next_cases :
    (n head : ℕ)
    → head < n
    → (((head + 1) % n ≡ head + 1) × (head + 1 < n)) ⊎ (((head + 1) % n ≡ 0) × (head + 1 ≡ n))
next_cases n head h = elim (dec_lt (head + 1) n) [
  | yes p ↦ inl (mod-eq_of_lt {n = head + 1} {m = n} p, p)
  | no p ↦ inr (omega (arith, mod_once (head + 1) n (omega arith) (omega arith)), omega arith)
]

pub next_lt : (n head : ℕ) → head < n → (head + 1) % n < n
next_lt n head h = omega (arith, next_cases n head h)

slot-lt : (n head i : ℕ) → head < n → i < n → slot n head i < n
slot-lt n head i h k = elim (dec_lt i head) [
  | yes p ↦ omega (arith, slot-below n head i h p)
  | no p ↦ omega (arith, slot-above n head i h (omega arith) k)
]

-- The oldest of the keys stands at the head.
pub slot-oldest : (m head : ℕ) → head < suc m → slot (suc m) head m ≡ head
slot-oldest m head h = omega (arith, slot-above (suc m) head m h (omega arith) (omega arith))

slot-ne : (n head i : ℕ) → head < n → suc i < n → slot n head i ≢ head
slot-ne n head i h k = elim (dec_lt i head) [
  | yes p ↦ omega (arith, slot-below n head i h p)
  | no p ↦ omega (arith, slot-above n head i h (omega arith) (omega arith))
]

-- Once the head has moved on, the place that it left is the newest, and the others are one older.
slot-newest : (n head : ℕ) → head < n → slot n ((head + 1) % n) 0 ≡ head
slot-newest n head h = elim (next_cases n head h) [
  | inl (e, p) ↦ ap (λ k. slot n k 0) e ∙ slot-below n (head + 1) 0 p (omega arith) ∙ omega arith
  | inr (e, p) ↦
      ap (λ k. slot n k 0) e
      ∙ slot-above n 0 0 (omega arith) (omega arith) (omega arith)
      ∙ omega arith
]

slot-shift : (n head i : ℕ) → head + 1 < n → suc i < n → slot n (head + 1) (suc i) ≡ slot n head i
slot-shift n head i h k = elim (dec_lt i head) [
  | yes p ↦
      omega (
        arith,
        slot-below n (head + 1) (suc i) h (omega arith),
        slot-below n head i (omega arith) p,
      )
  | no p ↦ omega (
    arith,
    slot-above n (head + 1) (suc i) h (omega arith) k,
    slot-above n head i (omega arith) (omega arith) (omega arith),
  )
]

slot-wrap : (n head i : ℕ) → head + 1 ≡ n → suc i < n → slot n 0 (suc i) ≡ slot n head i
slot-wrap n head i h k = omega (
  arith,
  slot-above n 0 (suc i) (omega arith) (omega arith) k,
  slot-below n head i (omega arith) (omega arith),
)

slot-older : (n head i : ℕ) → head < n → suc i < n → slot n ((head + 1) % n) (suc i) ≡ slot n head i
slot-older n head i h k = elim (next_cases n head h) [
  | inl (e, p) ↦ ap (λ j. slot n j (suc i)) e ∙ slot-shift n head i p k
  | inr (e, p) ↦ ap (λ j. slot n j (suc i)) e ∙ slot-wrap n head i p k
]

-- The items `xs`, newest first, stand in `n` places behind the head; the other places hold `d`.
abbrev pub InOrder {ℓ} : {A : Type ℓ} → A → ℕ → List A → ℕ → List A → Type ℓ
InOrder d n places head xs = (i : ℕ) → i < n → get_or places (slot n head i) d ≡ get_or xs i d

-- A write at the head, which then moves on, adds the newest item and drops what was the oldest.
pub InOrder-write {ℓ} :
    {A : Type ℓ} (d x : A) (m : ℕ) (places : List A) (head : ℕ) (xs : List A)
    → length places ≡ suc m
    → head < suc m
    → InOrder d (suc m) places head xs
    → InOrder d (suc m) (modify (λ _. x) head places) ((head + 1) % suc m) (take (suc m) (x ∷ xs))
InOrder-write d x m places head xs size head_in h zero k =
    ap (λ j. get_or (modify (λ _. x) head places) j d) (slot-newest (suc m) head head_in)
    ∙ get_or-modify_self (λ _. x) places head d (omega (arith, size, head_in))
InOrder-write d x m places head xs size head_in h (suc i) k =
    ap (λ j. get_or (modify (λ _. x) head places) j d) (slot-older (suc m) head i head_in k)
    ∙ get_or-modify_ne (λ _. x) places head (slot (suc m) head i) d
        (λ e. slot-ne (suc m) head i head_in k (sym e))
    ∙ h i (omega arith)
    ∙ sym (get_or-take xs m i d (omega (arith, k)))
