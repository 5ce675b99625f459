-- ===== src/Common/Lists.antt =====
-- Lists measured by native numbers, and the searches that the source makes over arrays.
use Prim.Native.Nat.{ℕ, zero, suc, ◌+◌, ◌≤◌}
use mathlib.Core.Path.{◌≡◌, refl, ap, sym, ◌∙◌}
use mathlib.Core.Logic.{◌⊎◌, inl, inr}
use mathlib.Core.Bool.{Bool, true, false, ◌||◌}
use mathlib.Core.Option.{Option, none, some}
use mathlib.Core.List.{List, [], ◌∷◌, ◌++◌, map}
use native.Mathlib.Omega.{arith}
use res_q_server.Common.Tests.{if◌then◌else◌, Bool-cases, if-cases}

module _ {ℓ} {A : Type ℓ} where
  abbrev pub length : List A → ℕ
  length [] = 0
  length (x ∷ xs) = suc (length xs)

  -- Array.prototype.filter
  abbrev pub filter : (A → Bool) → List A → List A
  filter p [] = []
  filter p (x ∷ xs) = let rest = filter p xs in if p x then x ∷ rest else rest

  -- Array.prototype.find, and `findFirst` of a table
  abbrev pub find : (A → Bool) → List A → Option A
  find p [] = none
  find p (x ∷ xs) = if p x then some x else find p xs

  -- Array.prototype.some
  abbrev pub any : (A → Bool) → List A → Bool
  any p [] = false
  any p (x ∷ xs) = p x || any p xs

  -- how many elements pass a test
  abbrev pub count_if : (A → Bool) → List A → ℕ
  count_if p [] = 0
  count_if p (x ∷ xs) = (if p x then 1 else 0) + count_if p xs

  abbrev pub take : ℕ → List A → List A
  take zero xs = []
  take (suc n) [] = []
  take (suc n) (x ∷ xs) = x ∷ take n xs

  abbrev pub drop : ℕ → List A → List A
  drop zero xs = xs
  drop (suc n) [] = []
  drop (suc n) (x ∷ xs) = drop n xs

  abbrev pub All {κ} : (A → Type κ) → List A → Type κ
  All P [] = Unit
  All P (x ∷ xs) = P x × All P xs

module _ {ℓ} {A : Type ℓ} where
  pub find_sound : (p : A → Bool) (xs : List A) (a : A) → find p xs ≡ some a → p a ≡ true
  find_sound p [] a e = ground arith
  find_sound p (x ∷ xs) a e = ground (arith, find_sound p xs a)

module _ {ℓ} {A : Type ℓ} where
  pub count_if-eq_zero : (p : A → Bool) (xs : List A) → any p xs ≡ false → count_if p xs ≡ 0
  count_if-eq_zero p [] e = refl
  count_if-eq_zero p (x ∷ xs) e = ground (arith, count_if-eq_zero p xs)

  pub any-eq_false : (p : A → Bool) (xs : List A) → count_if p xs ≡ 0 → any p xs ≡ false
  any-eq_false p [] e = refl
  any-eq_false p (x ∷ xs) e = ground (arith, any-eq_false p xs)

  pub take-append-drop : (n : ℕ) (xs : List A) → take n xs ++ drop n xs ≡ xs
  take-append-drop zero xs = refl
  take-append-drop (suc n) [] = refl
  take-append-drop (suc n) (x ∷ xs) = ap (λ rest. x ∷ rest) (take-append-drop n xs)

  drop-nil : (n : ℕ) → drop {A = A} n [] ≡ []
  drop-nil zero = refl
  drop-nil (suc n) = refl

  pub drop-drop : (m n : ℕ) (xs : List A) → drop m (drop n xs) ≡ drop (n + m) xs
  drop-drop m zero xs = ap (λ k. drop k xs) (omega arith)
  drop-drop m (suc n) [] = drop-nil m ∙ sym (drop-nil (suc n + m))
  drop-drop m (suc n) (x ∷ xs) =
      drop-drop m n xs
      ∙ ap (λ k. drop k (x ∷ xs)) (let e : suc (n + m) ≡ suc n + m = omega arith in e)

  -- Two tests that agree on the elements of a list keep the same ones.
  pub filter-congr :
      (p q : A → Bool) (xs : List A) → All (λ a. p a ≡ q a) xs → filter p xs ≡ filter q xs
  filter-congr p q [] h = refl
  filter-congr p q (x ∷ xs) h = rw (h.0, filter-congr p q xs h.1) refl

  pub drop-eq_nil : (n : ℕ) (xs : List A) → length xs ≤ n → drop n xs ≡ []
  drop-eq_nil zero [] h = refl
  drop-eq_nil zero (x ∷ xs) h = absurd (omega arith)
  drop-eq_nil (suc n) [] h = refl
  drop-eq_nil (suc n) (x ∷ xs) h = drop-eq_nil n xs (omega arith)

  pub take_of_length-le : (n : ℕ) (xs : List A) → length xs ≤ n → take n xs ≡ xs
  take_of_length-le zero [] h = refl
  take_of_length-le zero (x ∷ xs) h = absurd (omega arith)
  take_of_length-le (suc n) [] h = refl
  take_of_length-le (suc n) (x ∷ xs) h =
      ap (λ rest. x ∷ rest) (take_of_length-le n xs (omega arith))

  pub length-take-le : (n : ℕ) (xs : List A) → length (take n xs) ≤ n
  length-take-le zero xs = omega arith
  length-take-le (suc n) [] = omega arith
  length-take-le (suc n) (x ∷ xs) = omega (arith, length-take-le n xs)

  pub All-drop : (n : ℕ) (P : A → Type 0) (xs : List A) → All P xs → All P (drop n xs)
  All-drop zero P xs h = h
  All-drop (suc n) P [] h = tt
  All-drop (suc n) P (x ∷ xs) h = All-drop n P xs h.1

  pub length-append : (xs ys : List A) → length (xs ++ ys) ≡ length xs + length ys
  length-append [] ys = omega arith
  length-append (x ∷ xs) ys = omega (arith, length-append xs ys)

-- A predicate holds of some element.
abbrev pub Any {ℓ} : {A : Type ℓ} → (A → Type 0) → List A → Type 0
Any P [] = ⊥
Any P (x ∷ xs) = P x ⊎ Any P xs

module _ {A : Type 0} where
  -- What holds of all and of some holds of one element together.
  pub Any-All : (P Q : A → Type 0) (xs : List A) → Any P xs → All Q xs → (a : A) × P a × Q a
  Any-All P Q [] p h = elim p [ ]
  Any-All P Q (x ∷ xs) (inl p) h = (x, p, h.0)
  Any-All P Q (x ∷ xs) (inr p) h = Any-All P Q xs p h.1

  -- A witness, and where it is.
  pub Any-witness : (P : A → Type 0) (xs : List A) → Any P xs → (a : A) × P a × Any (λ b. b ≡ a) xs
  Any-witness P [] p = elim p [ ]
  Any-witness P (x ∷ xs) (inl p) = (x, p, inl refl)
  Any-witness P (x ∷ xs) (inr p) = let (a, h, there) = Any-witness P xs p in (a, h, inr there)

  pub All-mono : (P Q : A → Type 0) (xs : List A) → ((a : A) → P a → Q a) → All P xs → All Q xs
  All-mono P Q [] f h = tt
  All-mono P Q (x ∷ xs) f h = (f x h.0, All-mono P Q xs f h.1)

  pub Any-mono : (P Q : A → Type 0) (xs : List A) → ((a : A) → P a → Q a) → Any P xs → Any Q xs
  Any-mono P Q [] f h = h
  Any-mono P Q (x ∷ xs) f (inl here) = inl (f x here)
  Any-mono P Q (x ∷ xs) f (inr there) = inr (Any-mono P Q xs f there)

  pub All-zip : (P Q : A → Type 0) (xs : List A) → All P xs → All Q xs → All (λ a. P a × Q a) xs
  All-zip P Q [] p q = tt
  All-zip P Q (x ∷ xs) p q = ((p.0, q.0), All-zip P Q xs p.1 q.1)

  pub Any-append_left : (P : A → Type 0) (xs ys : List A) → Any P xs → Any P (xs ++ ys)
  Any-append_left P [] ys p = elim p [ ]
  Any-append_left P (x ∷ xs) ys (inl p) = inl p
  Any-append_left P (x ∷ xs) ys (inr p) = inr (Any-append_left P xs ys p)

  pub Any-append_right : (P : A → Type 0) (xs ys : List A) → Any P ys → Any P (xs ++ ys)
  Any-append_right P [] ys p = p
  Any-append_right P (x ∷ xs) ys p = inr (Any-append_right P xs ys p)

  pub Any-filter :
      (p : A → Bool) (P : A → Type 0) (xs : List A)
      → Any P (filter p xs)
      → Any (λ a. P a × (p a ≡ true)) xs
  Any-filter p P [] h = h
  Any-filter p P (x ∷ xs) h = elim (Bool-cases (p x)) [
    | inl e ↦ elim (rw e at h) [
      | inl here ↦ inl (here, e)
      | inr there ↦ inr (Any-filter p P xs there)
    ]
    | inr e ↦ inr (Any-filter p P xs (rw e at h))
  ]

  -- What holds of all elements holds of those that a filter keeps.
  pub All-kept : (p : A → Bool) (P : A → Type 0) (xs : List A) → All P xs → All P (filter p xs)
  All-kept p P [] h = tt
  All-kept p P (x ∷ xs) h =
      if-cases (All P) (p x) (λ e. (h.0, All-kept p P xs h.1)) (λ e. All-kept p P xs h.1)

  pub All-take : (n : ℕ) (P : A → Type 0) (xs : List A) → All P xs → All P (take n xs)
  All-take zero P xs h = tt
  All-take (suc n) P [] h = tt
  All-take (suc n) P (x ∷ xs) h = (h.0, All-take n P xs h.1)

  pub All-passes : (p : A → Bool) (xs : List A) → All (λ a. p a ≡ true) (filter p xs)
  All-passes p [] = tt
  All-passes p (x ∷ xs) =
      if-cases (All (λ a. p a ≡ true)) (p x) (λ e. (e, All-passes p xs)) (λ e. All-passes p xs)

  pub All-filter :
      (p : A → Bool) (P : A → Type 0) (xs : List A)
      → All P (filter p xs)
      → All (λ a. p a ≡ true → P a) xs
  All-filter p P [] h = tt
  All-filter p P (x ∷ xs) h = elim (Bool-cases (p x)) [
    | inl e ↦ let h' : P x × All P (filter p xs) = rw e at h in (λ _. h'.0, All-filter p P xs h'.1)
    | inr e ↦ (λ t. cc, All-filter p P xs (rw e at h))
  ]

module _ {ℓ κ} {A : Type ℓ} {B : Type κ} (f : A → B) (P : B → Type 0) where
  pub Any-map : (xs : List A) → Any P (map f xs) → Any (λ a. P (f a)) xs
  Any-map [] h = h
  Any-map (x ∷ xs) (inl h) = inl h
  Any-map (x ∷ xs) (inr h) = inr (Any-map xs h)

  pub All-map : (xs : List A) → All P (map f xs) → All (λ a. P (f a)) xs
  All-map [] h = tt
  All-map (x ∷ xs) h = (h.0, All-map xs h.1)
