-- ===== src/Prelude/Table.antt =====
-- Database tables as lists of rows, oldest first, and the statements that the services issue.
use Prim.Native.Nat.{ℕ, ◌+◌, ◌≤◌}
use mathlib.Core.Path.{◌≡◌, refl}
use mathlib.Core.List.{List, [], ◌∷◌, ◌++◌}
use mathlib.Core.Bool.{Bool, true, false}
use mathlib.Core.Logic.{inl, inr}
use mathlib.Core.Option.{Option, none, some}
use native.Mathlib.Omega.{arith}
use tetra_host.Prelude.Tests.{if◌then◌else◌, Bool-cases}
use tetra_host.Prelude.Lists.{length, length-append, All}

module _ {ℓ} {A : Type ℓ} where
  -- SELECT … WHERE p
  unfoldable pub select : (A → Bool) → List A → List A
  select p [] = []
  select p (x ∷ xs) = let rest = select p xs in if p x then x ∷ rest else rest

  -- the row that `session.scalar`, `scalar_one_or_none` or `session.get` gives, if there is one
  unfoldable pub first : (A → Bool) → List A → Option A
  first p [] = none
  first p (x ∷ xs) = let rest = first p xs in if p x then some x else rest

  -- session.add, flushed
  abbrev pub insert : A → List A → List A
  insert x xs = xs ++ (x ∷ [])

  -- an assignment to attributes of the rows that `p` selects
  unfoldable pub update : (A → Bool) → (A → A) → List A → List A
  update p f [] = []
  update p f (x ∷ xs) = (if p x then f x else x) ∷ update p f xs

  -- DELETE … WHERE p
  unfoldable pub delete : (A → Bool) → List A → List A
  delete p [] = []
  delete p (x ∷ xs) = let rest = delete p xs in if p x then rest else x ∷ rest

  -- SELECT count(*) … WHERE p
  unfoldable pub count : (A → Bool) → List A → ℕ
  unfolding select
  count p xs = length (select p xs)

  -- ORDER BY created_at DESC
  unfoldable pub newest_first : List A → List A
  newest_first [] = []
  newest_first (x ∷ xs) = newest_first xs ++ (x ∷ [])

  pub select-append :
      (p : A → Bool) (xs ys : List A) → select p (xs ++ ys) ≡ select p xs ++ select p ys
  unfolding select
  select-append p [] ys = refl
  select-append p (x ∷ xs) ys = ground (arith, select-append p xs ys)

  pub count-append : (p : A → Bool) (xs ys : List A) → count p (xs ++ ys) ≡ count p xs + count p ys
  unfolding count
  count-append p xs ys = rw select-append (length-append (select p xs) (select p ys))

  pub first_holds : (p : A → Bool) (xs : List A) {x : A} → first p xs ≡ some x → p x ≡ true
  unfolding first
  first_holds p [] h = cc
  first_holds p (y ∷ xs) h = elim (Bool-cases (p y)) [
    | inl e ↦ ground arith
    | inr e ↦ first_holds p xs (rw e at h)
  ]

  -- A scan that finds nothing means that the selection is empty.
  pub select_of_first-none : (p : A → Bool) (xs : List A) → first p xs ≡ none → select p xs ≡ []
  unfolding first select
  select_of_first-none p [] h = refl
  select_of_first-none p (x ∷ xs) h = ground (arith, select_of_first-none p xs)

  pub count-pos_of_first :
      (p : A → Bool) (xs : List A) {x : A} → first p xs ≡ some x → 1 ≤ count p xs
  unfolding first count
  count-pos_of_first p [] h = cc
  count-pos_of_first p (y ∷ xs) {x} h = ground (arith, count-pos_of_first p xs {x = x})

  pub All-select {κ} :
      (P : A → Type κ) (p : A → Bool) (xs : List A) → All P xs → All P (select p xs)
  unfolding select
  All-select P p [] h = tt
  All-select P p (x ∷ xs) (k, h) = elim (Bool-cases (p x)) [
    | inl e ↦ rw e (k, All-select P p xs h)
    | inr e ↦ rw e (All-select P p xs h)
  ]

  pub All-select_test : (p : A → Bool) (xs : List A) → All (λ x. p x ≡ true) (select p xs)
  unfolding select
  All-select_test p [] = tt
  All-select_test p (x ∷ xs) = elim (Bool-cases (p x)) [
    | inl e ↦ rw e (e, All-select_test p xs)
    | inr e ↦ rw e (All-select_test p xs)
  ]

  pub All-first {κ} :
      (P : A → Type κ) (p : A → Bool) (xs : List A) {x : A} → All P xs → first p xs ≡ some x → P x
  unfolding first
  All-first P p [] _ h = cc
  All-first P p (y ∷ xs) {x} (k, ks) h = elim (Bool-cases (p y)) [
    | inl e ↦ let same : some y ≡ some x = rw e at h in ground arith
    | inr e ↦ All-first P p xs ks (rw e at h)
  ]

  pub All-delete {κ} :
      (P : A → Type κ) (p : A → Bool) (xs : List A) → All P xs → All P (delete p xs)
  unfolding delete
  All-delete P p [] h = tt
  All-delete P p (x ∷ xs) (k, h) = elim (Bool-cases (p x)) [
    | inl e ↦ rw e (All-delete P p xs h)
    | inr e ↦ rw e (k, All-delete P p xs h)
  ]

  pub All-update {κ} :
      (P : A → Type κ) (p : A → Bool) (f : A → A) (xs : List A)
      → ((x : A) → P x → P (f x))
      → All P xs
      → All P (update p f xs)
  unfolding update
  All-update P p f [] k h = tt
  All-update P p f (x ∷ xs) k (q, h) = elim (Bool-cases (p x)) [
    | inl e ↦ rw e (k x q, All-update P p f xs k h)
    | inr e ↦ rw e (q, All-update P p f xs k h)
  ]

-- Statements about other rows are not disturbed.
module _ {ℓ} {A : Type ℓ} (p q : A → Bool) where
  pub select-delete_other :
      (xs : List A) → ((x : A) → p x ≡ true → q x ≡ false) → select q (delete p xs) ≡ select q xs
  unfolding select delete
  select-delete_other [] h = refl
  select-delete_other (x ∷ xs) h = ground (arith, select-delete_other xs h, h x)

  pub select-delete_self :
      (xs : List A) → ((x : A) → q x ≡ true → p x ≡ true) → select q (delete p xs) ≡ []
  unfolding select delete
  select-delete_self [] h = refl
  select-delete_self (x ∷ xs) h = ground (arith, select-delete_self xs h, h x)

  pub select-update_other :
      (f : A → A) (xs : List A)
      → ((x : A) → p x ≡ true → (q x ≡ false) × (q (f x) ≡ false))
      → select q (update p f xs) ≡ select q xs
  unfolding select update
  select-update_other f [] h = refl
  select-update_other f (x ∷ xs) h = elim (Bool-cases (p x)) [
    | inl e ↦ rw (e, (h x e).0, (h x e).1) (select-update_other f xs h)
    | inr e ↦ rw (e, select-update_other f xs h)
  ]

module _ {ℓ} {A : Type ℓ} (p : A → Bool) where
  pub delete-append : (xs ys : List A) → delete p (xs ++ ys) ≡ delete p xs ++ delete p ys
  unfolding delete
  delete-append [] ys = refl
  delete-append (x ∷ xs) ys = ground (arith, delete-append xs ys)

  -- A deletion that selects nothing deletes nothing.
  pub delete_of_first-none : (xs : List A) → first p xs ≡ none → delete p xs ≡ xs
  unfolding delete first
  delete_of_first-none [] h = refl
  delete_of_first-none (x ∷ xs) h = ground (arith, delete_of_first-none xs)
