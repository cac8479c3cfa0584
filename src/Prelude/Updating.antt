-- ===== src/Prelude/Updating.antt =====
-- What an update of some rows does to the counts and to the first row of a table.
use Prim.Native.Nat.{◌+◌, ◌≤◌}
use mathlib.Core.Path.{◌≡◌, refl}
use mathlib.Core.List.{List, [], ◌∷◌, ◌++◌}
use mathlib.Core.Bool.{Bool, true, false, not, ◌&&◌}
use mathlib.Core.Logic.{inl, inr}
use mathlib.Core.Option.{none, some}
use native.Mathlib.Omega.{arith}
use tetra_host.Prelude.Tests.{if◌then◌else◌, Bool-cases}
use tetra_host.Prelude.Lists.{All, All-weaken}
use tetra_host.Prelude.Table.{select, first, update, delete, count}

module _ {ℓ} {A : Type ℓ} where
  pub count_cons :
      (p : A → Bool) (x : A) (xs : List A) → count p (x ∷ xs) ≡ (if p x then 1 else 0) + count p xs
  unfolding count select
  count_cons p x xs = ground arith

  pub first_cons :
      (p : A → Bool) (x : A) (xs : List A) → first p (x ∷ xs) ≡ (if p x then some x else first p xs)
  unfolding first
  first_cons p x xs = refl

  pub update_cons :
      (p : A → Bool) (f : A → A) (x : A) (xs : List A)
      → update p f (x ∷ xs) ≡ (if p x then f x else x) ∷ update p f xs
  unfolding update
  update_cons p f x xs = refl

  pub count_of_first :
      (p q : A → Bool) (xs : List A) {x : A} → first p xs ≡ some x → q x ≡ true → 1 ≤ count q xs
  unfolding first count select
  count_of_first p q [] h k = cc
  count_of_first p q (y ∷ xs) {x} h k = elim (Bool-cases (p y)) [
    | inl hit ↦
        let same : some y ≡ some x = rw hit at h in
        let held : q y ≡ true = ground arith in rw held (omega arith)
    | inr miss ↦ let rest = count_of_first p q xs (rw miss at h) k in ground (arith, rest)
  ]

  pub first-none_of_count : (p : A → Bool) (xs : List A) → count p xs ≤ 0 → first p xs ≡ none
  unfolding first count select
  first-none_of_count p [] h = refl
  first-none_of_count p (x ∷ xs) h = elim (Bool-cases (p x)) [
    | inl e ↦ ground arith
    | inr e ↦ rw e (first-none_of_count p xs (rw e at h))
  ]

  pub count_split :
      (p q : A → Bool) (xs : List A)
      → count q xs ≡ count (λ x. q x && p x) xs + count (λ x. q x && not (p x)) xs
  unfolding count select
  count_split p q [] = refl
  count_split p q (x ∷ xs) = ground (arith, count_split p q xs)

  -- An update loses from a count at most the rows that it changes.
  pub count-update_loss :
      (q p : A → Bool) (f : A → A) (xs : List A) → count q xs ≤ count q (update p f xs) + count p xs
  unfolding count select update
  count-update_loss q p f [] = ground arith
  count-update_loss q p f (x ∷ xs) = ground (arith, count-update_loss q p f xs)

  -- A row that leaves the changed rows where they were in the count only raises it.
  pub count-update_gain :
      (q p : A → Bool) (f : A → A) (xs : List A)
      → All (λ x. p x ≡ true → q x ≡ false) xs
      → count q xs ≤ count q (update p f xs)
  unfolding count select update
  count-update_gain q p f [] h = ground arith
  count-update_gain q p f (x ∷ xs) (k, h) = ground (arith, count-update_gain q p f xs h, k)

  -- An update that makes no row count lowers the count.
  pub count-update_drop :
      (q p : A → Bool) (f : A → A) (xs : List A)
      → ((x : A) → q (f x) ≡ true → q x ≡ true)
      → count q (update p f xs) ≤ count q xs
  unfolding count select update
  count-update_drop q p f [] h = ground arith
  count-update_drop q p f (x ∷ xs) h = ground (arith, count-update_drop q p f xs h, h x)

  pub count-update_same :
      (q p : A → Bool) (f : A → A) (xs : List A)
      → ((x : A) → q (f x) ≡ q x)
      → count q (update p f xs) ≡ count q xs
  unfolding count select update
  count-update_same q p f [] h = refl
  count-update_same q p f (x ∷ xs) h = ground (arith, count-update_same q p f xs h, h x)

  -- An update of all the rows that count, to rows that do not.
  pub count-update_none :
      (q : A → Bool) (f : A → A) (xs : List A)
      → ((x : A) → q (f x) ≡ false)
      → count q (update q f xs) ≡ 0
  unfolding count select update
  count-update_none q f [] h = refl
  count-update_none q f (x ∷ xs) h = ground (arith, count-update_none q f xs h, h x)

  pub none_of_count : (p : A → Bool) (xs : List A) → count p xs ≤ 0 → All (λ x. p x ≡ false) xs
  unfolding count select
  none_of_count p [] h = tt
  none_of_count p (x ∷ xs) h = elim (Bool-cases (p x)) [
    | inl e ↦ ground arith
    | inr e ↦ (e, none_of_count p xs (rw e at h))
  ]

  first-none_of :
      (p r : A → Bool) (xs : List A)
      → ((x : A) → r x ≡ true → p x ≡ true)
      → All (λ x. p x ≡ false) xs
      → first r xs ≡ none
  unfolding first
  first-none_of p r [] k h = refl
  first-none_of p r (x ∷ xs) k (e, h) = ground (arith, first-none_of p r xs k h, k x)

  -- Where `p` holds of one row at most, the row found by a sharper test is that row.
  pub only_row :
      (p r : A → Bool) (xs : List A) {m : A}
      → ((x : A) → r x ≡ true → p x ≡ true)
      → count p xs ≤ 1
      → first r xs ≡ some m
      → All (λ x. p x ≡ true → x ≡ m) xs
  unfolding first count select
  only_row p r [] k h e = tt
  only_row p r (x ∷ xs) {m} k h e = elim (Bool-cases (p x)) [
    | inl held ↦
        let others : All (λ y. p y ≡ false) xs = none_of_count p xs (ground arith) in
        (
          elim (Bool-cases (r x)) [
            | inl hit ↦ λ _. let same : some x ≡ some m = rw hit at e in ground arith
            | inr miss ↦ let nothing = first-none_of p r xs k others in ground arith
          ],
          All-weaken _ _ xs (λ y off on. ground arith) others,
        )
    | inr fails ↦ (λ yes. ground arith, only_row p r xs k (ground arith) (ground (arith, k x)))
  ]

  pub first-append :
      (p : A → Bool) (xs ys : List A) {m : A} → first p xs ≡ some m → first p (xs ++ ys) ≡ some m
  unfolding first
  first-append p [] ys e = cc
  first-append p (x ∷ xs) ys {m} e = ground (arith, first-append p xs ys {m = m})

  pub first-append_none :
      (p : A → Bool) (xs ys : List A) → first p xs ≡ none → first p (xs ++ ys) ≡ first p ys
  unfolding first
  first-append_none p [] ys e = refl
  first-append_none p (x ∷ xs) ys e = ground (arith, first-append_none p xs ys)

  -- An update that keeps the test leaves the first row first.
  pub first-update :
      (p q : A → Bool) (f : A → A) (xs : List A)
      → ((x : A) → p (f x) ≡ p x)
      → first p (update q f xs)
        ≡ elim (first p xs) [ none ↦ none | some x ↦ some (if q x then f x else x) ]
  unfolding first update
  first-update p q f [] h = refl
  first-update p q f (x ∷ xs) h = ground (arith, first-update p q f xs h, h x)

  pub count-insert :
      (p : A → Bool) (x : A) (xs : List A)
      → count p (xs ++ (x ∷ [])) ≡ count p xs + (if p x then 1 else 0)
  unfolding count select
  count-insert p x [] = ground arith
  count-insert p x (y ∷ xs) = ground (arith, count-insert p x xs)

  pub count-delete : (q p : A → Bool) (xs : List A) → count q (delete p xs) ≤ count q xs
  unfolding count select delete
  count-delete q p [] = omega arith
  count-delete q p (x ∷ xs) = ground (arith, count-delete q p xs)

  -- A scan that finds nothing means that nothing counts.
  pub count_of_first-none : (p : A → Bool) (xs : List A) → first p xs ≡ none → count p xs ≡ 0
  unfolding first count select
  count_of_first-none p [] h = refl
  count_of_first-none p (x ∷ xs) h = ground (arith, count_of_first-none p xs)
