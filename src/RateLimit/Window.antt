-- ===== src/RateLimit/Window.antt =====
-- The limiter's promise: in no window are there more grants than the limit.
use tetra_host.Prelude.{
  ℕ, Bool, false, ◌≡◌, ◌≤◌, ◌<◌, ◌+◌, ◌&&◌, refl, Option, none, some, List, [], ◌∷◌, arith, leb,
  ltb, length, length-append, count, count-append, if◌then◌else◌,
}
use native.Mathlib.Decide.{dec_lt}
use tetra_host.RateLimit.{RateLimitDecision, prune, retry_after, check_bucket}

abbrev is_grant : Option RateLimitDecision → Bool
is_grant none = false
is_grant (some d) = d.allowed

-- The instants that are granted, of a list of instants at which one key is checked.
unfoldable pub grants : ℕ → ℕ → ℕ → List ℕ → List ℕ → List ℕ
grants second limit window bucket [] = []
grants second limit window bucket (now ∷ times) =
    let (decision, after) = check_bucket second limit window now bucket in
    let later = grants second limit window after times in
    if is_grant decision then now ∷ later else later

-- Instants that never go back, none before `start`.
abbrev pub IsClock : ℕ → List ℕ → Type 0
IsClock start [] = Unit
IsClock start (now ∷ times) = (start ≤ now) × IsClock now times

-- `t` lies in the window that ends at `at`
abbrev pub in_window : ℕ → ℕ → ℕ → Bool
in_window window at t = leb t at && ltb at (t + window)

module _ (window at : ℕ) where
  count-le-length : (xs : List ℕ) → count (in_window window at) xs ≤ length xs
  unfolding count
  count-le-length [] = omega arith
  count-le-length (x ∷ xs) = ground (arith, count-le-length xs)

  length-prune : (now : ℕ) (xs : List ℕ) → length (prune window now xs) ≤ length xs
  unfolding prune
  length-prune now [] = omega arith
  length-prune now (x ∷ xs) = ground (arith, length-prune now xs)

  -- What a check drops is in no window from then on.
  count-prune :
      (now : ℕ) (xs : List ℕ)
      → now ≤ at
      → count (in_window window at) (prune window now xs) ≡ count (in_window window at) xs
  unfolding count prune
  count-prune now [] h = refl
  count-prune now (x ∷ xs) h = ground (arith, count-prune now xs h)

  module _ (second limit : ℕ) where
    -- Nothing is granted before the clock's start.
    count-grants_early :
        (start : ℕ) (bucket times : List ℕ)
        → at < start
        → IsClock start times
        → count (in_window window at) (grants second limit window bucket times) ≡ 0
    unfolding count grants
    count-grants_early start bucket [] h c = refl
    count-grants_early start bucket (now ∷ times) h (c, cs) = ground (
      arith,
      count-grants_early now (check_bucket second limit window now bucket).1 times (omega arith) cs,
    )

    not_granted :
        (now : ℕ) (fresh : List ℕ) → is_grant (retry_after second window now fresh) ≡ false
    unfolding retry_after
    not_granted now [] = refl
    not_granted now (t ∷ fresh) = refl

    length-check_bucket :
        (now : ℕ) (bucket : List ℕ)
        → length bucket ≤ limit
        → length (check_bucket second limit window now bucket).1 ≤ limit
    unfolding check_bucket
    length-check_bucket now bucket h =
        ground (arith, length-prune now bucket, length-append (prune window now bucket) (now ∷ []))

    -- A check moves a granted instant into the bucket.
    count-check_bucket :
        (now : ℕ) (bucket : List ℕ)
        → now ≤ at
        → count (in_window window at) (check_bucket second limit window now bucket).1
          ≡ count (in_window window at) bucket
            + (if is_grant (check_bucket second limit window now bucket).0
                then count (in_window window at) (now ∷ [])
                else 0)
    unfolding check_bucket
    count-check_bucket now bucket h = ground (
      arith,
      not_granted now (prune window now bucket),
      count-prune now bucket,
      count-append (in_window window at) (prune window now bucket) (now ∷ []),
    )

    grants_within :
        (start : ℕ) (bucket times : List ℕ)
        → length bucket ≤ limit
        → IsClock start times
        → count (in_window window at) bucket
            + count (in_window window at) (grants second limit window bucket times)
          ≤ limit
    unfolding grants count
    grants_within start bucket [] h c =
        omega (arith, count-le-length bucket, count-append (in_window window at) bucket [])
    grants_within start bucket (now ∷ times) h (c, cs) = elim (dec_lt at now) [
      | yes early ↦
          let none_yet = count-grants_early now bucket (now ∷ times) early (omega arith, cs) in
          omega (arith, none_yet, count-le-length bucket)
      | no late ↦
          let after = (check_bucket second limit window now bucket).1 in
          ground (
            arith,
            count-check_bucket now bucket,
            grants_within now after times (length-check_bucket now bucket h) cs,
            count-append (in_window window at) (now ∷ []) (grants second limit window after times),
          )
    ]

-- Whatever the instants at which a key is checked, no window that ends at `at` holds more grants
-- than the limit.
pub grants-within :
    (second limit window at start : ℕ) (times : List ℕ)
    → IsClock start times
    → count (in_window window at) (grants second limit window [] times) ≤ limit
grants-within second limit window at start times c =
    omega (arith, grants_within window at second limit start [] times (omega arith) c)
