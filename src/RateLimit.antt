-- ===== src/RateLimit.antt =====
-- app/rate_limit.py: the sliding-window limiter. Instants and windows are in ticks of the clock,
-- `second` ticks to the second. A bucket is the deque of one key, oldest first. With `limit` 0 the
-- source reads the head of an empty deque, which raises: `none` here.
pub mod Window
use tetra_host.Prelude.{
  ℕ, String, Bool, true, false, ◌+◌, ◌-◌, ◌/◌, ◌*◌, Option, none, some, List, [], ◌∷◌, ◌++◌, max,
  leb, length, if◌then◌else◌,
}
use tetra_host.Prelude.Dict
use tetra_host.Prelude.Dict.{Dict}

pub record RateLimitDecision : Type 0 where
  pub allowed : Bool
  pub retry_after_seconds : ℕ
  pub remaining : ℕ

-- the `while` loop: instants at or before `now - window` leave the bucket
unfoldable pub prune : ℕ → ℕ → List ℕ → List ℕ
prune window now [] = []
prune window now (t ∷ bucket) =
    let rest = prune window now bucket in if leb (t + window) now then rest else t ∷ bucket

abbrev pub bucket_of : Option (List ℕ) → List ℕ
bucket_of none = []
bucket_of (some bucket) = bucket

-- int(window - (now - t)), of a positive number of seconds
retry_after : ℕ → ℕ → ℕ → List ℕ → Option RateLimitDecision
retry_after second window now [] = none
retry_after second window now (t ∷ bucket) = some (record {
  allowed = false;
  retry_after_seconds = max 1 ((window - (now - t)) / second);
  remaining = 0;
})

-- one check of a bucket: the decision, and the bucket that it leaves
unfoldable pub check_bucket : ℕ → ℕ → ℕ → ℕ → List ℕ → Option RateLimitDecision × List ℕ
unfolding retry_after
check_bucket second limit window now bucket =
    let fresh = prune window now bucket in
    if leb limit (length fresh) then (retry_after second window now fresh, fresh) else (
      some (record {
        allowed = true;
        retry_after_seconds = 0;
        remaining = limit - length (fresh ++ (now ∷ []));
      }),
      fresh ++ (now ∷ []),
    )

unfoldable pub check :
    ℕ → String → ℕ → ℕ → ℕ → Dict (List ℕ) → Option RateLimitDecision × Dict (List ℕ)
check second key limit window now buckets =
    let (decision, bucket) =
      check_bucket second limit window now (bucket_of (Dict.get key buckets)) in
    (decision, Dict.put key bucket buckets)
