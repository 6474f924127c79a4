-- ===== src/RateLimiter/Tests.antt =====
-- The theorems on the request limits at concrete buckets, and a burst of requests.
use bisso_e350_controller.Base.{◌+◌, ◌*◌, ◌≤◌, ◌≡◌, refl, arith, [], ◌∷◌, ◌++◌, replicate}
use bisso_e350_controller.RateLimiter.Buckets.{Bucket, new_bucket, check_bucket, refill, take_token}
use bisso_e350_controller.RateLimiter.Window.{check_all, check_all-bound}

check_all-bound_example :
    let (b', count) = check_all (1000 ∷ 1000 ∷ 61000 ∷ []) (new_bucket 7 1000) in
    (count + b'.tokens) * 60000 + 1000 * 50 ≤ 50 * 60000 + 61000 * 50
check_all-bound_example =
    check_all-bound (1000 ∷ 1000 ∷ 61000 ∷ []) (new_bucket 7 1000) 1000 61000 (omega arith)
      (omega arith)
      (
        omega arith,
        omega arith,
        (omega arith, omega arith, (omega arith, omega arith, omega arith)),
      )
      (omega arith)

-- Of 100 requests within one window, 99 are let through: 50 at its beginning, 49 at its end.
burst : (check_all (replicate 50 1000 ++ replicate 50 60999) (new_bucket 7 1000)).1 ≡ 99
unfolding check_all check_bucket refill take_token
burst = refl

abbrev empty_bucket : Bucket
empty_bucket = record (new_bucket 7 1000) { tokens = 0 }
