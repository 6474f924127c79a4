-- ===== src/RateLimiter/Buckets.antt =====
-- The token buckets of src/api_rate_limiter.cpp. The list holds `buckets[0 .. active_endpoints)`;
-- the code reads no other entry.
use bisso_e350_controller.Base.{
  ℕ, suc, ◌+◌, ◌-◌, ◌*◌, ◌/◌, Bool, true, false, if◌then◌else◌, ltb, ◌==◌, u32, elapsed, Option,
  none, some, List, [], ◌∷◌, ◌++◌, length, get_or, set,
}

abbrev pub limit_requests : ℕ
limit_requests = 50

abbrev pub limit_window_ms : ℕ
limit_window_ms = 60000

abbrev pub limit_endpoints : ℕ
limit_endpoints = 32

-- `api_rate_limiter_bucket_t`
pub record Bucket : Type 0 where
  pub endpoint_id : ℕ
  pub tokens : ℕ
  pub last_refill_ms : ℕ
  pub blocked_count : ℕ

abbrev pub new_bucket : ℕ → ℕ → Bucket
new_bucket id now = record {
  endpoint_id = id;
  tokens = limit_requests;
  last_refill_ms = now;
  blocked_count = 0;
}

-- `apiRateLimiterInit` leaves no endpoint active.
abbrev pub init : List Bucket
init = []

-- The search of `getRateLimiterBucket`: the index of the endpoint, `i` being that of the first.
unfoldable pub find_bucket : ℕ → ℕ → List Bucket → Option ℕ
find_bucket id i [] = none
find_bucket id i (b ∷ buckets) =
    if b.endpoint_id == id then some i else find_bucket id (suc i) buckets

abbrev pub create_bucket : ℕ → ℕ → List Bucket → Option ℕ → List Bucket × Option ℕ
create_bucket id now buckets (some i) = (buckets, some i)
create_bucket id now buckets none =
    if ltb (length buckets) limit_endpoints
    then (buckets ++ (new_bucket id now ∷ []), some (length buckets))
    else (buckets, none)

-- `now` is read for a new bucket.
unfoldable pub get_bucket : ℕ → ℕ → List Bucket → List Bucket × Option ℕ
unfolding find_bucket
get_bucket id now buckets = create_bucket id now buckets (find_bucket id 0 buckets)

-- The product is one of 32-bit numbers.
abbrev pub new_tokens : ℕ → ℕ
new_tokens passed = u32 (passed * limit_requests) / limit_window_ms

abbrev pub cap : ℕ → ℕ
cap n = if ltb limit_requests n then limit_requests else n

unfoldable pub refill : ℕ → Bucket → Bucket
refill now b =
    let fresh = new_tokens (elapsed now b.last_refill_ms) in
    if ltb 0 (elapsed now b.last_refill_ms)
    then (if ltb 0 fresh
        then record b { tokens = cap (u32 (b.tokens + fresh)); last_refill_ms = now }
        else b)
    else b

unfoldable pub take_token : Bucket → Bucket × Bool
take_token b =
    if ltb 0 b.tokens
    then (record b { tokens = b.tokens - 1 }, true)
    else (record b { blocked_count = u32 (b.blocked_count + 1) }, false)

-- The part of `apiRateLimiterCheck` on the bucket of the endpoint.
unfoldable pub check_bucket : ℕ → Bucket → Bucket × Bool
unfolding refill take_token
check_bucket now b = take_token (refill now b)

abbrev pub check_found : ℕ → List Bucket × Option ℕ → List Bucket × Bool
check_found now (buckets, none) = (buckets, false)
check_found now (buckets, some i) =
    let (b, allowed) = check_bucket now (get_or buckets i (new_bucket 0 0)) in
    (set buckets i b, allowed)

-- `created` is the time that a new bucket gets, `now` that of the check.
unfoldable pub check : ℕ → ℕ → ℕ → List Bucket → List Bucket × Bool
unfolding get_bucket check_bucket
check id created now buckets = check_found now (get_bucket id created buckets)

unfoldable pub get_blocked_count : ℕ → List Bucket → ℕ
get_blocked_count id [] = 0
get_blocked_count id (b ∷ buckets) =
    if b.endpoint_id == id then b.blocked_count else get_blocked_count id buckets

-- `nows` are the readings of the clock, one for each bucket.
unfoldable pub reset : List ℕ → List Bucket → List Bucket
reset (now ∷ nows) (b ∷ buckets) =
    record b { tokens = limit_requests; last_refill_ms = now; blocked_count = 0 }
    ∷ reset nows buckets
reset _ buckets = buckets
