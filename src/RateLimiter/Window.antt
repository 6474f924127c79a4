-- ===== src/RateLimiter/Window.antt =====
-- How many requests src/api_rate_limiter.cpp lets through, and for how long it may let none.
use bisso_e350_controller.Base.{
  ℕ, ◌+◌, ◌-◌, ◌*◌, ◌≤◌, ◌<◌, ◌≡◌, false, if◌then◌else◌, arith, elapsed, List, [], ◌∷◌, length, All,
  All-set, All-get_or, All-append, length-append_one, get_or, length-set, Bool-cases, inl, inr,
  Option, none, some, ltb,
}
use bisso_e350_controller.RateLimiter.Buckets.{
  limit_requests, limit_endpoints, Bucket, refill, take_token, check_bucket, new_tokens, check,
  get_bucket, find_bucket, create_bucket, check_found, new_bucket,
}

-- Checks of one bucket at the given times, and how many of them were allowed.
unfoldable pub check_all : List ℕ → Bucket → Bucket × ℕ
check_all [] b = (b, 0)
check_all (now ∷ nows) b =
    let (b', allowed) = check_bucket now b in
    let (b'', count) = check_all nows b' in (b'', if allowed then count + 1 else count)

-- Times that do not fall, begin at `start`, are 32-bit numbers, and end by `stop`.
abbrev pub Rising : ℕ → ℕ → List ℕ → Type 0
Rising start stop [] = start ≤ stop
Rising start stop (now ∷ nows) = (start ≤ now) × (now < 4294967296) × Rising now stop nows

refill_pays :
    (now : ℕ) (b : Bucket)
    → b.last_refill_ms ≤ now
    → now < 4294967296
    → b.tokens ≤ limit_requests
    → now - b.last_refill_ms < 85899345
    → let b' = refill now b in
      (b'.tokens * 60000 + b.last_refill_ms * 50 ≤ b.tokens * 60000 + b'.last_refill_ms * 50)
      × (b'.tokens ≤ limit_requests)
      × (b'.last_refill_ms ≤ now)
      × (b.last_refill_ms ≤ b'.last_refill_ms)
unfolding refill
refill_pays now b l n t g =
    let d : elapsed now b.last_refill_ms ≡ now - b.last_refill_ms = omega arith in
    let f : new_tokens (now - b.last_refill_ms) * 60000 ≤ (now - b.last_refill_ms) * 50 =
      omega arith in
    let s : new_tokens (now - b.last_refill_ms) < 71583 = omega arith in ground arith

check_pays :
    (now : ℕ) (b : Bucket)
    → b.last_refill_ms ≤ now
    → now < 4294967296
    → b.tokens ≤ limit_requests
    → now - b.last_refill_ms < 85899345
    → let (b', allowed) = check_bucket now b in
      ((b'.tokens + (if allowed then 1 else 0)) * 60000 + b.last_refill_ms * 50
        ≤ b.tokens * 60000 + b'.last_refill_ms * 50)
      × (b'.tokens ≤ limit_requests)
      × (b'.last_refill_ms ≤ now)
      × (b.last_refill_ms ≤ b'.last_refill_ms)
unfolding check_bucket take_token
check_pays now b l n t g = ground (arith, refill_pays now b l n t g)

Rising-le : (nows : List ℕ) (start stop : ℕ) → Rising start stop nows → start ≤ stop
Rising-le [] start stop r = r
Rising-le (now ∷ nows) start stop r = omega (arith, r.0, Rising-le nows now stop r.2)

-- For checks of a bucket of at most 50 tokens, at times that do not fall and that end less than
-- 85899345 ms (23.8 hours) behind its last refill, the requests let through and the tokens left are
-- paid for by the tokens before and by 50 for each 60000 ms from that refill to the end.
pub check_all-bound :
    (nows : List ℕ) (b : Bucket) (start stop : ℕ)
    → b.tokens ≤ limit_requests
    → b.last_refill_ms ≤ start
    → Rising start stop nows
    → stop - b.last_refill_ms < 85899345
    → let (b', count) = check_all nows b in
      (count + b'.tokens) * 60000 + b.last_refill_ms * 50 ≤ b.tokens * 60000 + stop * 50
unfolding check_all
check_all-bound [] b start stop t l r g = omega arith
check_all-bound (now ∷ nows) b start stop t l r g =
    let (p, t', l', m) =
      check_pays now b (omega arith) r.1 t (omega (arith, Rising-le nows now stop r.2)) in
    ground (
      arith,
      check_all-bound nows (check_bucket now b).0 now stop t' l' r.2,
      Rising-le nows now stop r.2,
    )

abbrev pub IsSmall : Bucket → Type 0
IsSmall b = b.tokens ≤ limit_requests

-- At most 32 endpoints, and at most 50 tokens for each.
abbrev pub IsBounded : List Bucket → Type 0
IsBounded buckets = (length buckets ≤ limit_endpoints) × All IsSmall buckets

check_bucket_capped :
    (now : ℕ) (b : Bucket)
    → b.tokens ≤ limit_requests
    → (check_bucket now b).0.tokens ≤ limit_requests
unfolding check_bucket refill take_token
check_bucket_capped now b h = ground arith

check_found-IsBounded :
    (now : ℕ) (buckets : List Bucket) (found : Option ℕ)
    → IsBounded buckets
    → IsBounded (check_found now (buckets, found)).0
check_found-IsBounded now buckets none h = h
check_found-IsBounded now buckets (some i) h =
    let b : Bucket = get_or buckets i (new_bucket 0 0) in
    let small : b.tokens ≤ limit_requests =
      All-get_or IsSmall buckets i (new_bucket 0 0) h.1 (omega arith) in
    (
      rw (length-set buckets i (check_bucket now b).0) h.0,
      All-set IsSmall buckets i (check_bucket now b).0 h.1 (check_bucket_capped now b small),
    )

create_bucket-IsBounded :
    (id now : ℕ) (buckets : List Bucket) (found : Option ℕ)
    → IsBounded buckets
    → IsBounded (create_bucket id now buckets found).0
create_bucket-IsBounded id now buckets (some i) h = h
create_bucket-IsBounded id now buckets none h =
    elim (Bool-cases (ltb (length buckets) limit_endpoints)) [
      | inl e ↦
          let room : length buckets < limit_endpoints = ground arith in
          rw e (
            rw (length-append_one buckets (new_bucket id now)) (omega arith),
            All-append IsSmall buckets (new_bucket id now) h.1 (omega arith),
          )
      | inr e ↦ rw e h
    ]

-- A check, of a known endpoint or of a new one, keeps at most 32 endpoints and at most 50 tokens
-- for each.
pub check-IsBounded :
    (id created now : ℕ) (buckets : List Bucket)
    → IsBounded buckets
    → IsBounded (check id created now buckets).0
unfolding check get_bucket
check-IsBounded id created now buckets h =
    let found = create_bucket id created buckets (find_bucket id 0 buckets) in
    check_found-IsBounded now found.0 found.1
      (create_bucket-IsBounded id created buckets (find_bucket id 0 buckets) h)

-- The product with the elapsed time wraps: a bucket without tokens that was left alone for at
-- least 85899346 and less than 85900546 ms (23.9 hours) refuses the next request.
pub idle_day_refused :
    (now : ℕ) (b : Bucket)
    → b.tokens ≡ 0
    → 85899346 ≤ elapsed now b.last_refill_ms
    → elapsed now b.last_refill_ms < 85900546
    → (check_bucket now b).1 ≡ false
unfolding check_bucket refill take_token
idle_day_refused now b t l u =
    let e : new_tokens (elapsed now b.last_refill_ms) ≡ 0 = omega arith in ground arith
