-- ===== src/Auth/Lockout.antt =====
-- The limit on failed attempts of src/auth_manager.cpp over time.
use bisso_e350_controller.Base.{
  ℕ, zero, suc, ◌+◌, ◌^◌, ◌≤◌, ◌<◌, ◌≡◌, refl, ap, ◌∙◌, Bool, true, false, if◌then◌else◌, ltb, leb,
  Bool-cases, inl, inr, branch, branches, Option-cases, u32, elapsed, Option, none, some, List, [],
  ◌∷◌, ◌++◌, length, take, set, All, arith,
}
use bisso_e350_controller.GcodeParser.Text.{Bytes}
use bisso_e350_controller.Auth.Passwords.{same_text}
use bisso_e350_controller.Auth.Digests.{take_all}
use bisso_e350_controller.Auth.Strength.{same_text_self}
use bisso_e350_controller.Auth.Attempts.{
  RateLimitEntry, is_expired, check_entry, auth_check_rate_limit, count_attempt, first_entry,
  count_known, behind, oldest_from, oldest, add_entry, auth_record_failed_attempt,
}

-- The entry of an address.
abbrev pub find : Bytes → List RateLimitEntry → Option RateLimitEntry
find ip [] = none
find ip (e ∷ table) = if same_text e.ip_address ip then some e else find ip table

-- What a check answers, by the entry.
abbrev answer : ℕ → Option RateLimitEntry → Bool
answer now none = true
answer now (some e) = (check_entry now e).1

check-find :
    (now : ℕ) (ip : Bytes) (table : List RateLimitEntry)
    → (auth_check_rate_limit now ip table).1 ≡ answer now (find ip table)
unfolding auth_check_rate_limit
check-find now ip [] = refl
check-find now ip (e ∷ table) = elim (Bool-cases (same_text e.ip_address ip)) [
  | inl h ↦ rw h refl
  | inr h ↦ rw h (check-find now ip table)
]

abbrev counted : ℕ → Bytes → Option RateLimitEntry → RateLimitEntry
counted now ip none = first_entry now ip
counted now ip (some e) = count_attempt now e

oldest_from-lt :
    (i best time : ℕ) (table : List RateLimitEntry)
    → best < i
    → oldest_from i best time table < i + length table
unfolding oldest_from
oldest_from-lt i best time [] l = omega arith
oldest_from-lt i best time (e ∷ table) l =
    branch (λ (n : ℕ). n < i + suc (length table)) (ltb e.last_attempt_time time) _ _
      (λ _. let h = oldest_from-lt (suc i) i e.last_attempt_time table (omega arith) in omega arith)
      (λ _. let h = oldest_from-lt (suc i) best time table (omega arith) in omega arith)

find-append :
    (ip : Bytes) (table : List RateLimitEntry) (e : RateLimitEntry)
    → find ip table ≡ none
    → same_text e.ip_address ip ≡ true
    → find ip (table ++ (e ∷ [])) ≡ some e
find-append ip [] e n s = rw s refl
find-append ip (x ∷ table) e n s = elim (Bool-cases (same_text x.ip_address ip)) [
  | inl h ↦ let f = rw h at n in cc
  | inr h ↦ rw h (find-append ip table e (rw h at n) s)
]

find-set :
    (ip : Bytes) (table : List RateLimitEntry) (i : ℕ) (e : RateLimitEntry)
    → find ip table ≡ none
    → same_text e.ip_address ip ≡ true
    → i < length table
    → find ip (set table i e) ≡ some e
find-set ip [] i e n s l = absurd (omega arith)
find-set ip (x ∷ table) zero e n s l = rw s refl
find-set ip (x ∷ table) (suc i) e n s l = elim (Bool-cases (same_text x.ip_address ip)) [
  | inl h ↦ let f = rw h at n in cc
  | inr h ↦ rw h (find-set ip table i e (rw h at n) s (omega arith))
]

oldest-lt : (table : List RateLimitEntry) → 0 < length table → oldest table < length table
oldest-lt [] l = absurd (omega arith)
oldest-lt (e ∷ table) l =
    let h = oldest_from-lt 1 0 e.last_attempt_time table (omega arith) in omega arith

find-add :
    (now : ℕ) (ip : Bytes) (table : List RateLimitEntry)
    → length ip ≤ 15
    → find ip table ≡ none
    → find ip (add_entry now ip table) ≡ some (first_entry now ip)
find-add now ip table short n =
    let s : same_text (take 15 ip) ip ≡ true =
      ap (λ (t : Bytes). same_text t ip) (take_all ip 15 short) ∙ same_text_self ip in
    branch (λ (t : List RateLimitEntry). find ip t ≡ some (first_entry now ip))
      (ltb (length table) 16) _ _ (λ _. find-append ip table (first_entry now ip) n s)
      (λ full.
        find-set ip table (oldest table) (first_entry now ip) n s (oldest-lt table (ground arith)))

-- The table with the entry of an address changed.
abbrev changed : ℕ → Bytes → List RateLimitEntry → List RateLimitEntry
changed now ip [] = []
changed now ip (e ∷ table) =
    if same_text e.ip_address ip then count_attempt now e ∷ table else e ∷ changed now ip table

count_attempt-ip_address :
    (now : ℕ) (e : RateLimitEntry) → (count_attempt now e).ip_address ≡ e.ip_address
count_attempt-ip_address now e =
    branches (λ (x : RateLimitEntry). x.ip_address ≡ e.ip_address) (is_expired now e) _ _ refl refl

known-changed :
    (now : ℕ) (ip : Bytes) (table : List RateLimitEntry) (e : RateLimitEntry)
    → find ip table ≡ some e
    → count_known now ip table ≡ some (changed now ip table)
unfolding count_known
known-changed now ip [] e h = cc
known-changed now ip (x ∷ table) e h = elim (Bool-cases (same_text x.ip_address ip)) [
  | inl s ↦ rw s refl
  | inr s ↦ rw s (ap (behind x) (known-changed now ip table e (rw s at h)))
]

unknown-none :
    (now : ℕ) (ip : Bytes) (table : List RateLimitEntry)
    → find ip table ≡ none
    → count_known now ip table ≡ none
unfolding count_known
unknown-none now ip [] h = refl
unknown-none now ip (x ∷ table) h = elim (Bool-cases (same_text x.ip_address ip)) [
  | inl s ↦ let f = rw s at h in cc
  | inr s ↦ rw s (ap (behind x) (unknown-none now ip table (rw s at h)))
]

find-changed :
    (now : ℕ) (ip : Bytes) (table : List RateLimitEntry) (e : RateLimitEntry)
    → find ip table ≡ some e
    → find ip (changed now ip table) ≡ some (count_attempt now e)
find-changed now ip [] e h = cc
find-changed now ip (x ∷ table) e h = elim (Bool-cases (same_text x.ip_address ip)) [
  | inl s ↦
      let same : x ≡ e = some-eq (rw s at h) in
      let k = ap (λ (t : Bytes). same_text t ip) (count_attempt-ip_address now x) ∙ s in
      simp s (simp k (ap (λ (y : RateLimitEntry). some (count_attempt now y)) same))
  | inr s ↦ simp s ((find-changed now ip table e (rw s at h)))
]
  where
    some-eq : {x y : RateLimitEntry} → some x ≡ some y → x ≡ y
    some-eq h = ground arith

find-record :
    (now : ℕ) (ip : Bytes) (table : List RateLimitEntry)
    → length ip ≤ 15
    → find ip (auth_record_failed_attempt now ip table) ≡ some (counted now ip (find ip table))
unfolding auth_record_failed_attempt
find-record now ip table short = elim (Option-cases (find ip table)) [
  | inl n ↦ rw (unknown-none now ip table n, n) (find-add now ip table short n)
  | inr (e, h) ↦ rw (known-changed now ip table e h, h) (find-changed now ip table e h)
]

-- Failed attempts of an address, at these times.
abbrev pub record_all : List ℕ → Bytes → List RateLimitEntry → List RateLimitEntry
record_all [] ip table = table
record_all (t ∷ times) ip table = record_all times ip (auth_record_failed_attempt t ip table)

abbrev count_all : List ℕ → RateLimitEntry → RateLimitEntry
count_all [] e = e
count_all (t ∷ times) e = count_all times (count_attempt t e)

find-record_all :
    (times : List ℕ) (ip : Bytes) (table : List RateLimitEntry) (e : RateLimitEntry)
    → length ip ≤ 15
    → find ip table ≡ some e
    → find ip (record_all times ip table) ≡ some (count_all times e)
find-record_all [] ip table e short h = h
find-record_all (t ∷ times) ip table e short h =
    find-record_all times ip (auth_record_failed_attempt t ip table) (count_attempt t e) short
      (find-record t ip table short ∙ ap (λ (o : Option RateLimitEntry). some (counted t ip o)) h)

-- In the window that began at a time.
abbrev pub InWindow : ℕ → ℕ → Type 0
InWindow first t = elapsed t first ≤ 60000

count_attempt-InWindow :
    (t : ℕ) (e : RateLimitEntry)
    → InWindow e.first_attempt_time t
    → count_attempt t e
      ≡ record e { attempt_count = u32 (e.attempt_count + 1); last_attempt_time = t }
count_attempt-InWindow t e w = let on : is_expired t e ≡ false = ground arith in simp on refl

count_all-InWindow :
    (times : List ℕ) (e : RateLimitEntry)
    → All (InWindow e.first_attempt_time) times
    → e.attempt_count + length times < 2 ^ 32
    → ((count_all times e).attempt_count ≡ e.attempt_count + length times)
      × ((count_all times e).first_attempt_time ≡ e.first_attempt_time)
count_all-InWindow [] e w l = (omega arith, refl)
count_all-InWindow (t ∷ times) e (w, ws) l =
    let e' = record e { attempt_count = u32 (e.attempt_count + 1); last_attempt_time = t } in
    let small : u32 (e.attempt_count + 1) ≡ e.attempt_count + 1 = omega arith in
    let (c, f) = count_all-InWindow times e' ws (omega arith) in
    let same = ap (count_all times) (count_attempt-InWindow t e w) in
    (
      ap (λ (x : RateLimitEntry). x.attempt_count) same ∙ omega arith,
      ap (λ (x : RateLimitEntry). x.first_attempt_time) same ∙ f,
    )

answer-count :
    (now : ℕ) (x : RateLimitEntry) (n : ℕ)
    → InWindow x.first_attempt_time now
    → x.attempt_count ≡ n
    → answer now (some x) ≡ ltb n 5
answer-count now x n w e =
    let on : is_expired now x ≡ false = ground arith in
    branch {A = RateLimitEntry × Bool} (λ r. r.1 ≡ ltb n 5) (is_expired now x) _ _
      (λ off. absurd (ground arith))
      (λ _.
        branch {A = RateLimitEntry × Bool} (λ r. r.1 ≡ ltb n 5) (leb 5 x.attempt_count) _ _
          (λ h. ground arith) (λ h. ground arith))

-- An address of at most 15 characters that is not in the table, and whose first failed attempt begins
-- a window of 60 s, is let through in this window exactly while it has made fewer than five failed
-- attempts, if other addresses make none meanwhile.
pub attempts_iff :
    (ip : Bytes) (table : List RateLimitEntry) (first now : ℕ) (times : List ℕ)
    → length ip ≤ 15
    → find ip table ≡ none
    → All (InWindow first) times
    → InWindow first now
    → length times + 1 < 2 ^ 32
    → (auth_check_rate_limit now ip (record_all (first ∷ times) ip table)).1
      ≡ ltb (length (first ∷ times)) 5
attempts_iff ip table first now times short new ws w few =
    let e = first_entry first ip in
    let e' = count_all times e in
    let (c, f) = count_all-InWindow times e ws (omega arith) in
    let start : find ip (auth_record_failed_attempt first ip table) ≡ some e =
      find-record first ip table short
      ∙ ap (λ (o : Option RateLimitEntry). some (counted first ip o)) new in
    let open_window : elapsed now e'.first_attempt_time ≤ 60000 =
      let same = ap (λ (t : ℕ). elapsed now t) f in omega arith in
    let tries : e'.attempt_count ≡ length (first ∷ times) = omega arith in
    check-find now ip (record_all (first ∷ times) ip table)
    ∙ ap (answer now) (find-record_all times ip _ e short start)
    ∙ answer-count now e' (length (first ∷ times)) open_window tries
