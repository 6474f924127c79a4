-- ===== src/Auth/Attempts.antt =====
-- The limit on failed attempts to log in, src/auth_manager.cpp. The table is the list of the entries
-- that are in use.
use bisso_e350_controller.Base.{
  ℕ, suc, ◌+◌, Bool, true, false, if◌then◌else◌, ltb, leb, u32, elapsed, Option, none, some, List,
  [], ◌∷◌, ◌++◌, length, take, set,
}
use bisso_e350_controller.GcodeParser.Text.{Bytes}
use bisso_e350_controller.Auth.Passwords.{same_text}

abbrev pub auth_rate_limit_max_ips : ℕ
auth_rate_limit_max_ips = 16

abbrev pub auth_rate_limit_max_attempts : ℕ
auth_rate_limit_max_attempts = 5

abbrev pub auth_rate_limit_window_ms : ℕ
auth_rate_limit_window_ms = 60000

-- `AuthRateLimitEntry`
pub record RateLimitEntry : Type 0 where
  pub ip_address : Bytes
  pub attempt_count : ℕ
  pub first_attempt_time : ℕ
  pub last_attempt_time : ℕ

abbrev pub is_expired : ℕ → RateLimitEntry → Bool
is_expired now e = ltb auth_rate_limit_window_ms (elapsed now e.first_attempt_time)

abbrev pub check_entry : ℕ → RateLimitEntry → RateLimitEntry × Bool
check_entry now e =
    if is_expired now e
    then (record e { attempt_count = 0; first_attempt_time = now }, true)
    else if leb auth_rate_limit_max_attempts e.attempt_count
    then (e, false)
    else (e, true)

unfoldable pub auth_check_rate_limit : ℕ → Bytes → List RateLimitEntry → List RateLimitEntry × Bool
unfolding same_text
auth_check_rate_limit now ip [] = ([], true)
auth_check_rate_limit now ip (e ∷ table) =
    let (e', allowed) = check_entry now e in
    let (rest, answer) = auth_check_rate_limit now ip table in
    if same_text e.ip_address ip then (e' ∷ table, allowed) else (e ∷ rest, answer)

abbrev pub count_attempt : ℕ → RateLimitEntry → RateLimitEntry
count_attempt now e =
    if is_expired now e
    then record e { attempt_count = 1; first_attempt_time = now; last_attempt_time = now }
    else record e { attempt_count = u32 (e.attempt_count + 1); last_attempt_time = now }

-- The address is cut to 15 characters.
abbrev pub first_entry : ℕ → Bytes → RateLimitEntry
first_entry now ip = record {
  ip_address = take 15 ip;
  attempt_count = 1;
  first_attempt_time = now;
  last_attempt_time = now;
}

abbrev pub behind : RateLimitEntry → Option (List RateLimitEntry) → Option (List RateLimitEntry)
behind e none = none
behind e (some table) = some (e ∷ table)

-- The table with the attempt, if the address is there.
unfoldable pub count_known : ℕ → Bytes → List RateLimitEntry → Option (List RateLimitEntry)
unfolding same_text
count_known now ip [] = none
count_known now ip (e ∷ table) =
    let rest = count_known now ip table in
    if same_text e.ip_address ip then some (count_attempt now e ∷ table) else behind e rest

-- The loop over the entries from the second one, with the oldest one and its time so far.
unfoldable pub oldest_from : ℕ → ℕ → ℕ → List RateLimitEntry → ℕ
oldest_from i oldest_idx oldest_time [] = oldest_idx
oldest_from i oldest_idx oldest_time (e ∷ table) =
    let older = oldest_from (suc i) i e.last_attempt_time table in
    let same = oldest_from (suc i) oldest_idx oldest_time table in
    if ltb e.last_attempt_time oldest_time then older else same

abbrev pub oldest : List RateLimitEntry → ℕ
oldest [] = 0
oldest (e ∷ table) = oldest_from 1 0 e.last_attempt_time table

abbrev pub add_entry : ℕ → Bytes → List RateLimitEntry → List RateLimitEntry
add_entry now ip table =
    if ltb (length table) auth_rate_limit_max_ips
    then table ++ (first_entry now ip ∷ [])
    else set table (oldest table) (first_entry now ip)

abbrev pub with_known :
    ℕ → Bytes → List RateLimitEntry → Option (List RateLimitEntry) → List RateLimitEntry
with_known now ip table none = add_entry now ip table
with_known now ip table (some table') = table'

unfoldable pub auth_record_failed_attempt : ℕ → Bytes → List RateLimitEntry → List RateLimitEntry
unfolding count_known oldest_from
auth_record_failed_attempt now ip table = with_known now ip table (count_known now ip table)

unfoldable pub auth_clear_rate_limit : Bytes → List RateLimitEntry → List RateLimitEntry
unfolding same_text
auth_clear_rate_limit ip [] = []
auth_clear_rate_limit ip (e ∷ table) =
    let rest = auth_clear_rate_limit ip table in
    if same_text e.ip_address ip then table else e ∷ rest
