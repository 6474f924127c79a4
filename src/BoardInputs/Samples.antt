-- ===== src/BoardInputs/Samples.antt =====
-- The calls of src/board_inputs.cpp over time, and the samples of each input that they take.
use bisso_e350_controller.Base.{
  branch, branches, Bool-cases, inl, inr, ap, zero, u32, ℕ, suc, ◌+◌, ◌<◌, ◌≤◌, sym, ◌≡◌, refl, ◌∙◌,
  Bool, true, false, not, if◌then◌else◌, ltb, List, [], ◌∷◌, arith, length, get_or, All, replicate,
}
use mathlib.Core.Path.{subst}
use bisso_e350_controller.BoardInputs.Polling.{
  InputLine, BoardInputs, ButtonState, Read, mutex_busy, failed, got, debounce, debounce_all,
  no_line, debounced_bit, process_read, board_inputs_update,
}
use bisso_e350_controller.BoardInputs.Debounce.{held, settled, Follows, debounce-Follows}

abbrev pub bit : ℕ → List Bool → Bool
bit i byte = get_or byte i false

get_or-debounce_all :
    (i : ℕ) (byte : List Bool) (lines : List InputLine)
    → i < length byte
    → length byte ≡ length lines
    → get_or (debounce_all byte lines) i no_line ≡ debounce (bit i byte) (get_or lines i no_line)
unfolding debounce_all
get_or-debounce_all i [] lines h l = absurd (omega arith)
get_or-debounce_all i (b ∷ byte) [] h l = absurd (omega arith)
get_or-debounce_all zero (b ∷ byte) (x ∷ lines) h l = refl
get_or-debounce_all (suc i) (b ∷ byte) (x ∷ lines) h l =
    get_or-debounce_all i byte lines (omega arith) (omega arith)

length-debounce_all :
    (byte : List Bool) (lines : List InputLine) → length (debounce_all byte lines) ≡ length lines
unfolding debounce_all
length-debounce_all [] lines = refl
length-debounce_all (b ∷ byte) [] = refl
length-debounce_all (b ∷ byte) (x ∷ lines) = ap suc (length-debounce_all byte lines)

-- Calls of the update, each with the clock and the read, and the last answer.
unfoldable pub poll_all : List (ℕ × Read) → BoardInputs → BoardInputs
unfolding board_inputs_update
poll_all [] b = b
poll_all ((now, read) ∷ polls) b = poll_all polls (board_inputs_update now read b).0

-- Until when the board is left alone behind a call, and the samples of an input behind it, the
-- latest first: a call takes one when it reads a byte and the board is not left alone.
abbrev pub next_invalid : ℕ → ℕ × Read → ℕ
next_invalid until (now, failed at) = if ltb now until then until else u32 (at + 500)
next_invalid until _ = until

abbrev pub next_samples : ℕ → ℕ → ℕ × Read → List Bool → List Bool
next_samples i until (now, got byte) samples =
    if ltb now until then samples else bit i byte ∷ samples
next_samples i until _ samples = samples

unfoldable pub samples_of : ℕ → ℕ → List (ℕ × Read) → List Bool → List Bool
samples_of i until [] samples = samples
samples_of i until (p ∷ polls) samples =
    samples_of i (next_invalid until p) polls (next_samples i until p samples)

-- A read gives eight bits.
abbrev pub IsByte : ℕ × Read → Type 0
IsByte (now, got byte) = length byte ≡ 8
IsByte _ = Unit

-- A board that was found, with its buttons enabled and its eight inputs, of which number `i` has
-- seen the samples.
record HasSeen (i : ℕ) (samples : List Bool) (b : BoardInputs) : Type 0 where
  present : b.device_present ≡ true
  enabled : b.buttons_enabled ≡ true
  size : length b.lines ≡ 8
  seen : Follows samples (get_or b.lines i no_line)

got-HasSeen :
    (i : ℕ) (samples byte : List Bool) (b : BoardInputs)
    → i < 8
    → length byte ≡ 8
    → HasSeen i samples b
    → HasSeen i (bit i byte ∷ samples) (process_read (got byte) b).0
unfolding process_read
got-HasSeen i samples byte b lt size h =
    let l = get_or b.lines i no_line in
    let f = debounce-Follows (bit i byte) l.last_raw l.debounced l.stability_count samples h.seen in
    branch {A = BoardInputs × ButtonState} (λ r. HasSeen i (bit i byte ∷ samples) r.0)
      (not b.buttons_enabled) _ _ (λ e. absurd (ground arith))
      (λ _. record {
        present = h.present;
        enabled = h.enabled;
        size = length-debounce_all byte b.lines ∙ h.size;
        seen = rw (get_or-debounce_all i byte b.lines (omega arith) (omega arith)) f;
      })

update-present :
    (now : ℕ) (read : Read) (b : BoardInputs)
    → b.device_present ≡ true
    → (board_inputs_update now read b).0
      ≡ (if ltb now b.invalid_until then b else (process_read read b).0)
unfolding board_inputs_update
update-present now read b h = ground arith

-- The places of the three buttons.
masks : BoardInputs → ℕ × ℕ × ℕ
masks b = (b.mask_estop, b.mask_pause, b.mask_resume)

got-kept :
    (byte : List Bool) (b : BoardInputs)
    → ((process_read (got byte) b).0.invalid_until ≡ b.invalid_until)
      × (masks (process_read (got byte) b).0 ≡ masks b)
unfolding process_read masks
got-kept byte b =
    branches {A = BoardInputs × ButtonState}
      (λ r. (r.0.invalid_until ≡ b.invalid_until) × (masks r.0 ≡ masks b)) (not b.buttons_enabled) _
      _ (refl, refl) (refl, refl)

-- What a call does, in what it leaves and in the samples that it takes.
Sees : ℕ → List Bool → ℕ × Read → BoardInputs → BoardInputs → Type 0
Sees i samples p b b' =
    HasSeen i (next_samples i b.invalid_until p samples) b'
    × (b'.invalid_until ≡ next_invalid b.invalid_until p)
    × (masks b' ≡ masks b)

read-Sees :
    (i : ℕ) (samples : List Bool) (now : ℕ) (read : Read) (b : BoardInputs)
    → i < 8
    → IsByte (now, read)
    → HasSeen i samples b
    → Sees i samples (now, read) b (if ltb now b.invalid_until then b else (process_read read b).0)
unfolding Sees process_read masks
read-Sees i samples now mutex_busy b lt s h =
    branches (Sees i samples (now, mutex_busy) b) (ltb now b.invalid_until) _ _ (h, refl, refl)
      (h, refl, refl)
read-Sees i samples now (failed at) b lt s h = elim (Bool-cases (ltb now b.invalid_until)) [
  | inl e ↦ rw (e, ltb) (h, refl, refl)
  | inr e ↦
      rw (e, ltb)
        (
          record { present = h.present; enabled = h.enabled; size = h.size; seen = h.seen },
          refl,
          refl,
        )
]
read-Sees i samples now (got byte) b lt s h = elim (Bool-cases (ltb now b.invalid_until)) [
  | inl e ↦ rw e (h, refl, refl)
  | inr e ↦
      let (until, same) = got-kept byte b in rw e (got-HasSeen i samples byte b lt s h, until, same)
]

update-Sees :
    (i : ℕ) (samples : List Bool) (p : ℕ × Read) (b : BoardInputs)
    → i < 8
    → IsByte p
    → HasSeen i samples b
    → Sees i samples p b (board_inputs_update p.0 p.1 b).0
update-Sees i samples (now, read) b lt s h =
    rw (update-present now read b h.present) (read-Sees i samples now read b lt s h)

poll_all-HasSeen :
    (i : ℕ) (polls : List (ℕ × Read)) (samples : List Bool) (b : BoardInputs)
    → i < 8
    → All IsByte polls
    → HasSeen i samples b
    → HasSeen i (samples_of i b.invalid_until polls samples) (poll_all polls b)
      × (masks (poll_all polls b) ≡ masks b)
unfolding poll_all samples_of Sees
poll_all-HasSeen i [] samples b lt s h = (h, refl)
poll_all-HasSeen i ((now, read) ∷ polls) samples b lt (p, s) h =
    let (seen, until, same) = update-Sees i samples (now, read) b lt p h in
    let b' = (board_inputs_update now read b).0 in
    let (seen', same') =
      poll_all-HasSeen i polls (next_samples i b.invalid_until (now, read) samples) b' lt s seen in
    (rw (← until) seen', same' ∙ same)

-- A board that was found, with its buttons enabled, before the first call.
pub record IsReady (b : BoardInputs) : Type 0 where
  pub present : b.device_present ≡ true
  pub enabled : b.buttons_enabled ≡ true
  pub lines : b.lines ≡ replicate 8 no_line

get_or-replicate : (n i : ℕ) → get_or (replicate n no_line) i no_line ≡ no_line
get_or-replicate zero i = refl
get_or-replicate (suc n) zero = refl
get_or-replicate (suc n) (suc i) = get_or-replicate n i

no_line-Follows : Follows [] no_line
unfolding settled held
no_line-Follows = (refl, refl, λ _. refl, λ n. absurd (n refl), omega arith)

ready-HasSeen : (i : ℕ) (b : BoardInputs) → IsReady b → HasSeen i [] b
ready-HasSeen i b r = record {
  present = r.present;
  enabled = r.enabled;
  size = ap length r.lines;
  seen =
      subst (Follows []) (sym (ap (λ ls. get_or ls i no_line) r.lines ∙ get_or-replicate 8 i))
        no_line-Follows;
}

answer-settled :
    (i : ℕ) (samples byte : List Bool) (b : BoardInputs)
    → i < 8
    → length byte ≡ 8
    → HasSeen i samples b
    → debounced_bit i (debounce_all byte b.lines) ≡ settled (bit i byte ∷ samples)
answer-settled i samples byte b lt s h =
    let l = get_or b.lines i no_line in
    let f = debounce-Follows (bit i byte) l.last_raw l.debounced l.stability_count samples h.seen in
    ap (λ (x : InputLine). x.debounced)
      (get_or-debounce_all i byte b.lines (omega arith) (omega arith))
    ∙ f.1

-- The answer with the buttons at three places.
abbrev answer : List InputLine → ℕ × ℕ × ℕ → ButtonState
answer lines (e, p, r) = record {
  estop_active = debounced_bit e lines;
  pause_pressed = not (debounced_bit p lines);
  resume_pressed = not (debounced_bit r lines);
  connection_ok = true;
}

update-answer :
    (now : ℕ) (byte : List Bool) (b : BoardInputs)
    → b.device_present ≡ true
    → b.buttons_enabled ≡ true
    → b.invalid_until ≤ now
    → (board_inputs_update now (got byte) b).1 ≡ answer (debounce_all byte b.lines) (masks b)
unfolding board_inputs_update process_read masks
update-answer now byte b p e t = ground arith

-- After any calls on a board that was found with its buttons enabled, the next call that reads a
-- byte in time answers, for the three buttons, with what their inputs were when they last had the
-- same value in 16 samples in a row (low before the first such run): the emergency stop is active
-- when that is high, the other two are pressed when it is low. Failed calls take no sample.
pub buttons_settled :
    (polls : List (ℕ × Read)) (now : ℕ) (byte : List Bool) (b : BoardInputs)
    → IsReady b
    → All IsByte polls
    → length byte ≡ 8
    → b.mask_estop < 8
    → b.mask_pause < 8
    → b.mask_resume < 8
    → (poll_all polls b).invalid_until ≤ now
    → let samples : ℕ → List Bool = λ i. bit i byte ∷ samples_of i b.invalid_until polls [] in
      (board_inputs_update now (got byte) (poll_all polls b)).1 ≡ record {
        estop_active = settled (samples b.mask_estop);
        pause_pressed = not (settled (samples b.mask_pause));
        resume_pressed = not (settled (samples b.mask_resume));
        connection_ok = true;
      }
unfolding masks
buttons_settled polls now byte b r ps s e p u t =
    let b' = poll_all polls b in
    let (h, m) = poll_all-HasSeen b.mask_estop polls [] b e ps (ready-HasSeen b.mask_estop b r) in
    let (h₁, m₁) = poll_all-HasSeen b.mask_pause polls [] b p ps (ready-HasSeen b.mask_pause b r) in
    let (h₂, m₂) =
      poll_all-HasSeen b.mask_resume polls [] b u ps (ready-HasSeen b.mask_resume b r) in
    let a = answer-settled b.mask_estop _ byte b' e s h in
    let a₁ = answer-settled b.mask_pause _ byte b' p s h₁ in
    let a₂ = answer-settled b.mask_resume _ byte b' u s h₂ in
    update-answer now byte b' h.present h.enabled t
    ∙ ap (answer (debounce_all byte b'.lines)) m
    ∙ rw (a, a₁, a₂) refl
