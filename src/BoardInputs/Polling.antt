-- ===== src/BoardInputs/Polling.antt =====
-- The polling of src/board_inputs.cpp. A byte of inputs is the list of its bits, the lowest first,
-- and a mask with one bit set is the place of this bit.
use bisso_e350_controller.Base.{
  ℕ, ◌+◌, ◌-◌, Bool, true, false, not, if◌then◌else◌, ltb, leb, u8, u32, List, ◌∷◌, get_or,
}

abbrev pub debounce_stability_required : ℕ
debounce_stability_required = 15

-- A bit of `last_raw_input` and `debounced_input_cache`, and its item of `input_stability_count`.
pub record InputLine : Type 0 where
  pub last_raw : Bool
  pub debounced : Bool
  pub stability_count : ℕ

-- The static variables; `lines` holds those of the eight inputs.
pub record BoardInputs : Type 0 where
  pub input_cache : List Bool
  pub device_present : Bool
  pub buttons_enabled : Bool
  pub lines : List InputLine
  pub mask_estop : ℕ
  pub mask_pause : ℕ
  pub mask_resume : ℕ
  pub invalid_until : ℕ

-- `button_state_t`
pub record ButtonState : Type 0 where
  pub estop_active : Bool
  pub pause_pressed : Bool
  pub resume_pressed : Bool
  pub connection_ok : Bool

-- What the read of the board meets: a busy mutex, a failure at a time, or a byte.
pub data Read : Type 0 where
  mutex_busy : Read
  failed : ℕ → Read
  got : List Bool → Read

abbrev pub differs : Bool → Bool → Bool
differs true b = not b
differs false b = b

-- A round of the loop over the bits, and the bit of `last_raw_input` behind it.
unfoldable pub debounce : Bool → InputLine → InputLine
debounce raw l =
    let count = u8 (l.stability_count + 1) in
    if differs raw l.debounced
    then (if differs raw l.last_raw
        then record l { last_raw = raw; stability_count = 0 }
        else if leb debounce_stability_required count
        then record l { last_raw = raw; debounced = raw; stability_count = 0 }
        else record l { last_raw = raw; stability_count = count })
    else record l { last_raw = raw; stability_count = 0 }

unfoldable pub debounce_all : List Bool → List InputLine → List InputLine
unfolding debounce
debounce_all (raw ∷ byte) (l ∷ lines) = debounce raw l ∷ debounce_all byte lines
debounce_all _ lines = lines

abbrev pub no_line : InputLine
no_line = record { last_raw = false; debounced = false; stability_count = 0 }

-- A bit of `debounced_input_cache`.
abbrev pub debounced_bit : ℕ → List InputLine → Bool
debounced_bit mask lines = (get_or lines mask no_line).debounced

abbrev pub no_buttons : Bool → ButtonState
no_buttons connected = record {
  estop_active = false;
  pause_pressed = false;
  resume_pressed = false;
  connection_ok = connected;
}

-- What `boardInputsUpdate` does with the read.
unfoldable pub process_read : Read → BoardInputs → BoardInputs × ButtonState
unfolding debounce_all
process_read mutex_busy b = (b, no_buttons false)
process_read (failed now) b = (record b { invalid_until = u32 (now + 500) }, no_buttons false)
process_read (got byte) b =
    let cached = record b { input_cache = byte } in
    let lines = debounce_all byte b.lines in
    if not b.buttons_enabled then (cached, no_buttons true) else (
      record cached { lines = lines },
      record {
        estop_active = debounced_bit b.mask_estop lines;
        pause_pressed = not (debounced_bit b.mask_pause lines);
        resume_pressed = not (debounced_bit b.mask_resume lines);
        connection_ok = true;
      },
    )

unfoldable pub board_inputs_update : ℕ → Read → BoardInputs → BoardInputs × ButtonState
unfolding process_read
board_inputs_update now read b =
    if not b.device_present
    then (b, no_buttons false)
    else if ltb now b.invalid_until
    then (b, no_buttons false)
    else process_read read b

-- The mask for a pin: pins 100 to 107 are the eight inputs.
abbrev pub mask_of : ℕ → ℕ → ℕ
mask_of pin fallback =
    if leb 100 pin then (if leb pin 107 then pin - 100 else fallback) else fallback

-- `boardInputsInit`, with the configuration, the pins and the outcome of the first read, which is
-- made with the mutex or without it. The other static variables keep the values they start with.
unfoldable pub board_inputs_init : Bool → ℕ → ℕ → ℕ → Read → BoardInputs → BoardInputs
board_inputs_init enabled pin_estop pin_pause pin_resume read b =
    let mapped = record b {
      buttons_enabled = enabled;
      mask_estop = mask_of pin_estop 3;
      mask_pause = mask_of pin_pause 4;
      mask_resume = mask_of pin_resume 5;
    } in
    elim read [
      | got byte ↦ record mapped { input_cache = byte; device_present = true }
      | _ ↦ record mapped { device_present = false }
    ]
