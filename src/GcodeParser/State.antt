-- ===== src/GcodeParser/State.antt =====
-- The class `GCodeParser` of src/gcode_parser.cpp: its fields, the codes of a line, and what it asks
-- of the rest of the program.
use bisso_e350_controller.Base.{
  ℕ, Bool, true, false, ◌&&◌, if◌then◌else◌, ltb, leb, map, Option, none, some, List, [], ◌∷◌,
  get_or, set,
}
use bisso_e350_controller.MotionBuffer.Ring.{Lock}
use bisso_e350_controller.GcodeParser.Text.{Bytes, strchr}
use bisso_e350_controller.GcodeParser.Syntax.{Numbers}

-- `gcode_distance_mode_t`
pub data DistanceMode : Type 0 where
  absolute relative : DistanceMode

abbrev pub is_absolute : DistanceMode → Bool
is_absolute absolute = true
is_absolute relative = false

-- The six rows of `wcs_offsets` have an offset for each of four axes. `in_bounds` is not in the
-- source, and nothing reads it: it is true as long as every write of an offset was inside the array,
-- for a write outside is undefined there.
pub record GcodeParser (F : Type 0) : Type 0 where
  pub distance_mode : DistanceMode
  pub current_feed_rate : F
  pub current_wcs : ℕ
  pub machine_coordinates_mode : Bool
  pub wcs_offsets : List (List F)
  pub in_bounds : Bool
  pub program_paused : Bool
  pub pause_start_time : ℕ

-- What a command meets: the clock, and the attempts of the motion buffer to take its mutex.
pub record Moment : Type 0 where
  pub now : ℕ
  pub full_lock : Lock
  pub push_lock : Lock

-- The configuration and the positions, which a command reads. `preset` holds the positions of G30,
-- with number 0 for the safe one.
pub record Readings (F : Type 0) : Type 0 where
  pub position_mm : ℕ → F
  pub buffer_enabled : Bool
  pub home_enabled : Bool
  pub opt_stop_skip : Bool
  pub preset : ℕ → ℕ → F

-- The outputs that M3 to M11 switch.
pub data Relay : Type 0 where
  spindle_speed_1 coolant vacuum : Relay

-- The calls of other components, on a machine `M`.
pub record Surroundings (F M : Type 0) : Type 0 where
  pub readings : M → Readings F
  pub set_current_command : Bytes → M → M
  pub motion_move_absolute : F → F → F → F → F → M → M × Bool
  pub motion_home : ℕ → M → M × Bool
  pub motion_dwell : ℕ → M → M × Bool
  pub motion_wait_pin : ℕ → ℕ → ℕ → ℕ → M → M × Bool
  pub motion_stop : M → M
  pub motion_pause : M → M × Bool
  pub motion_emergency_stop : M → M
  pub set_relay : Relay → Bool → M → M
  pub lcd_message_set : Bytes → ℕ → M → M
  pub report_position : M → M
  pub report_firmware : M → M
  pub auto_report_set_interval : ℕ → M → M × Bool
  pub lcd_sleep_set_timeout : ℕ → M → M × Bool
  pub save_wcs : ℕ → List F → M → M

module _ {F D : Type 0} (num : Numbers F D) where
  abbrev pub checked : Option (D × Bytes) → Option F
  checked none = none
  checked (some (d, rest)) = if num.is_nan_or_inf d then none else some (num.to_float d)

  abbrev pub number_at : Option Bytes → Option F
  number_at none = none
  number_at (some rest) = checked (num.strtod rest)

  -- `parseCode`, which gives a value or answers false.
  unfoldable pub parse_code : Bytes → ℕ → Option F
  unfolding strchr
  parse_code line code = number_at (strchr code line)

  -- An offset of `wcs_offsets`, at the places in which it is read.
  abbrev pub offset : ℕ → ℕ → GcodeParser F → F
  offset system axis g = get_or (get_or g.wcs_offsets system []) axis (num.of_int 0)

abbrev pub is_given {ℓ} : {A : Type ℓ} → Option A → Bool
is_given none = false
is_given (some a) = true

-- `hasCode`
unfoldable pub has_code : Bytes → ℕ → Bool
unfolding strchr
has_code line code = is_given (strchr code line)

module _ {F : Type 0} where
  abbrev pub set_offset : ℕ → ℕ → F → GcodeParser F → GcodeParser F
  set_offset system axis v g = record g {
    wcs_offsets = set g.wcs_offsets system (set (get_or g.wcs_offsets system []) axis v);
    in_bounds = g.in_bounds && (ltb system 6 && ltb axis 4);
  }

-- `axis_chars`, with the axes that they name.
abbrev pub axis_letters : List (ℕ × ℕ)
axis_letters = (0, b'X') ∷ (1, b'Y') ∷ (2, b'Z') ∷ (3, b'A') ∷ []

module _ {F D : Type 0} (num : Numbers F D) where
  -- `init`, with the offsets that `loadWCS` reads from the configuration.
  unfoldable pub init : (ℕ → ℕ → F) → GcodeParser F → GcodeParser F
  init stored g = record g {
    distance_mode = absolute;
    current_feed_rate = num.of_int 50;
    current_wcs = 0;
    wcs_offsets =
        map (λ s. map (λ a. stored s a) (0 ∷ 1 ∷ 2 ∷ 3 ∷ [])) (0 ∷ 1 ∷ 2 ∷ 3 ∷ 4 ∷ 5 ∷ []);
  }

  -- `getWorkPosition`
  unfoldable pub get_work_position : ℕ → F → GcodeParser F → F
  get_work_position axis mpos g =
      if leb 4 axis then num.of_int 0 else num.sub mpos (offset num g.current_wcs axis g)
