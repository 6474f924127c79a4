-- ===== src/GcodeParser/Syntax.antt =====
-- `validateGCodeSyntax` of src/gcode_parser.cpp. Floating-point numbers are a parameter: `F` stands
-- for `float` and `D` for `double`, with the operations that the parser uses.
use bisso_e350_controller.Base.{
  ℕ, zero, suc, Bool, not, ◌&&◌, ◌||◌, if◌then◌else◌, ltb, leb, ◌==◌, Option, none, some, [], ◌∷◌,
  length,
}
use bisso_e350_controller.Base.Int.{ℤ, pos, negsuc}
use bisso_e350_controller.GcodeParser.Text.{Bytes, toupper, is_blank, skip_blanks, strtol}

-- `strtof` and `strtod` give the number and the text behind it, or `none` when the end pointer is
-- the start; `trunc` is the cast to an integer; `exceeds` is `>`; `apart a b` is
-- `fabs(a - b) > 0.01`.
pub record Numbers (F D : Type 0) : Type 0 where
  pub strtof : Bytes → Option (F × Bytes)
  pub is_finite : F → Bool
  pub strtod : Bytes → Option (D × Bytes)
  pub is_nan_or_inf : D → Bool
  pub to_float : D → F
  pub of_int : ℕ → F
  pub trunc : F → ℤ
  pub add : F → F → F
  pub sub : F → F → F
  pub times_1000 : F → F
  pub exceeds : F → F → Bool
  pub equal : F → F → Bool
  pub apart : F → F → Bool

-- The messages of the function.
pub data SyntaxError : Type 0 where
  empty_command : SyntaxError
  too_long : SyntaxError
  invalid_letter : SyntaxError
  missing_number : ℕ → SyntaxError
  invalid_number : ℕ → SyntaxError
  unsupported_code : ℕ → SyntaxError
  invalid_parameter : ℕ → SyntaxError
  missing_value : ℕ → SyntaxError
  invalid_value : ℕ → SyntaxError

abbrev pub is_comment : ℕ → Bool
is_comment c = c == b'(' || c == b';' || is_blank c

abbrev pub is_command_letter : ℕ → Bool
is_command_letter c = c == b'G' || c == b'g' || c == b'M' || c == b'm'

unfoldable pub is_supported_g : ℕ → Bool
is_supported_g n =
    n == 0
    || n == 1
    || n == 4
    || n == 10
    || n == 28
    || n == 30
    || n == 53
    || (leb 54 n && leb n 59)
    || n == 90
    || n == 91
    || n == 92

unfoldable pub is_supported_m : ℕ → Bool
is_supported_m n =
    n == 0
    || n == 1
    || n == 2
    || n == 3
    || n == 5
    || n == 8
    || n == 9
    || n == 10
    || n == 11
    || n == 112
    || n == 114
    || n == 115
    || n == 117
    || n == 154
    || n == 226
    || n == 255
    || n == 999

-- `c` is in upper case.
unfoldable pub is_parameter : ℕ → Bool
is_parameter c =
    c == b'X'
    || c == b'Y'
    || c == b'Z'
    || c == b'A'
    || c == b'F'
    || c == b'S'
    || c == b'P'
    || c == b'L'
    || c == b'R'
    || c == b'I'
    || c == b'J'
    || c == b'K'

module _ {F D : Type 0} (num : Numbers F D) where
  -- The value of a parameter, and what comes of the text behind it.
  abbrev pub check_value :
      (Bytes → Option SyntaxError) → ℕ → Option (F × Bytes) → Option SyntaxError
  check_value next c none = some (missing_value c)
  check_value next c (some (value, behind)) =
      if num.is_finite value then next behind else some (invalid_value c)

  abbrev pub check_word : (Bytes → Option SyntaxError) → Bytes → Option SyntaxError
  check_word next [] = none
  check_word next (c ∷ rest) =
      if is_parameter (toupper c)
      then check_value next (toupper c) (num.strtof rest)
      else some (invalid_parameter (toupper c))

  -- The loop over the parameters; a text has at most as many as it has bytes, the fuel.
  unfoldable pub check_words : ℕ → Bytes → Option SyntaxError
  unfolding skip_blanks is_parameter toupper
  check_words zero s = none
  check_words (suc fuel) s = check_word (check_words fuel) (skip_blanks s)

  -- The command's number is checked for its letter, in upper case.
  unfoldable pub check_number : ℕ → ℤ → Bytes → Option SyntaxError
  unfolding check_words is_supported_g is_supported_m
  check_number letter (negsuc n) rest = some (invalid_number letter)
  check_number letter (pos n) rest =
      if letter == b'G'
      then (if ltb 99 n
          then some (invalid_number letter)
          else if not (is_supported_g n)
          then some (unsupported_code letter)
          else check_words (length rest) rest)
      else if ltb 999 n
      then some (invalid_number letter)
      else if n == 117
      then none
      else if not (is_supported_m n)
      then some (unsupported_code letter)
      else check_words (length rest) rest

  abbrev pub check_numbered : ℕ → Option (ℤ × Bytes) → Option SyntaxError
  check_numbered letter none = some (missing_number letter)
  check_numbered letter (some (n, rest)) = check_number letter n rest

  -- `none` stands for the answer true.
  unfoldable pub validate_gcode_syntax : Bytes → Option SyntaxError
  unfolding check_number toupper strtol
  validate_gcode_syntax [] = some empty_command
  validate_gcode_syntax (c ∷ s) =
      if ltb 128 (length (c ∷ s))
      then some too_long
      else if is_comment c
      then none
      else if not (is_command_letter c)
      then some invalid_letter
      else check_numbered (toupper c) (strtol s)
