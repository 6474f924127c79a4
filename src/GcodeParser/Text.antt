-- ===== src/GcodeParser/Text.antt =====
-- The texts of src/gcode_parser.cpp: lines as lists of byte codes without the final NUL, and the C
-- functions that the parser calls on them.
use bisso_e350_controller.Base.{
  ℕ, ◌+◌, ◌-◌, ◌*◌, ◌≤◌, Bool, ◌&&◌, ◌||◌, if◌then◌else◌, leb, ◌==◌, Option, none, some, List, [],
  ◌∷◌, length, arith,
}
use bisso_e350_controller.Base.Int.{ℤ, pos, sub_ℕ}

abbrev pub Bytes : Type 0
Bytes = List ℕ

-- `strchr`, with the text behind the character.
unfoldable pub strchr : ℕ → Bytes → Option Bytes
strchr c [] = none
strchr c (b ∷ s) = if b == c then some s else strchr c s

-- `toupper` in the C locale.
unfoldable pub toupper : ℕ → ℕ
toupper c = if leb b'a' c && leb c b'z' then c - 32 else c

abbrev pub is_blank : ℕ → Bool
is_blank c = c == b' ' || c == b'\t'

abbrev pub is_digit : ℕ → Bool
is_digit c = leb b'0' c && leb c b'9'

-- The white space of `isspace`.
abbrev pub is_space : ℕ → Bool
is_space c = c == b' ' || (leb 9 c && leb c 13)

unfoldable pub skip_blanks : Bytes → Bytes
skip_blanks [] = []
skip_blanks (c ∷ s) = if is_blank c then skip_blanks s else c ∷ s

unfoldable pub skip_spaces : Bytes → Bytes
skip_spaces [] = []
skip_spaces (c ∷ s) = if is_space c then skip_spaces s else c ∷ s

-- The number that the digits add to the one before them, and the text behind them.
unfoldable pub read_digits : ℕ → Bytes → ℕ × Bytes
read_digits n [] = (n, [])
read_digits n (c ∷ s) = if is_digit c then read_digits (n * 10 + (c - b'0')) s else (n, c ∷ s)

-- The digits, of which there must be one.
unfoldable pub unsigned : Bytes → Option (ℕ × Bytes)
unfolding read_digits
unsigned [] = none
unsigned (c ∷ s) = if is_digit c then some (read_digits 0 (c ∷ s)) else none

abbrev pub signed_by : (ℕ → ℤ) → Option (ℕ × Bytes) → Option (ℤ × Bytes)
signed_by sign none = none
signed_by sign (some (n, s)) = some (sign n, s)

unfoldable pub signed : Bytes → Option (ℤ × Bytes)
unfolding unsigned
signed [] = none
signed (c ∷ s) =
    if c == b'-'
    then signed_by (sub_ℕ 0) (unsigned s)
    else if c == b'+'
    then signed_by pos (unsigned s)
    else signed_by pos (unsigned (c ∷ s))

-- `strtol(_, _, 10)`; `none` when there is no number, where the end pointer is the start. The
-- clamp to the range of `long` is left out: what lies beyond it is refused anyway.
unfoldable pub strtol : Bytes → Option (ℤ × Bytes)
unfolding skip_spaces signed
strtol s = signed (skip_spaces s)

pub length-skip_blanks : (s : Bytes) → length (skip_blanks s) ≤ length s
unfolding skip_blanks
length-skip_blanks [] = omega arith
length-skip_blanks (c ∷ s) = ground (arith, length-skip_blanks s)
