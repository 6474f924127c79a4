-- ===== src/GcodeParser/Validation.antt =====
-- `GCodeParser::validateGCodeSyntax` of src/gcode_parser.cpp against the grammar.
use bisso_e350_controller.Base.{
  ℕ, ◌≤◌, ◌≡◌, refl, ◌↔◌, ◌⊎◌, inl, inr, true, false, ltb, Bool-cases, Option, none, some, [], ◌∷◌,
  length, arith,
}
use bisso_e350_controller.Base.Int.{ℤ, pos, negsuc}
use bisso_e350_controller.GcodeParser.Text.{Bytes, toupper, strtol}
use bisso_e350_controller.GcodeParser.Syntax.{
  Numbers, is_comment, is_command_letter, is_supported_g, is_supported_m, check_words,
  check_numbered, check_number, validate_gcode_syntax,
}
use bisso_e350_controller.GcodeParser.Grammar.{
  letter_cases, letter_back, g_range, m_range, GoesOn, IsValid, IsCommand, g_command, m_command,
  message, comment, check_words_sound, check_words_complete,
}

module _ {F D : Type 0} (num : Numbers F D) where
  g_number :
      (n : ℕ) (rest : Bytes)
      → check_number num b'G' (pos n) rest ≡ none
      → (is_supported_g n ≡ true) × (check_words num (length rest) rest ≡ none)
  unfolding check_number
  g_number n rest h = ground arith

  m_number :
      (n : ℕ) (rest : Bytes)
      → check_number num b'M' (pos n) rest ≡ none
      → (n ≡ 117) ⊎ ((is_supported_m n ≡ true) × (check_words num (length rest) rest ≡ none))
  unfolding check_number
  m_number n rest h = ground arith

  g_accepted :
      (n : ℕ) (rest : Bytes)
      → is_supported_g n ≡ true
      → check_words num (length rest) rest ≡ none
      → check_number num b'G' (pos n) rest ≡ none
  unfolding check_number
  g_accepted n rest h k = let l = g_range n h in ground arith

  m_accepted :
      (n : ℕ) (rest : Bytes)
      → is_supported_m n ≡ true
      → check_words num (length rest) rest ≡ none
      → check_number num b'M' (pos n) rest ≡ none
  unfolding check_number
  m_accepted n rest h k = let l = m_range n h in ground arith

  number_sound :
      (c : ℕ) (s : Bytes) (found : Option (ℤ × Bytes))
      → GoesOn num
      → is_command_letter c ≡ true
      → strtol s ≡ found
      → check_numbered num (toupper c) found ≡ none
      → IsCommand num (c ∷ s)
  unfolding check_number
  number_sound c s none g l e h = cc
  number_sound c s (some (negsuc n, rest)) g l e h = cc
  number_sound c s (some (pos n, rest)) g l e h = elim (letter_cases c l) [
    | inl u ↦
        let (k, w) = g_number n rest (rw u at h) in
        g_command u e k (check_words_sound num (length rest) rest g (omega arith) w)
    | inr u ↦ elim (m_number n rest (rw u at h)) [
      | inl m ↦ message u (rw m at e)
      | inr (k, w) ↦ m_command u e k (check_words_sound num (length rest) rest g (omega arith) w)
    ]
  ]

  number_complete :
      (c : ℕ) (s : Bytes)
      → GoesOn num
      → is_comment c ≡ false
      → IsCommand num (c ∷ s)
      → check_numbered num (toupper c) (strtol s) ≡ none
  unfolding check_number
  number_complete c s g n (comment e) = absurd (ground arith)
  number_complete c s g n (g_command {n = k} {rest} u e k_ok w) =
      rw (u, e)
        (g_accepted k rest k_ok (check_words_complete num (length rest) rest g (omega arith) w))
  number_complete c s g n (m_command {n = k} {rest} u e k_ok w) =
      rw (u, e)
        (m_accepted k rest k_ok (check_words_complete num (length rest) rest g (omega arith) w))
  number_complete c s g n (message u e) = rw (u, e) refl

  command_letter :
      (c : ℕ) (s : Bytes)
      → is_comment c ≡ false
      → IsCommand num (c ∷ s)
      → is_command_letter c ≡ true
  command_letter c s n (comment e) = absurd (ground arith)
  command_letter c s n (g_command u e k w) = letter_back c (inl u)
  command_letter c s n (m_command u e k w) = letter_back c (inr u)
  command_letter c s n (message u e) = letter_back c (inr u)

  line_cases :
      (c : ℕ) (s : Bytes)
      → validate_gcode_syntax num (c ∷ s) ≡ none
      → (length (c ∷ s) ≤ 128)
        × ((is_comment c ≡ true)
            ⊎ ((is_command_letter c ≡ true) × (check_numbered num (toupper c) (strtol s) ≡ none)))
  unfolding validate_gcode_syntax
  line_cases c s h = ground arith

  line_sound :
      (c : ℕ) (s : Bytes)
      → GoesOn num
      → validate_gcode_syntax num (c ∷ s) ≡ none
      → IsValid num (c ∷ s)
  line_sound c s g h =
      let (l, cases) = line_cases c s h in
      elim cases [
        | inl e ↦ (omega arith, l, comment e)
        | inr (e, k) ↦ (omega arith, l, number_sound c s (strtol s) g e refl k)
      ]

  line_complete :
      (c : ℕ) (s : Bytes)
      → GoesOn num
      → IsValid num (c ∷ s)
      → validate_gcode_syntax num (c ∷ s) ≡ none
  unfolding validate_gcode_syntax
  line_complete c s g (p, l, w) =
      let short : ltb 128 (length (c ∷ s)) ≡ false = ground arith in
      elim (Bool-cases (is_comment c)) [
        | inl e ↦ rw (short, e) refl
        | inr e ↦ rw (short, e, command_letter c s e w) (number_complete c s g e w)
      ]

  -- A line passes the check of the syntax exactly when it has 1 to 128 bytes and is a comment, a
  -- supported command with a row of parameters that have finite values, or a message, when the text
  -- behind a number is no longer than the text with it.
  pub validate_iff :
      (line : Bytes) → GoesOn num → (validate_gcode_syntax num line ≡ none) ↔ IsValid num line
  unfolding validate_gcode_syntax
  validate_iff [] g = (λ h. cc, λ (p, l, w). absurd (omega arith))
  validate_iff (c ∷ s) g = (line_sound c s g, line_complete c s g)
