-- ===== src/GcodeParser/Grammar.antt =====
-- The commands that `validateGCodeSyntax` of src/gcode_parser.cpp accepts, as a grammar.
use bisso_e350_controller.Base.{
  ℕ, zero, suc, ◌≤◌, ◌<◌, ◌≡◌, refl, ◌⊎◌, inl, inr, true, false, Bool-cases, Option, none, some, [],
  ◌∷◌, length, arith,
}
use bisso_e350_controller.Base.Int.{pos}
use bisso_e350_controller.GcodeParser.Text.{
  Bytes, toupper, is_blank, skip_blanks, strtol, length-skip_blanks,
}
use bisso_e350_controller.GcodeParser.Syntax.{
  Numbers, SyntaxError, is_comment, is_command_letter, is_supported_g, is_supported_m, is_parameter,
  check_value, check_word, check_words,
}

pub letter_cases : (c : ℕ) → is_command_letter c ≡ true → (toupper c ≡ b'G') ⊎ (toupper c ≡ b'M')
unfolding toupper
letter_cases c h = ground arith

pub letter_back : (c : ℕ) → (toupper c ≡ b'G') ⊎ (toupper c ≡ b'M') → is_command_letter c ≡ true
unfolding toupper
letter_back c (inl h) = ground arith
letter_back c (inr h) = ground arith

pub g_range : (n : ℕ) → is_supported_g n ≡ true → n ≤ 99
unfolding is_supported_g
g_range n h = ground arith

pub m_range : (n : ℕ) → is_supported_m n ≡ true → n ≤ 999
unfolding is_supported_m
m_range n h = ground arith

parameter_no_blank : (c : ℕ) → is_parameter (toupper c) ≡ true → is_blank c ≡ false
unfolding is_parameter toupper
parameter_no_blank c h = ground arith

module _ {F D : Type 0} (num : Numbers F D) where
  -- A row of parameters with blanks between them: a letter in either case and a finite number.
  pub data Words : Bytes → Type 0 where
    stop : Words []
    blank : {c : ℕ} {s : Bytes} → is_blank c ≡ true → Words s → Words (c ∷ s)
    word :
        {c : ℕ} {s : Bytes} {value : F} {rest : Bytes}
        → is_parameter (toupper c) ≡ true
        → num.strtof s ≡ some (value, rest)
        → num.is_finite value ≡ true
        → Words rest
        → Words (c ∷ s)

  -- A comment, a G command, an M command, or a message, which is free text.
  pub data IsCommand : Bytes → Type 0 where
    comment : {c : ℕ} {s : Bytes} → is_comment c ≡ true → IsCommand (c ∷ s)
    g_command :
        {c n : ℕ} {s rest : Bytes}
        → toupper c ≡ b'G'
        → strtol s ≡ some (pos n, rest)
        → is_supported_g n ≡ true
        → Words rest
        → IsCommand (c ∷ s)
    m_command :
        {c n : ℕ} {s rest : Bytes}
        → toupper c ≡ b'M'
        → strtol s ≡ some (pos n, rest)
        → is_supported_m n ≡ true
        → Words rest
        → IsCommand (c ∷ s)
    message :
        {c : ℕ} {s rest : Bytes}
        → toupper c ≡ b'M'
        → strtol s ≡ some (pos 117, rest)
        → IsCommand (c ∷ s)

  -- The text behind a number is not longer than the text with it.
  abbrev pub GoesOn : Type 0
  GoesOn =
      (s : Bytes) (value : F) (rest : Bytes)
      → num.strtof s ≡ some (value, rest)
      → length rest ≤ length s

  skip-Words : (s : Bytes) → Words (skip_blanks s) → Words s
  unfolding skip_blanks
  skip-Words [] w = w
  skip-Words (c ∷ s) w = elim (Bool-cases (is_blank c)) [
    | inl e ↦ blank e (skip-Words s (rw e at w))
    | inr e ↦ rw e at w
  ]

  module _ (next : Bytes → Option SyntaxError) where
    value_sound :
        (c : ℕ) (s : Bytes) (found : Option (F × Bytes))
        → is_parameter (toupper c) ≡ true
        → num.strtof s ≡ found
        → ((value : F) (rest : Bytes)
            → num.strtof s ≡ some (value, rest)
            → next rest ≡ none
            → Words rest)
        → check_value num next (toupper c) found ≡ none
        → Words (c ∷ s)
    value_sound c s none p e k h = cc
    value_sound c s (some (value, rest)) p e k h = elim (Bool-cases (num.is_finite value)) [
      | inl f ↦ word p e f (k value rest e (rw f at h))
      | inr f ↦ let g = rw f at h in cc
    ]

    word_sound :
        (s : Bytes)
        → ((rest : Bytes) → suc (length rest) ≤ length s → next rest ≡ none → Words rest)
        → GoesOn
        → check_word num next s ≡ none
        → Words s
    word_sound [] k g h = stop
    word_sound (c ∷ s) k g h = elim (Bool-cases (is_parameter (toupper c))) [
      | inl p ↦
          value_sound c s (num.strtof s) p refl
            (λ value rest e. k rest (omega (arith, g s value rest e))) (rw p at h)
      | inr p ↦ let f = rw p at h in cc
    ]

  pub check_words_sound :
      (n : ℕ) (s : Bytes) → GoesOn → length s ≤ n → check_words num n s ≡ none → Words s
  unfolding check_words
  check_words_sound zero [] g l h = stop
  check_words_sound zero (c ∷ s) g l h = absurd (omega arith)
  check_words_sound (suc n) s g l h = skip-Words s (
      word_sound (check_words num n) (skip_blanks s)
        (λ rest shorter. check_words_sound n rest g (omega (arith, length-skip_blanks s))) g h)

  pub check_words_complete :
      (n : ℕ) (s : Bytes) → GoesOn → length s ≤ n → Words s → check_words num n s ≡ none
  unfolding check_words skip_blanks
  check_words_complete zero s g l w = refl
  check_words_complete (suc n) [] g l stop = refl
  check_words_complete (suc n) (c ∷ s) g l (blank e w) =
      rw e (check_words_complete (suc n) s g (omega arith) w)
  check_words_complete (suc n) (c ∷ s) g l (word {value = v} {rest} p e f w) =
      rw (parameter_no_blank c p, p, e, f)
        (check_words_complete n rest g (omega (arith, g s v rest e)) w)

  -- The texts of 1 to 128 bytes that are commands.
  abbrev pub IsValid : Bytes → Type 0
  IsValid line = (0 < length line) × (length line ≤ 128) × IsCommand line
