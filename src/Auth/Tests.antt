-- ===== src/Auth/Tests.antt =====
-- The theorems on passwords at concrete texts, with a sum of bytes in place of SHA-256.
use bisso_e350_controller.Base.{
  ℕ, zero, suc, ◌+◌, ◌-◌, ◌*◌, ◌/◌, ◌%◌, ◌<◌, ◌≡◌, ◌↔◌, refl, true, false, if◌then◌else◌, ltb, [],
  ◌∷◌, replicate, length-replicate, All, arith,
}
use bisso_e350_controller.GcodeParser.Text.{Bytes}
use bisso_e350_controller.Auth.Passwords.{
  Crypto, same_text, is_one_of, some_byte, hex_digit, starts_with, prefix, create_password_hash,
  verify_password, auth_validate_password_strength, auth_generate_random_password,
}
use bisso_e350_controller.Auth.Accounts.{Account, auth_verify_credentials, auth_set_password}
use bisso_e350_controller.Auth.Digests.{Keeps, IsByte, verify-create}
use bisso_e350_controller.Auth.Attempts.{auth_check_rate_limit}
use bisso_e350_controller.Auth.Lockout.{record_all, attempts_iff}
use bisso_e350_controller.Auth.Strength.{generate-strength}
use bisso_e350_controller.Auth.Logins.{set-login}

abbrev sum : Bytes → ℕ
sum [] = 0
sum (c ∷ s) = c + sum s

abbrev value : ℕ → ℕ
value c = if ltb c 58 then c - 48 else c - 87

abbrev crypto : Crypto
crypto = record {
  sha256 = λ salt s. replicate 32 (sum s % 256);
  byte_of = λ a b. value a * 16 + value b;
}

replicate-bytes : (n b : ℕ) → b < 256 → All IsByte (replicate n b)
replicate-bytes zero b l = tt
replicate-bytes (suc n) b l = (l, replicate-bytes n b l)

digit_value : (d : ℕ) → d < 16 → value (hex_digit d) ≡ d
digit_value d l = ground arith

crypto-Keeps : Keeps crypto
crypto-Keeps = record {
  sized = λ salt s. length-replicate 32 (sum s % 256);
  bytes = λ salt s. replicate-bytes 32 (sum s % 256) (omega arith);
  digits = λ b l.
      let p = digit_value (b / 16) (omega arith) in
      let q = digit_value (b % 16) (omega arith) in omega arith;
}

abbrev salt : Bytes
salt = replicate 16 171

salt_bytes : All IsByte salt
salt_bytes = replicate-bytes 16 171 (omega arith)

-- `Abcdef12`
abbrev good : Bytes
good = 65 ∷ 98 ∷ 99 ∷ 100 ∷ 101 ∷ 102 ∷ 49 ∷ 50 ∷ []

-- `admin`
abbrev admin : Bytes
admin = 97 ∷ 100 ∷ 109 ∷ 105 ∷ 110 ∷ []

abbrev fresh : Account
fresh = record {
  current_username = admin;
  stored_password_hash = [];
  password_change_required = false;
  credentials_loaded = false;
  saved = [];
}

-- An account with the password `Abcdef12` in plain text.
abbrev plain : Account
plain = record fresh { stored_password_hash = good; credentials_loaded = true; saved = good }

verify-create_example :
    (verify_password crypto good (create_password_hash crypto salt good) ≡ true)
    ↔ (crypto.sha256 salt good ≡ crypto.sha256 salt good)
verify-create_example = verify-create crypto salt good good crypto-Keeps refl salt_bytes

generate-strength_example :
    auth_validate_password_strength (auth_generate_random_password (λ i. i * 37)) ≡ true
generate-strength_example = generate-strength (λ i. i * 37)

good_accepted : (auth_set_password crypto salt admin good plain).1 ≡ true
unfolding auth_set_password same_text auth_validate_password_strength is_one_of some_byte
good_accepted = refl

set-login_example :
    let a' = (auth_set_password crypto salt admin good plain).0 in
    ((auth_verify_credentials crypto salt admin good a').1 ≡ true)
    ↔ (crypto.sha256 salt good ≡ crypto.sha256 salt good)
set-login_example =
    set-login crypto salt salt admin good good plain crypto-Keeps refl salt_bytes good_accepted

plain_starts : starts_with prefix good ≡ false
unfolding starts_with
plain_starts = refl

plain_login : (auth_verify_credentials crypto salt admin good plain).1 ≡ true
unfolding auth_verify_credentials same_text starts_with verify_password
plain_login = refl

-- `10.0.0.7`
abbrev address : Bytes
address = 49 ∷ 48 ∷ 46 ∷ 48 ∷ 46 ∷ 48 ∷ 46 ∷ 55 ∷ []

attempts_iff_example :
    (auth_check_rate_limit 9000 address
      (record_all (1000 ∷ 2000 ∷ 3000 ∷ 4000 ∷ 5000 ∷ []) address [])).1
    ≡ false
attempts_iff_example =
    attempts_iff address [] 1000 9000 (2000 ∷ 3000 ∷ 4000 ∷ 5000 ∷ []) (omega arith) refl
      (omega arith, (omega arith, (omega arith, (omega arith, tt)))) (omega arith) (omega arith)
