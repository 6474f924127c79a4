-- ===== src/Auth/Accounts.antt =====
-- The account of src/auth_manager.cpp: logging in, a new password, and the first start. The salt of a
-- new hash is an argument.
use bisso_e350_controller.Base.{ℕ, Bool, true, false, not, if◌then◌else◌, [], ◌∷◌, take}
use bisso_e350_controller.GcodeParser.Text.{Bytes}
use bisso_e350_controller.Auth.Passwords.{
  Crypto, same_text, starts_with, prefix, create_password_hash, verify_password,
  auth_validate_password_strength, auth_generate_random_password,
}

-- The static variables, and the password that is in flash.
pub record Account : Type 0 where
  pub current_username : Bytes
  pub stored_password_hash : Bytes
  pub password_change_required : Bool
  pub credentials_loaded : Bool
  pub saved : Bytes

module _ (crypto : Crypto) where
  -- A new hash, which is saved too.
  abbrev pub renew : Bytes → Bytes → Account → Account
  renew salt password a = record a {
    stored_password_hash = create_password_hash crypto salt password;
    saved = create_password_hash crypto salt password;
    password_change_required = false;
  }

  unfoldable pub auth_verify_credentials : Bytes → Bytes → Bytes → Account → Account × Bool
  unfolding same_text starts_with verify_password create_password_hash
  auth_verify_credentials salt username password a =
      if not a.credentials_loaded
      then (a, false)
      else if not (same_text username a.current_username)
      then (a, false)
      else if not (verify_password crypto password a.stored_password_hash)
      then (a, false)
      else if not (starts_with prefix a.stored_password_hash)
      then (renew salt password a, true)
      else (a, true)

  unfoldable pub auth_set_password : Bytes → Bytes → Bytes → Account → Account × Bool
  unfolding same_text auth_validate_password_strength create_password_hash
  auth_set_password salt username new_password a =
      if not a.credentials_loaded
      then (a, false)
      else if not (same_text username a.current_username)
      then (a, false)
      else if not (auth_validate_password_strength new_password)
      then (a, false)
      else (renew salt new_password a, true)

  -- The user that flash holds, if it holds one.
  abbrev pub with_user : Bytes → Account → Account
  with_user [] a = a
  with_user (c ∷ s) a = record a { current_username = take 31 (c ∷ s) }

  -- With the password that flash holds, empty when it holds none.
  abbrev pub load : Bytes → Bytes → (ℕ → ℕ) → Account → Account
  load [] salt random a = record (renew salt (auth_generate_random_password random) a) {
    credentials_loaded = true;
  }
  load (c ∷ pw) salt random a =
      let stored = take 127 (c ∷ pw) in
      record a {
        stored_password_hash = stored;
        password_change_required = not (starts_with prefix stored);
        credentials_loaded = true;
      }

  -- The start, with the user that flash holds, empty when it holds none, and the random bytes.
  unfoldable pub auth_init : Bytes → Bytes → (ℕ → ℕ) → Account → Account
  unfolding starts_with create_password_hash auth_generate_random_password
  auth_init user salt random a = load a.saved salt random (with_user user a)
