-- ===== src/Auth/Logins.antt =====
-- Which passwords log in, in src/auth_manager.cpp.
use bisso_e350_controller.Base.{
  ◌≡◌, ◌↔◌, refl, true, false, Bool-cases, inl, inr, length, All, arith,
}
use bisso_e350_controller.GcodeParser.Text.{Bytes}
use bisso_e350_controller.Auth.Passwords.{
  Crypto, prefix, same_text, starts_with, create_password_hash, verify_password,
  auth_validate_password_strength,
}
use bisso_e350_controller.Auth.Accounts.{Account, renew, auth_verify_credentials, auth_set_password}
use bisso_e350_controller.Auth.Digests.{Keeps, IsByte, create-text, verify-create}

module _ (crypto : Crypto) where
  create-starts :
      (salt password : Bytes)
      → Keeps crypto
      → length salt ≡ 16
      → starts_with prefix (create_password_hash crypto salt password) ≡ true
  unfolding starts_with
  create-starts salt password k l = rw (create-text crypto salt password k l) refl

  renewed-login :
      (salt next name made given : Bytes) (a : Account)
      → Keeps crypto
      → length salt ≡ 16
      → All IsByte salt
      → a.credentials_loaded ≡ true
      → same_text name a.current_username ≡ true
      → ((auth_verify_credentials crypto next name given (renew crypto salt made a)).1 ≡ true)
        ↔ (crypto.sha256 salt made ≡ crypto.sha256 salt given)
  unfolding auth_verify_credentials
  renewed-login salt next name made given a k l b loaded same =
      let starts = create-starts salt made k l in
      let (to, back) = verify-create crypto salt made given k l b in
      elim (Bool-cases (verify_password crypto given (create_password_hash crypto salt made))) [
        | inl ok ↦ rw (loaded, same, ok, starts) (λ _. to ok, λ _. refl)
        | inr bad ↦
            rw (loaded, same, bad)
              (λ h. absurd (ground arith), λ e. let ok = back e in absurd (ground arith))
      ]

  set-accepted :
      (salt name new : Bytes) (a : Account)
      → (auth_set_password crypto salt name new a).1 ≡ true
      → (a.credentials_loaded ≡ true)
        × (same_text name a.current_username ≡ true)
        × ((auth_set_password crypto salt name new a).0 ≡ renew crypto salt new a)
  unfolding auth_set_password
  set-accepted salt name new a h = elim (Bool-cases a.credentials_loaded) [
    | inr e ↦ let f = rw e at h in cc
    | inl e ↦ elim (Bool-cases (same_text name a.current_username)) [
      | inr g ↦ let f = rw (e, g) at h in cc
      | inl g ↦ elim (Bool-cases (auth_validate_password_strength new)) [
        | inr w ↦ let f = rw (e, g, w) at h in cc
        | inl w ↦ rw (e, g, w) (refl, refl, refl)
      ]
    ]
  ]

  -- Behind an accepted change of the password, a log-in of this user succeeds exactly when the given
  -- password has the digest of the new one, with the new salt of 16 bytes.
  pub set-login :
      (salt next name new given : Bytes) (a : Account)
      → Keeps crypto
      → length salt ≡ 16
      → All IsByte salt
      → (auth_set_password crypto salt name new a).1 ≡ true
      → let a' = (auth_set_password crypto salt name new a).0 in
        ((auth_verify_credentials crypto next name given a').1 ≡ true)
        ↔ (crypto.sha256 salt new ≡ crypto.sha256 salt given)
  set-login salt next name new given a k l b h =
      let (loaded, same, e) = set-accepted salt name new a h in
      rw e (renewed-login salt next name new given a k l b loaded same)

  upgraded :
      (salt name given : Bytes) (a : Account)
      → starts_with prefix a.stored_password_hash ≡ false
      → (auth_verify_credentials crypto salt name given a).1 ≡ true
      → (a.credentials_loaded ≡ true)
        × (same_text name a.current_username ≡ true)
        × ((auth_verify_credentials crypto salt name given a).0 ≡ renew crypto salt given a)
  unfolding auth_verify_credentials
  upgraded salt name given a plain h = elim (Bool-cases a.credentials_loaded) [
    | inr e ↦ let f = rw e at h in cc
    | inl e ↦ elim (Bool-cases (same_text name a.current_username)) [
      | inr g ↦ let f = rw (e, g) at h in cc
      | inl g ↦ elim (Bool-cases (verify_password crypto given a.stored_password_hash)) [
        | inr w ↦ let f = rw (e, g, w) at h in cc
        | inl w ↦ rw (e, g, w, plain) (refl, refl, refl)
      ]
    ]
  ]

  -- Behind a log-in with a password that is stored as plain text, only the digests count: the next
  -- log-in succeeds exactly when its password has the digest of the one that logged in.
  pub upgrade-login :
      (salt next name given later : Bytes) (a : Account)
      → Keeps crypto
      → length salt ≡ 16
      → All IsByte salt
      → starts_with prefix a.stored_password_hash ≡ false
      → (auth_verify_credentials crypto salt name given a).1 ≡ true
      → let a' = (auth_verify_credentials crypto salt name given a).0 in
        ((auth_verify_credentials crypto next name later a').1 ≡ true)
        ↔ (crypto.sha256 salt given ≡ crypto.sha256 salt later)
  upgrade-login salt next name given later a k l b plain h =
      let (loaded, same, e) = upgraded salt name given a plain h in
      rw e (renewed-login salt next name given later a k l b loaded same)
