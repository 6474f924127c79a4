-- ===== src/Auth/Digests.antt =====
-- Hashes of src/auth_manager.cpp: digits in base 16, the comparison, and the text of a hash.
use Prim.Native.Nat.{bit_or, bit_or-bitwise, max}
use bisso_e350_controller.Base.{
  ℕ, zero, suc, ◌+◌, ◌-◌, ◌*◌, ◌/◌, ◌%◌, ◌≤◌, ◌<◌, ◌≡◌, ◌↔◌, refl, sym, ap, ap₂, ◌∙◌, true, false,
  ltb, ◌==◌, some, [], ◌∷◌, ◌++◌, length, take, take-append_length, length-append, All, arith,
}
use bisso_e350_controller.Base.Bits.{
  bit_xor, bit_xor_self, bit_xor_cancel, zero-bit_xor, bitwise_next,
}
use bisso_e350_controller.GcodeParser.Text.{Bytes, strchr}
use bisso_e350_controller.Auth.Passwords.{
  Crypto, prefix, hex_digit, bin_to_hex, bytes_of, hex_to_bin, diff_from, create_password_hash,
  verify_password, starts_with,
}

bit_or_step :
    (x y : ℕ) → bit_or (suc x) y ≡ bit_or (suc x / 2) (y / 2) * 2 + max (suc x % 2) (y % 2)
bit_or_step x y = simp bit_or-bitwise (bitwise_next (λ b. b) max x y)

zero-bit_or : (y : ℕ) → bit_or 0 y ≡ y
zero-bit_or y = simp bit_or-bitwise refl

or_none : (n x y : ℕ) → x ≤ n → bit_or x y ≡ 0 → (x ≡ 0) × (y ≡ 0)
or_none n zero y l h = (refl, sym (zero-bit_or y) ∙ h)
or_none zero (suc x) y l h = absurd (omega arith)
or_none (suc n) (suc x) y l h =
    let s = bit_or_step x y in
    let half : bit_or (suc x / 2) (y / 2) ≡ 0 = omega arith in
    let (p, q) = or_none n (suc x / 2) (y / 2) (omega arith) half in
    let m : max (suc x % 2) (y % 2) ≡ 0 = omega arith in (omega arith, omega arith)

-- The comparison finds no difference exactly between equal digests.
no_diff :
    (d : ℕ) (xs ys : Bytes) → length xs ≡ length ys → diff_from d xs ys ≡ 0 → (d ≡ 0) × (xs ≡ ys)
no_diff d [] [] l h = (h, refl)
no_diff d [] (y ∷ ys) l h = absurd (omega arith)
no_diff d (x ∷ xs) [] l h = absurd (omega arith)
no_diff d (x ∷ xs) (y ∷ ys) l h =
    let (o, e) = no_diff (bit_or d (bit_xor x y)) xs ys (omega arith) h in
    let (z, w) = or_none d d (bit_xor x y) (omega arith) o in
    let same : x ≡ y = sym (bit_xor_cancel x y) ∙ ap (λ (t : ℕ). bit_xor t y) w ∙ zero-bit_xor y in
    (z, ap₂ (λ (c : ℕ) (t : Bytes). c ∷ t) same e)

self-diff : (xs : Bytes) → diff_from 0 xs xs ≡ 0
self-diff [] = refl
self-diff (x ∷ xs) = rw (bit_xor_self x, zero-bit_or 0) (self-diff xs)

diff_iff : (xs ys : Bytes) → length xs ≡ length ys → ((diff_from 0 xs ys == 0) ≡ true) ↔ (xs ≡ ys)
diff_iff xs ys l = (
  λ h. let e : diff_from 0 xs ys ≡ 0 = ground arith in (no_diff 0 xs ys l e).1,
  λ e. let z : diff_from 0 xs ys ≡ 0 = ap (diff_from 0 xs) (sym e) ∙ self-diff xs in ground arith,
)

abbrev pub IsByte : ℕ → Type 0
IsByte b = b < 256

length-bin_to_hex : (s : Bytes) → length (bin_to_hex s) ≡ 2 * length s
unfolding bin_to_hex
length-bin_to_hex [] = refl
length-bin_to_hex (b ∷ s) = let h = length-bin_to_hex s in omega arith

-- A digit is not the separator.
digit_plain : (d : ℕ) → d < 16 → (hex_digit d == b'$') ≡ false
digit_plain d l = ground arith

-- The separator behind digits is found.
find_separator :
    (s rest : Bytes) → All IsByte s → strchr b'$' (bin_to_hex s ++ (b'$' ∷ rest)) ≡ some rest
unfolding bin_to_hex strchr
find_separator [] rest a = refl
find_separator (b ∷ s) rest (l, a) =
    rw (digit_plain (b / 16) (omega arith), digit_plain (b % 16) (omega arith))
      (find_separator s rest a)

-- What SHA-256 and `strtol` promise: a digest has 32 bytes, and the two digits of a byte stand for it.
pub record Keeps (crypto : Crypto) : Type 0 where
  pub sized : (salt s : Bytes) → length (crypto.sha256 salt s) ≡ 32
  pub bytes : (salt s : Bytes) → All IsByte (crypto.sha256 salt s)
  pub digits : (b : ℕ) → b < 256 → crypto.byte_of (hex_digit (b / 16)) (hex_digit (b % 16)) ≡ b

pub take_all : (s : Bytes) (n : ℕ) → length s ≤ n → take n s ≡ s
take_all [] zero l = refl
take_all [] (suc n) l = refl
take_all (c ∷ s) zero l = absurd (omega arith)
take_all (c ∷ s) (suc n) l = ap (λ (t : Bytes). c ∷ t) (take_all s n (omega arith))

module _ (crypto : Crypto) where
  bytes_of-bin_to_hex :
      (s : Bytes) → Keeps crypto → All IsByte s → bytes_of crypto (bin_to_hex s) ≡ s
  unfolding bytes_of bin_to_hex
  bytes_of-bin_to_hex [] k a = refl
  bytes_of-bin_to_hex (b ∷ s) k (l, a) =
      ap₂ (λ (c : ℕ) (t : Bytes). c ∷ t) (k.digits b l) (bytes_of-bin_to_hex s k a)

  -- The digits of bytes are read back as these bytes, when there is room for them.
  pub hex_to_bin-bin_to_hex :
      (s : Bytes) (n : ℕ)
      → Keeps crypto
      → All IsByte s
      → length s ≤ n
      → hex_to_bin crypto (bin_to_hex s) n ≡ s
  unfolding hex_to_bin
  hex_to_bin-bin_to_hex s n k a l =
      let e = length-bin_to_hex s in
      let even : (length (bin_to_hex s) % 2 == 0) ≡ true = ground arith in
      let fits : ltb n (length (bin_to_hex s) / 2) ≡ false = ground arith in
      rw (even, fits) (bytes_of-bin_to_hex s k a)

  -- The text of a hash is not cut off.
  pub create-text :
      (salt password : Bytes)
      → Keeps crypto
      → length salt ≡ 16
      → create_password_hash crypto salt password
        ≡ prefix ++ (bin_to_hex salt ++ (b'$' ∷ bin_to_hex (crypto.sha256 salt password)))
  unfolding create_password_hash
  create-text salt password k l =
      let h = bin_to_hex (crypto.sha256 salt password) in
      let a = length-append (bin_to_hex salt) (b'$' ∷ h) in
      let b = length-bin_to_hex salt in
      let c = length-bin_to_hex (crypto.sha256 salt password) in
      let d = k.sized salt password in
      take_all (prefix ++ (bin_to_hex salt ++ (b'$' ∷ h))) 127 (omega arith)

  -- A password passes the check against a hash that was made of a password and a salt of 16 bytes
  -- exactly when the two have the same digest with this salt.
  pub verify-create :
      (salt made given : Bytes)
      → Keeps crypto
      → length salt ≡ 16
      → All IsByte salt
      → (verify_password crypto given (create_password_hash crypto salt made) ≡ true)
        ↔ (crypto.sha256 salt made ≡ crypto.sha256 salt given)
  unfolding verify_password starts_with
  verify-create salt made given k l a =
      let digest = crypto.sha256 salt made in
      let h = bin_to_hex digest in
      let hex = bin_to_hex salt in
      let salt_read : hex_to_bin crypto hex 16 ≡ salt =
        hex_to_bin-bin_to_hex salt 16 k a (omega arith) in
      let digest_read : hex_to_bin crypto h 32 ≡ digest =
        hex_to_bin-bin_to_hex digest 32 k (k.bytes salt made)
          (let s = k.sized salt made in omega arith) in
      let n = length-bin_to_hex salt in
      let sizes : (length (hex ++ (b'$' ∷ h)) - length h - 1 == 32) ≡ true =
        let e = length-append hex (b'$' ∷ h) in ground arith in
      let cut : take 32 (hex ++ (b'$' ∷ h)) ≡ hex =
        ap (λ (m : ℕ). take m (hex ++ (b'$' ∷ h))) (let m : 32 ≡ length hex = omega arith in m)
        ∙ take-append_length hex (b'$' ∷ h) in
      let salt_sized : (length salt == 16) ≡ true = ground arith in
      let digest_sized : (length digest == 32) ≡ true = let s = k.sized salt made in ground arith in
      let same_size : length digest ≡ length (crypto.sha256 salt given) =
        k.sized salt made ∙ sym (k.sized salt given) in
      rw
        (
          create-text salt made k l,
          find_separator salt h a,
          sizes,
          cut,
          salt_read,
          digest_read,
          salt_sized,
          digest_sized,
        )
        (diff_iff digest (crypto.sha256 salt given) same_size)
