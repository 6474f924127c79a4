-- ===== src/Auth/Passwords.antt =====
-- Passwords in src/auth_manager.cpp: their hashes as texts, and their strength. SHA-256 and `strtol` on
-- two characters in base 16 are parameters.
use bisso_e350_controller.Base.{
  ℕ, ◌+◌, ◌-◌, ◌*◌, ◌/◌, ◌%◌, Bool, true, false, not, ◌&&◌, ◌||◌, if◌then◌else◌, ltb, leb, ◌==◌,
  Option, none, some, List, [], ◌∷◌, ◌++◌, length, take, drop, get_or,
}
use Prim.Native.Nat.{bit_or, bit_xor}
use bisso_e350_controller.GcodeParser.Text.{Bytes, strchr}

abbrev pub auth_salt_bytes : ℕ
auth_salt_bytes = 16

abbrev pub auth_hash_bytes : ℕ
auth_hash_bytes = 32

abbrev pub auth_max_stored_pw_len : ℕ
auth_max_stored_pw_len = 128

-- `strcmp(s, s') == 0`
unfoldable pub same_text : Bytes → Bytes → Bool
same_text [] [] = true
same_text [] (c ∷ s) = false
same_text (c ∷ s) [] = false
same_text (c ∷ s) (d ∷ s') = c == d && same_text s s'

-- `strncmp(s, prefix, length of prefix) == 0`
unfoldable pub starts_with : Bytes → Bytes → Bool
starts_with [] s = true
starts_with (c ∷ p) [] = false
starts_with (c ∷ p) (d ∷ s) = c == d && starts_with p s

-- `$sha256$`
abbrev pub prefix : Bytes
prefix = b'$' ∷ b's' ∷ b'h' ∷ b'a' ∷ b'2' ∷ b'5' ∷ b'6' ∷ b'$' ∷ []

-- The character of a digit in base 16, as `%02x` prints it.
abbrev pub hex_digit : ℕ → ℕ
hex_digit d = if ltb d 10 then b'0' + d else b'a' + (d - 10)

unfoldable pub bin_to_hex : Bytes → Bytes
bin_to_hex [] = []
bin_to_hex (b ∷ s) = hex_digit (b / 16) ∷ hex_digit (b % 16) ∷ bin_to_hex s

-- What the passwords rest on: the digest of a salt and a password, and the byte that `strtol` makes of
-- two characters in base 16.
pub record Crypto : Type 0 where
  pub sha256 : Bytes → Bytes → Bytes
  pub byte_of : ℕ → ℕ → ℕ

abbrev pub diff_from : ℕ → Bytes → Bytes → ℕ
diff_from diff (x ∷ xs) (y ∷ ys) = diff_from (bit_or diff (bit_xor x y)) xs ys
diff_from diff _ _ = diff

module _ (crypto : Crypto) where
  unfoldable pub bytes_of : Bytes → Bytes
  bytes_of (a ∷ b ∷ hex) = crypto.byte_of a b ∷ bytes_of hex
  bytes_of _ = []

  -- The bytes that are written, none on an error.
  unfoldable pub hex_to_bin : Bytes → ℕ → Bytes
  unfolding bytes_of
  hex_to_bin hex output_len =
      if not (length hex % 2 == 0) || ltb output_len (length hex / 2) then [] else bytes_of hex

  unfoldable pub create_password_hash : Bytes → Bytes → Bytes
  unfolding bin_to_hex
  create_password_hash salt password =
      take (auth_max_stored_pw_len - 1)
        (prefix ++ (bin_to_hex salt ++ (b'$' ∷ bin_to_hex (crypto.sha256 salt password))))

  abbrev pub verify_digest : Bytes → Bytes → Bytes → Bool
  verify_digest password salt expected =
      if not (length salt == auth_salt_bytes)
      then false
      else if not (length expected == auth_hash_bytes)
      then false
      else diff_from 0 expected (crypto.sha256 salt password) == 0

  -- `hash_hex` is what is behind the separator.
  abbrev pub verify_parts : Bytes → Bytes → Option Bytes → Bool
  verify_parts password salt_hex none = false
  verify_parts password salt_hex (some hash_hex) =
      if not (length salt_hex - length hash_hex - 1 == auth_salt_bytes * 2)
      then false
      else verify_digest password (hex_to_bin (take (auth_salt_bytes * 2) salt_hex) auth_salt_bytes)
          (hex_to_bin hash_hex auth_hash_bytes)

  unfoldable pub verify_password : Bytes → Bytes → Bool
  unfolding same_text starts_with hex_to_bin strchr
  verify_password password stored_hash =
      if not (starts_with prefix stored_hash)
      then same_text password stored_hash
      else verify_parts password (drop 8 stored_hash) (strchr b'$' (drop 8 stored_hash))

-- The four types of characters.
abbrev pub is_lower : ℕ → Bool
is_lower c = leb b'a' c && leb c b'z'

abbrev pub is_upper : ℕ → Bool
is_upper c = leb b'A' c && leb c b'Z'

abbrev pub is_number : ℕ → Bool
is_number c = leb b'0' c && leb c b'9'

unfoldable pub some_byte : (ℕ → Bool) → Bytes → Bool
some_byte f [] = false
some_byte f (c ∷ s) = f c || some_byte f s

-- "password", "12345678", "admin123", "qwerty12", "00000000", "Password1", "Admin123", "letmein1"
-- and "welcome1".
abbrev pub weak_passwords : List Bytes
weak_passwords =
    (112 ∷ 97 ∷ 115 ∷ 115 ∷ 119 ∷ 111 ∷ 114 ∷ 100 ∷ [])
    ∷ (49 ∷ 50 ∷ 51 ∷ 52 ∷ 53 ∷ 54 ∷ 55 ∷ 56 ∷ [])
    ∷ (97 ∷ 100 ∷ 109 ∷ 105 ∷ 110 ∷ 49 ∷ 50 ∷ 51 ∷ [])
    ∷ (113 ∷ 119 ∷ 101 ∷ 114 ∷ 116 ∷ 121 ∷ 49 ∷ 50 ∷ [])
    ∷ (48 ∷ 48 ∷ 48 ∷ 48 ∷ 48 ∷ 48 ∷ 48 ∷ 48 ∷ [])
    ∷ (80 ∷ 97 ∷ 115 ∷ 115 ∷ 119 ∷ 111 ∷ 114 ∷ 100 ∷ 49 ∷ [])
    ∷ (65 ∷ 100 ∷ 109 ∷ 105 ∷ 110 ∷ 49 ∷ 50 ∷ 51 ∷ [])
    ∷ (108 ∷ 101 ∷ 116 ∷ 109 ∷ 101 ∷ 105 ∷ 110 ∷ 49 ∷ [])
    ∷ (119 ∷ 101 ∷ 108 ∷ 99 ∷ 111 ∷ 109 ∷ 101 ∷ 49 ∷ [])
    ∷ []

unfoldable pub is_one_of : Bytes → List Bytes → Bool
unfolding same_text
is_one_of s [] = false
is_one_of s (w ∷ words) = same_text s w || is_one_of s words

abbrev pub one_if : Bool → ℕ
one_if true = 1
one_if false = 0

abbrev pub is_symbol : ℕ → Bool
is_symbol c = not (is_lower c || is_upper c || is_number c)

abbrev pub char_types : Bytes → ℕ
char_types s =
    one_if (some_byte is_lower s)
    + one_if (some_byte is_upper s)
    + one_if (some_byte is_number s)
    + one_if (some_byte is_symbol s)

unfoldable pub auth_validate_password_strength : Bytes → Bool
unfolding is_one_of some_byte
auth_validate_password_strength password =
    if ltb (length password) 8 || ltb 64 (length password)
    then false
    else if is_one_of password weak_passwords
    then false
    else if ltb (char_types password) 3
    then false
    else true

-- "!@#$%^&*"
abbrev pub symbols : Bytes
symbols = 33 ∷ 64 ∷ 35 ∷ 36 ∷ 37 ∷ 94 ∷ 38 ∷ 42 ∷ []

-- The password for random bytes, by their place.
unfoldable pub auth_generate_random_password : (ℕ → ℕ) → Bytes
auth_generate_random_password r =
    (b'a' + r 0 % 26)
    ∷ (b'a' + r 1 % 26)
    ∷ (b'a' + r 2 % 26)
    ∷ (b'A' + r 3 % 26)
    ∷ (b'A' + r 4 % 26)
    ∷ (b'A' + r 5 % 26)
    ∷ (b'0' + r 6 % 10)
    ∷ (b'0' + r 7 % 10)
    ∷ (b'0' + r 8 % 10)
    ∷ get_or symbols (r 9 % 8) 0
    ∷ get_or symbols (r 10 % 8) 0
    ∷ get_or symbols (r 11 % 8) 0
    ∷ []
