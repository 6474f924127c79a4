-- ===== src/Auth/Strength.antt =====
-- The strength of passwords in src/auth_manager.cpp.
use bisso_e350_controller.Base.{
  ℕ, ◌+◌, ◌%◌, ◌≤◌, ◌<◌, ◌≡◌, refl, ap, ap₂, Bool, true, false, ◌||◌, ltb, Bool-cases, inl, inr,
  List, [], ◌∷◌, ◌++◌, length, take, drop, All, arith,
}
use bisso_e350_controller.GcodeParser.Text.{Bytes}
use bisso_e350_controller.Auth.Passwords.{
  same_text, is_lower, is_upper, is_number, char_types, some_byte, weak_passwords, is_one_of,
  auth_validate_password_strength, auth_generate_random_password,
}

pub same_text_self : (s : Bytes) → same_text s s ≡ true
unfolding same_text
same_text_self [] = refl
same_text_self (c ∷ s) = let h = same_text_self s in ground arith

pub same_text-eq : (s s' : Bytes) → same_text s s' ≡ true → s ≡ s'
unfolding same_text
same_text-eq [] [] h = refl
same_text-eq [] (c ∷ s) h = cc
same_text-eq (c ∷ s) [] h = cc
same_text-eq (c ∷ s) (d ∷ s') h =
    let e : c ≡ d = ground arith in
    ap₂ (λ (b : ℕ) (t : Bytes). b ∷ t) e (same_text-eq s s' (ground arith))

longer-is_one_of :
    (s : Bytes) (words : List Bytes)
    → All (λ (w : Bytes). length w < length s) words
    → is_one_of s words ≡ false
unfolding is_one_of
longer-is_one_of s [] a = refl
longer-is_one_of s (w ∷ words) (l, a) = elim (Bool-cases (same_text s w)) [
  | inl e ↦ let h = ap (length {0}) (same_text-eq s w e) in absurd (omega arith)
  | inr e ↦ rw e (longer-is_one_of s words a)
]

some_here : (f : ℕ → Bool) (c : ℕ) (s : Bytes) → f c ≡ true → some_byte f (c ∷ s) ≡ true
unfolding some_byte
some_here f c s h = rw h refl

some_behind :
    (f : ℕ → Bool) (front s : Bytes) → some_byte f s ≡ true → some_byte f (front ++ s) ≡ true
unfolding some_byte
some_behind f [] s h = h
some_behind f (c ∷ front) s h = let k = some_behind f front s h in ground arith

strong_enough :
    (s : Bytes)
    → 8 ≤ length s
    → length s ≤ 64
    → is_one_of s weak_passwords ≡ false
    → 3 ≤ char_types s
    → auth_validate_password_strength s ≡ true
unfolding auth_validate_password_strength
strong_enough s short long w t =
    let a : (ltb (length s) 8 || ltb 64 (length s)) ≡ false = ground arith in
    let b : ltb (char_types s) 3 ≡ false = ground arith in rw (a, w, b) refl

-- The password that is made at the first start is strong enough, whatever the random bytes are.
pub generate-strength :
    (r : ℕ → ℕ) → auth_validate_password_strength (auth_generate_random_password r) ≡ true
unfolding auth_generate_random_password
generate-strength r =
    let s = auth_generate_random_password r in
    let lower : some_byte is_lower s ≡ true = some_here is_lower (97 + r 0 % 26) _ (ground arith) in
    let upper : some_byte is_upper s ≡ true =
      some_behind is_upper (take 3 s) (drop 3 s)
        (some_here is_upper (65 + r 3 % 26) _ (ground arith)) in
    let number : some_byte is_number s ≡ true =
      some_behind is_number (take 6 s) (drop 6 s)
        (some_here is_number (48 + r 6 % 10) _ (ground arith)) in
    let t : 3 ≤ char_types s = rw (lower, upper, number) (omega arith) in
    strong_enough s (omega arith) (omega arith)
      (longer-is_one_of s weak_passwords (
        omega arith,
        (
          omega arith,
          (
            omega arith,
            (
              omega arith,
              (omega arith, (omega arith, (omega arith, (omega arith, (omega arith, tt))))),
            ),
          ),
        ),
      ))
      t
