-- ===== src/GcodeParser/Offsets.antt =====
-- The work coordinate systems of src/gcode_parser.cpp.
use bisso_e350_controller.Base.{
  ℕ, zero, suc, ◌<◌, ◌≡◌, refl, sym, ap, ◌∙◌, inl, inr, Bool, true, false, ◌&&◌, ◌||◌,
  if◌then◌else◌, ◌==◌, Bool-cases, Option, none, some, List, [], ◌∷◌, length, get_or, set,
  length-set, All, All-set, All-get_or_lt, arith,
}
use bisso_e350_controller.GcodeParser.Text.{Bytes}
use bisso_e350_controller.GcodeParser.Syntax.{Numbers}
use bisso_e350_controller.GcodeParser.State.{
  GcodeParser, parse_code, offset, set_offset, axis_letters,
}
use bisso_e350_controller.GcodeParser.Commands.{shift_axis, shift_axes}

-- The array has its shape, the system whose offsets are read is one of its rows, and no write was
-- outside.
pub record IsValid {F : Type 0} (g : GcodeParser F) : Type 0 where
  pub rows : length g.wcs_offsets ≡ 6
  pub width : All (λ (row : List F). length row ≡ 4) g.wcs_offsets
  pub system : g.current_wcs < 6
  pub safe : g.in_bounds ≡ true

get_or-set :
    {A : Type 0} (xs : List A) (i j : ℕ) (v d : A)
    → i < length xs
    → get_or (set xs i v) j d ≡ (if i == j then v else get_or xs j d)
get_or-set [] i j v d l = absurd (omega arith)
get_or-set (x ∷ xs) zero zero v d l = ground arith
get_or-set (x ∷ xs) zero (suc j) v d l = ground arith
get_or-set (x ∷ xs) (suc i) zero v d l = ground arith
get_or-set (x ∷ xs) (suc i) (suc j) v d l =
    let ih = get_or-set xs i j v d (omega arith) in ground arith

-- The letter of an axis.
abbrev pub letter_of : ℕ → ℕ
letter_of zero = b'X'
letter_of (suc zero) = b'Y'
letter_of (suc (suc zero)) = b'Z'
letter_of _ = b'A'

and_true : (b : Bool) → (b && true) ≡ b
and_true true = refl
and_true false = refl

unused :
    {F : Type 0} (b : Bool) (x y d : F)
    → (if b && false then x else d) ≡ (if b && false then y else d)
unused true x y d = refl
unused false x y d = refl

-- Two steps, of which one at most changes a value, and a change that depends on the value before.
two_steps :
    {F : Type 0} (here step later : Bool) (change : F → F) (old mid final : F)
    → (step ≡ true → later ≡ false)
    → mid ≡ (if here && step then change old else old)
    → final ≡ (if here && later then change mid else mid)
    → final ≡ (if here && (step || later) then change old else old)
two_steps false step later change old mid final x m f = f ∙ m
two_steps true true true change old mid final x m f = cc (x refl)
two_steps true true false change old mid final x m f = f ∙ m
two_steps true false true change old mid final x m f = f ∙ ap change m
two_steps true false false change old mid final x m f = f ∙ m

module _ {F D : Type 0} (num : Numbers F D) where
  row-width :
      (system : ℕ) (g : GcodeParser F)
      → IsValid g
      → system < 6
      → length (get_or g.wcs_offsets system []) ≡ 4
  row-width system g v l =
      All-get_or_lt (λ (row : List F). length row ≡ 4) g.wcs_offsets system [] v.width
        (omega (arith, v.rows))

  pub set_offset-IsValid :
      (system axis : ℕ) (x : F) (g : GcodeParser F)
      → IsValid g
      → system < 6
      → axis < 4
      → IsValid (set_offset system axis x g)
  set_offset-IsValid system axis x g v l k =
      let row = get_or g.wcs_offsets system [] in
      record {
        rows = length-set g.wcs_offsets system (set row axis x) ∙ v.rows;
        width =
            All-set (λ (r : List F). length r ≡ 4) g.wcs_offsets system (set row axis x) v.width
              (length-set row axis x ∙ row-width system g v l);
        system = v.system;
        safe = ground (arith, v.safe);
      }

  -- A write of an offset changes this offset and no other.
  offset-set_offset :
      (system axis s a : ℕ) (x : F) (g : GcodeParser F)
      → IsValid g
      → system < 6
      → axis < 4
      → offset num s a (set_offset system axis x g)
        ≡ (if system == s && axis == a then x else offset num s a g)
  offset-set_offset system axis s a x g v l k =
      let row = get_or g.wcs_offsets system [] in
      let w = row-width system g v l in
      let outer =
        ap (λ (r : List F). get_or r a (num.of_int 0))
          (get_or-set g.wcs_offsets system s (set row axis x) [] (omega (arith, v.rows))) in
      elim (Bool-cases (system == s)) [
        | inl e ↦
            let same : system ≡ s = ground arith in
            let inner = get_or-set row axis a x (num.of_int 0) (omega arith) in
            let tail = ap (λ (i : ℕ). get_or (get_or g.wcs_offsets i []) a (num.of_int 0)) same in
            rw e ((rw e at outer) ∙ inner ∙ ap (λ (d : F). if axis == a then x else d) tail)
        | inr e ↦ rw e (rw e at outer)
      ]

  -- The offset of an axis that a line names, or the one that it had.
  abbrev pub moved : F → Option F → F → F
  moved at none old = old
  moved at (some v) old = num.sub at v

  shift_axis-system :
      (system : ℕ) (at : F) (axis : ℕ) (found : Option F) (g : GcodeParser F)
      → (shift_axis num system at axis found g).current_wcs ≡ g.current_wcs
  shift_axis-system system at axis none g = refl
  shift_axis-system system at axis (some v) g = refl

  pub shift_axes-system :
      (line : Bytes) (system : ℕ) (at : ℕ → F) (axes : List (ℕ × ℕ)) (g : GcodeParser F)
      → (shift_axes num line system at axes g).current_wcs ≡ g.current_wcs
  unfolding shift_axes
  shift_axes-system line system at [] g = refl
  shift_axes-system line system at ((axis, letter) ∷ axes) g =
      shift_axes-system line system at axes _
      ∙ shift_axis-system system (at axis) axis (parse_code num line letter) g

  shift_axis-IsValid :
      (system : ℕ) (at : F) (axis : ℕ) (found : Option F) (g : GcodeParser F)
      → IsValid g
      → system < 6
      → axis < 4
      → IsValid (shift_axis num system at axis found g)
  shift_axis-IsValid system at axis none g v l k = v
  shift_axis-IsValid system at axis (some x) g v l k = set_offset-IsValid system axis _ g v l k

  offset-shift_axis :
      (system : ℕ) (at : F) (axis s a : ℕ) (found : Option F) (g : GcodeParser F)
      → IsValid g
      → system < 6
      → axis < 4
      → offset num s a (shift_axis num system at axis found g)
        ≡ (if system == s && axis == a then moved at found (offset num s a g) else offset num s a g)
  offset-shift_axis system at axis s a none g v l k = ground arith
  offset-shift_axis system at axis s a (some x) g v l k =
      offset-set_offset system axis s a (num.sub at x) g v l k

  -- The axes of a list of axes with their letters.
  abbrev mentions : ℕ → List (ℕ × ℕ) → Bool
  mentions a [] = false
  mentions a ((axis, letter) ∷ axes) = axis == a || mentions a axes

  -- Each axis is one of the four, with its letter, and stands once.
  abbrev IsOrderly : List (ℕ × ℕ) → Type 0
  IsOrderly [] = Unit
  IsOrderly ((axis, letter) ∷ axes) =
      (axis < 4) × (letter ≡ letter_of axis) × (mentions axis axes ≡ false) × IsOrderly axes

  pub shift_axes-IsValid :
      (line : Bytes) (system : ℕ) (at : ℕ → F) (axes : List (ℕ × ℕ)) (g : GcodeParser F)
      → IsValid g
      → system < 6
      → IsOrderly axes
      → IsValid (shift_axes num line system at axes g)
  unfolding shift_axes
  shift_axes-IsValid line system at [] g v l o = v
  shift_axes-IsValid line system at ((axis, letter) ∷ axes) g v l (k, e, n, o) =
      shift_axes-IsValid line system at axes _
        (shift_axis-IsValid system (at axis) axis (parse_code num line letter) g v l k) l o

  offset-shift_axes :
      (line : Bytes) (system : ℕ) (at : ℕ → F) (s a : ℕ) (axes : List (ℕ × ℕ)) (g : GcodeParser F)
      → IsValid g
      → system < 6
      → IsOrderly axes
      → offset num s a (shift_axes num line system at axes g) ≡ (
          if system == s && mentions a axes
          then moved (at a) (parse_code num line (letter_of a)) (offset num s a g)
          else offset num s a g)
  unfolding shift_axes
  offset-shift_axes line system at s a [] g v l o = ground arith
  offset-shift_axes line system at s a ((axis, letter) ∷ axes) g v l (k, e, n, o) =
      let found = parse_code num line letter in
      let first = offset-shift_axis system (at axis) axis s a found g v l k in
      let rest =
        offset-shift_axes line system at s a axes (shift_axis num system (at axis) axis found g)
          (shift_axis-IsValid system (at axis) axis found g v l k) l o in
      let change : F → F = moved (at a) (parse_code num line (letter_of a)) in
      two_steps (system == s) (axis == a) (mentions a axes) change (offset num s a g) _ _
        (λ h. let same : axis ≡ a = ground arith in ap (λ (i : ℕ). mentions i axes) (sym same) ∙ n)
        (elim (Bool-cases (axis == a)) [
          | inl h ↦
              let same : axis ≡ a = ground arith in
              let known =
                ap (λ (c : ℕ). moved (at axis) (parse_code num line c) (offset num s a g)) e
                ∙ ap
                    (λ (i : ℕ). moved (at i) (parse_code num line (letter_of i)) (offset num s a g))
                    same in
              first ∙ ap (λ (d : F). if system == s && axis == a then d else offset num s a g) known
          | inr h ↦ rw h ((rw h at first) ∙ unused (system == s) _ _ _)
        ])
        rest

  pub axis_letters-IsOrderly : IsOrderly axis_letters
  axis_letters-IsOrderly = (
    omega arith,
    refl,
    refl,
    (omega arith, refl, refl, (omega arith, refl, refl, (omega arith, refl, refl, tt))),
  )

  -- With the offsets of a system shifted by a line, each axis that the line names has the machine's
  -- position less the named value for its offset in that system; every other offset, of this system
  -- and of the other five, is what it was, when the state is valid.
  pub shift_axes_lem :
      (line : Bytes) (system : ℕ) (at : ℕ → F) (s a : ℕ) (g : GcodeParser F)
      → IsValid g
      → system < 6
      → a < 4
      → offset num s a (shift_axes num line system at axis_letters g) ≡ (
          if system == s
          then moved (at a) (parse_code num line (letter_of a)) (offset num s a g)
          else offset num s a g)
  shift_axes_lem line system at s a g v l k =
      let named : mentions a axis_letters ≡ true = ground arith in
      let h = offset-shift_axes line system at s a axis_letters g v l axis_letters-IsOrderly in
      rw (and_true (system == s)) at (rw named at h)
