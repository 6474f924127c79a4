-- ===== src/BoardInputs/Debounce.antt =====
-- What the debouncing of src/board_inputs.cpp makes of the samples of an input.
use bisso_e350_controller.Base.{
  ℕ, suc, ◌+◌, ◌<◌, ◌≡◌, ◌≢◌, refl, Bool, true, false, if◌then◌else◌, leb, List, [], ◌∷◌, arith,
}
use bisso_e350_controller.BoardInputs.Polling.{InputLine, differs, debounce}

-- For how many of the latest samples the input has had a value; samples are listed with the latest
-- first, and before the first one the input was low.
unfoldable pub held : Bool → List Bool → ℕ
held v [] = 0
held v (s ∷ samples) = let n = held v samples in if differs v s then 0 else suc n

-- The last value that was held for 16 samples in a row, low at first.
unfoldable pub settled : List Bool → Bool
unfolding held
settled [] = false
settled (s ∷ samples) =
    let before = settled samples in if leb 16 (held s (s ∷ samples)) then s else before

-- The value of the latest sample.
abbrev pub latest : List Bool → Bool
latest [] = false
latest (s ∷ samples) = s

-- A line that has seen the samples.
abbrev pub FollowsAt : List Bool → Bool → Bool → ℕ → Type 0
FollowsAt samples last debounced count =
    (last ≡ latest samples)
    × (debounced ≡ settled samples)
    × (last ≡ debounced → count ≡ 0)
    × (last ≢ debounced → count + 1 ≡ held last samples)
    × (count < 15)

abbrev pub Follows : List Bool → InputLine → Type 0
Follows samples l = FollowsAt samples l.last_raw l.debounced l.stability_count

false≢true : false ≢ true
false≢true e = ground arith

true≢false : true ≢ false
true≢false e = ground arith

held-change :
    (v : Bool) (samples : List Bool) → differs v (latest samples) ≡ true → held v samples ≡ 0
unfolding held
held-change v [] e = refl
held-change v (s ∷ samples) e = ground arith

pub debounce-Follows :
    (s last value : Bool) (count : ℕ) (samples : List Bool)
    → FollowsAt samples last value count
    → Follows
        (s ∷ samples)
        (debounce s (record { last_raw = last; debounced = value; stability_count = count }))
unfolding debounce settled held
debounce-Follows true true true n samples (l, v, e, o, b) = ground arith
debounce-Follows true true false n samples (l, v, e, o, b) = let h = o true≢false in ground arith
debounce-Follows true false true n samples (l, v, e, o, b) = ground arith
debounce-Follows true false false n samples (l, v, e, o, b) =
    let h = held-change true samples (ground arith) in ground arith
debounce-Follows false true true n samples (l, v, e, o, b) =
    let h = held-change false samples (ground arith) in ground arith
debounce-Follows false true false n samples (l, v, e, o, b) = ground arith
debounce-Follows false false true n samples (l, v, e, o, b) = let h = o false≢true in ground arith
debounce-Follows false false false n samples (l, v, e, o, b) = ground arith
