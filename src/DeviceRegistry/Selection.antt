-- ===== src/DeviceRegistry/Selection.antt =====
-- Which device `selectNextDevice` of src/rs485_device_registry.cpp chooses.
use bisso_e350_controller.Base.{
  ap, ◌∙◌, ℕ, suc, ◌+◌, ◌≤◌, ◌≡◌, refl, ◌⊎◌, inl, inr, Bool, true, Option, none, some, List, [],
  ◌∷◌, arith, All, get_elem?,
}
use mathlib.Core.Path.{subst}
use bisso_e350_controller.DeviceRegistry.Devices.{Device}
use bisso_e350_controller.DeviceRegistry.Bus.{
  is_due, score, better, select_from, select_next_device,
}

module _ (now : ℕ) (moving : Bool) where
  -- No device that may be polled has a longer weighted wait.
  abbrev pub NotBehind : ℕ → Device → Type 0
  NotBehind best d = is_due now moving d ≡ true → score now d ≤ best

  better-bound :
      (i : ℕ) (d : Device) (best : Option ℕ × ℕ)
      → (best.1 ≤ (better now moving i d best).1) × NotBehind (better now moving i d best).1 d
  better-bound i d best = (ground arith, λ e. ground arith)

  -- The longest weighted wait is not below that of the devices before, nor below that of any
  -- device that may be polled.
  from-bound :
      (i : ℕ) (devices : List Device) (best : Option ℕ × ℕ)
      → let result = select_from now moving i devices best in
        (best.1 ≤ result.1) × All (NotBehind result.1) devices
  from-bound i [] best = (omega arith, tt)
  from-bound i (d ∷ devices) best =
      let (le, first) = better-bound i d best in
      let (le', rest) = from-bound (suc i) devices (better now moving i d best) in
      (omega arith, ((λ e. let f = first e in omega arith), rest))

  -- The number is that of a device that may be polled and has this weighted wait.
  abbrev pub Chosen : ℕ → List Device → Option ℕ × ℕ → Type 0
  Chosen i devices result =
      (j : ℕ) × (d : Device) × (result ≡ (some (i + j), score now d))
      × (get_elem? devices j ≡ some d)
      × (is_due now moving d ≡ true)

  better-cases :
      (i : ℕ) (d : Device) (best : Option ℕ × ℕ)
      → (better now moving i d best ≡ best)
        ⊎ ((better now moving i d best ≡ (some (i + 0), score now d))
            × (is_due now moving d ≡ true))
  better-cases i d best = let e : i + 0 ≡ i = omega arith in rw e (ground arith)

  from-Chosen :
      (i : ℕ) (devices : List Device) (best : Option ℕ × ℕ)
      → (select_from now moving i devices best ≡ best)
        ⊎ Chosen i devices (select_from now moving i devices best)
  from-Chosen i [] best = inl refl
  from-Chosen i (d ∷ devices) best =
      elim (from-Chosen (suc i) devices (better now moving i d best)) [
        | inl e ↦ elim (better-cases i d best) [
          | inl same ↦ inl (e ∙ same)
          | inr (new, due) ↦ inr (0, d, e ∙ new, refl, due)
        ]
        | inr (j, d', e, at, due) ↦
            let shift : suc i + j ≡ i + suc j = omega arith in
            inr (suc j, d', rw (← shift) e, at, due)
      ]

  -- A device is selected that may be polled, being enabled, with no response pending, due, and not
  -- put off during motion, and no device that may be polled has a longer wait, weighted by its
  -- priority and taken modulo 2 ^ 32. None is selected only if each device that may be polled has a
  -- weighted wait of 0.
  pub select_next_device_lem :
      (devices : List Device)
      → ((select_next_device now moving devices ≡ none) × All (NotBehind 0) devices)
        ⊎ ((k : ℕ) × (d : Device) × (select_next_device now moving devices ≡ some k)
            × (get_elem? devices k ≡ some d)
            × (is_due now moving d ≡ true)
            × All (NotBehind (score now d)) devices)
  unfolding select_next_device
  select_next_device_lem devices =
      let (le, bound) = from-bound 0 devices (none, 0) in
      elim (from-Chosen 0 devices (none, 0)) [
        | inl e ↦
            inl (ap (λ r. r.0) e, subst (λ (r : Option ℕ × ℕ). All (NotBehind r.1) devices) e bound)
        | inr (j, d, e, at, due) ↦
            let z : 0 + j ≡ j = omega arith in
            inr (
              j,
              d,
              ap (λ r. r.0) e ∙ ap some z,
              at,
              due,
              subst (λ (r : Option ℕ × ℕ). All (NotBehind r.1) devices) e bound,
            )
      ]
