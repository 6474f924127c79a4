-- ===== src/DeviceRegistry/Order.antt =====
-- The devices of src/rs485_device_registry.cpp stay few, sorted by priority, and of different
-- addresses.
use bisso_e350_controller.Base.{
  branch, branches, ap, ℕ, suc, ◌≤◌, ◌<◌, ◌≡◌, refl, ◌⊎◌, inl, inr, Bool, true, false, Bool-cases,
  not, ◌&&◌, ◌||◌, ltb, leb, ◌==◌, some, Option-cases, List, [], ◌∷◌, arith, All, length,
}
use mathlib.Core.Path.{subst}
use bisso_e350_controller.DeviceRegistry.Devices.{
  Device, Registry, rs485_max_devices, has_address, insert, fresh, register_device, remove,
  unregister_device, find_address,
}

abbrev pub AtMost : ℕ → Device → Type 0
AtMost p d = d.priority ≤ p

abbrev pub Sorted : List Device → Type 0
Sorted [] = Unit {0}
Sorted (d ∷ devices) = All (AtMost d.priority) devices × Sorted devices

abbrev pub Distinct : List Device → Type 0
Distinct [] = Unit {0}
Distinct (d ∷ devices) = (has_address d.slave_address devices ≡ false) × Distinct devices

pub record IsOrdered (devices : List Device) : Type 0 where
  pub few : length devices ≤ rs485_max_devices
  pub sorted : Sorted devices
  pub distinct : Distinct devices

All-le : (p q : ℕ) (devices : List Device) → p ≤ q → All (AtMost p) devices → All (AtMost q) devices
All-le p q [] le h = tt
All-le p q (d ∷ devices) le h = (omega arith, All-le p q devices le h.1)

All-insert :
    (p : ℕ) (x : Device) (devices : List Device)
    → x.priority ≤ p
    → All (AtMost p) devices
    → All (AtMost p) (insert x devices)
All-insert p x [] le h = (le, tt)
All-insert p x (d ∷ devices) le h =
    branches (All (AtMost p)) (ltb d.priority x.priority) _ _ (le, h)
      (h.0, All-insert p x devices le h.1)

insert-Sorted : (x : Device) (devices : List Device) → Sorted devices → Sorted (insert x devices)
insert-Sorted x [] h = (tt, tt)
insert-Sorted x (d ∷ devices) h =
    branch Sorted (ltb d.priority x.priority) _ _
      (λ lt. ((ground arith, All-le d.priority x.priority devices (ground arith) h.0), h))
      (λ ge. (All-insert d.priority x devices (ground arith) h.0, insert-Sorted x devices h.1))

length-insert :
    (x : Device) (devices : List Device) → length (insert x devices) ≡ suc (length devices)
length-insert x [] = refl
length-insert x (d ∷ devices) = ground (arith, length-insert x devices)

has_address-insert :
    (a : ℕ) (x : Device) (devices : List Device)
    → has_address a (insert x devices) ≡ (x.slave_address == a || has_address a devices)
has_address-insert a x [] = refl
has_address-insert a x (d ∷ devices) = ground (arith, has_address-insert a x devices)

insert-Distinct :
    (x : Device) (devices : List Device)
    → has_address x.slave_address devices ≡ false
    → Distinct devices
    → Distinct (insert x devices)
insert-Distinct x [] n h = (n, tt)
insert-Distinct x (d ∷ devices) n h =
    branches Distinct (ltb d.priority x.priority) _ _ (n, h)
      (
        ground (arith, has_address-insert d.slave_address x devices),
        insert-Distinct x devices (ground arith) h.1,
      )

register-IsOrdered :
    (d : Device) (r : Registry) → IsOrdered r.devices → IsOrdered (register_device d r).0.devices
unfolding register_device
register-IsOrdered d r h =
    branch {A = Registry × Bool} (λ x. IsOrdered x.0.devices)
      (leb rs485_max_devices (length r.devices)) _ _ (λ _. h)
      λ room.
        branch {A = Registry × Bool} (λ x. IsOrdered x.0.devices)
          (has_address d.slave_address r.devices) _ _ (λ _. h)
          λ new. record {
            few = omega (arith, length-insert (fresh d) r.devices, below room);
            sorted = insert-Sorted (fresh d) r.devices h.sorted;
            distinct = insert-Distinct (fresh d) r.devices new h.distinct;
          }
  where
    below : {n : ℕ} → leb rs485_max_devices n ≡ false → n < rs485_max_devices
    below e = ground arith

-- What the devices that are left have from those before.
record IsPart (left devices : List Device) : Type 0 where
  shorter : suc (length left) ≡ length devices
  no_address : (a : ℕ) → has_address a devices ≡ false → has_address a left ≡ false
  at_most : (p : ℕ) → All (AtMost p) devices → All (AtMost p) left
  still_sorted : Sorted devices → Sorted left
  still_distinct : Distinct devices → Distinct left

tail-IsPart : (d : Device) (devices : List Device) → IsPart devices (d ∷ devices)
tail-IsPart d devices = record {
  shorter = refl;
  no_address = λ a h. ground arith;
  at_most = λ p h. h.1;
  still_sorted = λ h. h.1;
  still_distinct = λ h. h.1;
}

cons-IsPart :
    (d : Device) (left devices : List Device)
    → IsPart left devices
    → IsPart (d ∷ left) (d ∷ devices)
cons-IsPart d left devices k = record {
  shorter = ap suc k.shorter;
  no_address = λ a h. ground (arith, k.no_address a);
  at_most = λ p h. (h.0, k.at_most p h.1);
  still_sorted = λ h. (k.at_most d.priority h.0, k.still_sorted h.1);
  still_distinct = λ h. (k.no_address d.slave_address h.0, k.still_distinct h.1);
}

remove-IsPart :
    (id : ℕ) (devices left : List Device) → remove id devices ≡ some left → IsPart left devices
remove-IsPart id [] left e = absurd (ground arith)
remove-IsPart id (d ∷ devices) left e = elim (Bool-cases (d.id == id)) [
  | inl here ↦
      let g : devices ≡ left = ground arith in
      subst (λ l. IsPart l (d ∷ devices)) g (tail-IsPart d devices)
  | inr other ↦ elim (Option-cases (remove id devices)) [
    | inl gone ↦ absurd (ground arith)
    | inr (rest, f) ↦
        let g : d ∷ rest ≡ left = ground arith in
        subst (λ l. IsPart l (d ∷ devices)) g
          (cons-IsPart d rest devices (remove-IsPart id devices rest f))
  ]
]

unregister-IsOrdered :
    (id : ℕ) (r : Registry) → IsOrdered r.devices → IsOrdered (unregister_device id r).0.devices
unfolding unregister_device
unregister-IsOrdered id r h = elim (Option-cases (remove id r.devices)) [
  | inl e ↦ rw (e, unregister_device) h
  | inr (left, e) ↦
      let k = remove-IsPart id r.devices left e in
      rw (e, unregister_device)
        (record {
          few = omega (arith, k.shorter, h.few);
          sorted = k.still_sorted h.sorted;
          distinct = k.still_distinct h.distinct;
        })
]

-- A change of the set of devices, from any task.
pub data Change : Type 0 where
  register : Device → Change
  unregister : ℕ → Change

unfoldable pub apply : Change → Registry → Registry
apply (register d) r = (register_device d r).0
apply (unregister id) r = (unregister_device id r).0

unfoldable pub apply_all : List Change → Registry → Registry
apply_all [] r = r
apply_all (c ∷ changes) r = apply_all changes (apply c r)

apply-IsOrdered : (c : Change) (r : Registry) → IsOrdered r.devices → IsOrdered (apply c r).devices
unfolding apply
apply-IsOrdered (register d) r h = register-IsOrdered d r h
apply-IsOrdered (unregister id) r h = unregister-IsOrdered id r h

-- However devices are registered and unregistered, there are at most 8, they stand in the order of
-- their priorities, the highest first, and no two have the same address.
pub apply_all-IsOrdered :
    (changes : List Change) (r : Registry)
    → IsOrdered r.devices
    → IsOrdered (apply_all changes r).devices
unfolding apply_all
apply_all-IsOrdered [] r h = h
apply_all-IsOrdered (c ∷ changes) r h =
    apply_all-IsOrdered changes (apply c r) (apply-IsOrdered c r h)

find-insert :
    (x : Device) (devices : List Device)
    → has_address x.slave_address devices ≡ false
    → find_address x.slave_address (insert x devices) ≡ some x
unfolding find_address
find-insert x [] h = ground arith
find-insert x (d ∷ devices) h = ground (arith, find-insert x devices)

-- Registration succeeds exactly if there are fewer than 8 devices and none has the address. Then the
-- device is found by its address, its statistics reset; else nothing changes.
pub find-register :
    (d : Device) (r : Registry)
    → let (r', done) = register_device d r in
      (done
        ≡ (ltb (length r.devices) rs485_max_devices && not (has_address d.slave_address r.devices)))
      × (((done ≡ true) × (find_address d.slave_address r'.devices ≡ some (fresh d)))
          ⊎ ((done ≡ false) × (r' ≡ r)))
unfolding register_device
find-register d r = ground (arith, find-insert (fresh d) r.devices)
