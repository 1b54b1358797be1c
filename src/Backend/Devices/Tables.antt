-- ===== src/Backend/Devices/Tables.antt =====
-- main/usb_backend.c: the invariant of the table of exported devices.
use esp_usbip_bridge.Base.{
  ℕ, ◌<◌, ◌≡◌, ◌≢◌, sym, ap, ◌∙◌, subst, some, true, false, ◌==◌, ==_iff, length-set, set,
  get_elem?, get_elem?-set_self, get_elem?-set_ne, get_elem?-length, Bool-cases, ◌⊎◌, inl, inr,
  arith, c_string, busid_text,
}
use esp_usbip_bridge.Device.{Device}
use esp_usbip_bridge.Backend.Devices.{DeviceSlot, Table}

-- A device carries the name that goes with its number on bus 1.
pub record IsNamed (d : Device) : Type 0 where
  pub number : d.devnum < 256
  pub name : c_string d.busid ≡ busid_text 1 d.devnum

pub record IsTable (t : Table) : Type 0 where
  pub named : (i : ℕ) (s : DeviceSlot) → get_elem? t i ≡ some s → s.in_use ≡ true → IsNamed s.device
  pub distinct :
      (i j : ℕ) (s s' : DeviceSlot)
      → get_elem? t i ≡ some s
      → get_elem? t j ≡ some s'
      → s.in_use ≡ true
      → s'.in_use ≡ true
      → s.device.devnum ≡ s'.device.devnum
      → i ≡ j

-- No slot in use has the number.
abbrev pub HasNo : ℕ → Table → Type 0
HasNo n t =
    (i : ℕ) (s : DeviceSlot) → get_elem? t i ≡ some s → s.in_use ≡ true → s.device.devnum ≢ n

abbrev pub IsFree : ℕ → Table → Type 0
IsFree slot t = (s : DeviceSlot) → get_elem? t slot ≡ some s → s.in_use ≡ false

pub same_or_not : (i j : ℕ) → (i ≡ j) ⊎ (i ≢ j)
same_or_not i j = elim (Bool-cases (i == j)) [
  | inl e ↦ inl (ground (arith, ==_iff i j, e))
  | inr e ↦ inr (ground (arith, ==_iff i j, e))
]

pub slot_of_set :
    (slot : ℕ) (t : Table) (new : DeviceSlot) (i : ℕ) (s : DeviceSlot)
    → get_elem? (set t slot new) i ≡ some s
    → ((i ≡ slot) × (s ≡ new)) ⊎ ((i ≢ slot) × (get_elem? t i ≡ some s))
slot_of_set slot t new i s g = elim (same_or_not i slot) [
  | inl e ↦
      let g' = sym (ap (get_elem? (set t slot new)) e) ∙ g in
      let inside = get_elem?-length (set t slot new) slot s g' in
      inl (
        e,
        ground (
          arith,
          g',
          get_elem?-set_self t slot new (omega (arith, inside, length-set t slot new)),
        ),
      )
  | inr n ↦ inr (n, sym (get_elem?-set_ne t new (λ e. n (sym e))) ∙ g)
]

-- The table with a named device of a new number at a place.
pub filled-IsTable :
    (slot : ℕ) (t : Table) (new : DeviceSlot)
    → IsTable t
    → IsNamed new.device
    → HasNo new.device.devnum t
    → IsTable (set t slot new)
filled-IsTable slot t new v name fresh = record {
  named = λ i s g u. elim (slot_of_set slot t new i s g) [
    | inl (e, q) ↦ subst (λ (x : DeviceSlot). IsNamed x.device) (sym q) name
    | inr (n, g') ↦ v.named i s g' u
  ];
  distinct = λ i j s s' g g' u u' e. elim (slot_of_set slot t new i s g) [
    | inl (p, q) ↦ elim (slot_of_set slot t new j s' g') [
      | inl (p', q') ↦ p ∙ sym p'
      | inr (n, h') ↦ absurd (fresh j s' h' u' (sym e ∙ ap (λ (x : DeviceSlot). x.device.devnum) q))
    ]
    | inr (n, h) ↦ elim (slot_of_set slot t new j s' g') [
      | inl (p', q') ↦ absurd (fresh i s h u (e ∙ ap (λ (x : DeviceSlot). x.device.devnum) q'))
      | inr (n', h') ↦ v.distinct i j s s' h h' u u' e
    ]
  ];
}
