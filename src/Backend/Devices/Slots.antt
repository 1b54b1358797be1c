-- ===== src/Backend/Devices/Slots.antt =====
-- main/usb_backend.c: what closing a slot does to the table.
use esp_usbip_bridge.Base.{
  ℕ, ◌<◌, ◌≡◌, ◌≢◌, refl, sym, ◌∙◌, some, false, not, ◌||◌, length, length-set, set, get_elem?,
  get_elem?-set_self, get_elem?-set_ne, get_elem?-length, Option-cases, Bool-cases, inl, inr, arith,
  if_ind,
}
use esp_usbip_bridge.Backend.Devices.{
  UsbHost, DeviceSlot, Table, zero_slot, clear_slot, release_interfaces, close_slot,
}

module _ {U : Type 0} (host : UsbHost U) where
  -- The table is the old one but at a slot.
  pub record SameBut (slot : ℕ) (t t' : Table) : Type 0 where
    pub size : length t' ≡ length t
    pub others : (i : ℕ) → i ≢ slot → get_elem? t' i ≡ get_elem? t i

  SameBut-refl : (slot : ℕ) (t : Table) → SameBut slot t t
  SameBut-refl slot t = record { size = refl; others = λ i n. refl }

  SameBut-set : (slot : ℕ) (t : Table) (s : DeviceSlot) → SameBut slot t (set t slot s)
  SameBut-set slot t s = record {
    size = length-set t slot s;
    others = λ i n. get_elem?-set_ne t s (λ e. n (sym e));
  }

  pub release_interfaces-SameBut :
      (slot : ℕ) (t : Table) (u : U) → SameBut slot t (release_interfaces host slot t u).0
  unfolding release_interfaces
  release_interfaces-SameBut slot t u = elim (Option-cases (get_elem? t slot)) [
    | inl e ↦ rw (e, release_interfaces) (SameBut-refl slot t)
    | inr (s, e) ↦
        rw (e, release_interfaces)
          (if_ind (λ (r : Table × U). SameBut slot t r.0) (not s.in_use || not s.interfaces_claimed)
            (λ _. SameBut-refl slot t)
            (λ _. SameBut-set slot t (record s { interfaces_claimed = false })))
  ]

  -- A slot that is closed is free, and every other slot is as it was.
  pub close_slot_lem :
      (slot : ℕ) (t : Table) (u : U)
      → let t' = (close_slot host slot t u).0 in
        SameBut slot t t' × ((s : DeviceSlot) → get_elem? t' slot ≡ some s → s.in_use ≡ false)
  unfolding close_slot clear_slot
  close_slot_lem slot t u = elim (Option-cases (get_elem? t slot)) [
    | inl e ↦ rw (e, close_slot) (SameBut-refl slot t, λ s g. absurd (ground (arith, e, g)))
    | inr (s, e) ↦
        let (t1, u1) = release_interfaces host slot t u in
        let same = release_interfaces-SameBut slot t u in
        let inside : slot < length t1 = omega (arith, same.size, get_elem?-length t slot s e) in
        elim (Bool-cases s.in_use) [
          | inl p ↦
              rw (e, close_slot)
                (rw (p, close_slot)
                  (
                    record {
                      size = length-set t1 slot zero_slot ∙ same.size;
                      others =
                          λ i n. get_elem?-set_ne t1 zero_slot (λ q. n (sym q)) ∙ same.others i n;
                    },
                    λ s' g. ground (arith, get_elem?-set_self t1 slot zero_slot inside, g),
                  ))
          | inr p ↦
              rw (e, close_slot)
                (rw (p, close_slot) (SameBut-refl slot t, λ s' g. ground (arith, e, g, p)))
        ]
  ]
