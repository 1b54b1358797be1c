-- ===== src/Backend/Devices/Lookup.antt =====
-- main/usb_backend.c: the questions that the server asks of the table and of the virtual devices,
-- and their answers.
use esp_usbip_bridge.Base.{
  ℕ, zero, suc, ◌+◌, ◌-◌, ◌%◌, ◌≤◌, ◌<◌, ◌≡◌, refl, sym, ap, ◌∙◌, List, [], ◌∷◌, ◌++◌, Option, none,
  some, Bool, true, false, ◌&&◌, ◌==◌, ltb, length, get_elem?, get_or, find_from, find_from-some,
  find_from-none, Option-cases, inl, inr, arith, if_ind, if◌then◌else◌, busid_text,
  busid_text-injective, busid_text-ne, map, take-append, take-all, take, length-take,
}
use esp_usbip_bridge.Device.{Device, Endpoint, no_endpoint}
use esp_usbip_bridge.Registry.{Registry, VirtualDevice, busid_matches_key, find_by_busid, get_all}
use esp_usbip_bridge.Registry.Laws.{
  IsValid, busid_key, busid_matches_key_self, busid_matches_key-text, find_by_busid-eq-get_elem?,
}
use esp_usbip_bridge.Backend.Devices.{Table, DeviceSlot, find_slot_by_busid}
use esp_usbip_bridge.Backend.Devices.Tables.{IsTable}

-- The physical devices that fit into an array of so many.
unfoldable pub copy_in_use : ℕ → Table → List Device
copy_in_use zero t = []
copy_in_use (suc n) [] = []
copy_in_use (suc n) (s ∷ ss) =
    let rest = copy_in_use (suc n) ss in
    let more = copy_in_use n ss in if s.in_use then s.device ∷ more else rest

module _ {O : Type 0} where
  unfoldable pub usb_backend_get_devices : ℕ → Table → Registry O → List Device
  unfolding copy_in_use get_all
  usb_backend_get_devices max_devices t r =
      let physical = copy_in_use max_devices t in
      if ltb (length physical) max_devices
      then physical ++ get_all (max_devices - length physical) r
      else physical

  unfoldable pub usb_backend_get_device_by_busid : List ℕ → Table → Registry O → Option Device
  unfolding find_slot_by_busid
  usb_backend_get_device_by_busid busid t r =
      let virtual : Option Device = elim (find_by_busid (some busid) r) [
        | none ↦ none
        | some dev ↦ some dev.desc
      ] in
      elim (find_slot_by_busid busid t) [
        | none ↦ virtual
        | some slot ↦ elim (get_elem? t slot) [ none ↦ virtual | some s ↦ some s.device ]
      ]

-- The endpoint of an address among the first `n` from `i` on.
unfoldable pub find_endpoint : ℕ → ℕ → ℕ → List Endpoint → Option Endpoint
find_endpoint zero i addr eps = none
find_endpoint (suc n) i addr eps =
    let e = get_or eps i no_endpoint in
    let rest = find_endpoint n (suc i) addr eps in if e.address == addr then some e else rest

-- `(attributes & 0x03) == 0x03`.
unfoldable pub usb_backend_is_interrupt_endpoint : List ℕ → ℕ → Bool → Table → Bool
unfolding find_slot_by_busid find_endpoint
usb_backend_is_interrupt_endpoint busid ep_num is_in t =
    let ep_addr = if is_in && ltb ep_num 128 then ep_num + 128 else ep_num in
    elim (find_slot_by_busid busid t) [
      | none ↦ false
      | some slot ↦ elim (get_elem? t slot) [
        | none ↦ false
        | some s ↦ elim (find_endpoint s.device.num_endpoints 0 ep_addr s.device.endpoints) [
          | none ↦ false
          | some e ↦ e.attributes % 4 == 3
        ]
      ]
    ]

-- In a table of named devices the key of `1-n` finds the slot of the device of number `n`.
find_slot_by_busid-named :
    (t : Table) (i n : ℕ) (s : DeviceSlot)
    → IsTable t
    → get_elem? t i ≡ some s
    → s.in_use ≡ true
    → s.device.devnum ≡ n
    → find_slot_by_busid (busid_key 1 n) t ≡ some i
unfolding find_slot_by_busid
find_slot_by_busid-named t i n s v g used e =
    let test =
      λ (s' : DeviceSlot). s'.in_use && busid_matches_key (busid_key 1 n) s'.device.busid in
    let name = v.named i s g used in
    let hit : busid_matches_key (busid_key 1 n) s.device.busid ≡ true =
      busid_matches_key_self 1 n s.device.busid (name.name ∙ ap (busid_text 1) e) in
    elim (Option-cases (find_from test t 0)) [
      | inl f ↦ absurd (ground (arith, find_from-none test t 0 i s f g, used, hit))
      | inr (r, f) ↦
          let (k, s', at, g', both) = find_from-some test t 0 r f in
          let used' : s'.in_use ≡ true = ground (arith, both) in
          let hit' : busid_matches_key (busid_key 1 n) s'.device.busid ≡ true =
            ground (arith, both) in
          let name' = v.named k s' g' used' in
          let num : n ≡ s'.device.devnum =
            busid_text-injective 1 n s'.device.devnum (omega (arith, e, name.number))
              (omega (arith, name'.number))
              (busid_matches_key-text 1 n 1 s'.device.devnum s'.device.busid name'.name hit') in
          let same = v.distinct i k s s' g g' used used' (e ∙ num) in
          f ∙ ap some (omega (arith, at, same))
    ]

find_slot_by_busid-virtual :
    (t : Table) (n : ℕ) → IsTable t → find_slot_by_busid (busid_key 2 n) t ≡ none
unfolding find_slot_by_busid
find_slot_by_busid-virtual t n v =
    let test =
      λ (s' : DeviceSlot). s'.in_use && busid_matches_key (busid_key 2 n) s'.device.busid in
    elim (Option-cases (find_from test t 0)) [
      | inl f ↦ f
      | inr (r, f) ↦
          let (k, s', at, g', both) = find_from-some test t 0 r f in
          let name' = v.named k s' g' (ground (arith, both)) in
          absurd (
            busid_text-ne s'.device.devnum n (
              sym (
                busid_matches_key-text 2 n 1 s'.device.devnum s'.device.busid name'.name
                  (ground (arith, both)))))
    ]

-- The devices of the slots in use, in the order of the slots.
abbrev pub exported : Table → List Device
exported [] = []
exported (s ∷ ss) = if s.in_use then s.device ∷ exported ss else exported ss

copy_in_use-take : (n : ℕ) (t : Table) → copy_in_use n t ≡ take n (exported t)
unfolding copy_in_use
copy_in_use-take zero t = refl
copy_in_use-take (suc n) [] = refl
copy_in_use-take (suc n) (s ∷ ss) =
    ground (arith, copy_in_use-take (suc n) ss, copy_in_use-take n ss)

take_short : (xs ys : List Device) (n : ℕ) → n ≤ length xs → take n (xs ++ ys) ≡ take n xs
take_short xs ys zero h = refl
take_short [] ys (suc n) h = absurd (omega arith)
take_short (x ∷ xs) ys (suc n) h = ap (λ l. x ∷ l) (take_short xs ys n (omega arith))

module _ {O : Type 0} where
  get_all-take :
      (n : ℕ) (r : Registry O) → get_all n r ≡ take n (map (λ (d : VirtualDevice O). d.desc) r)
  unfolding get_all
  get_all-take zero r = refl
  get_all-take (suc n) [] = refl
  get_all-take (suc n) (d ∷ ds) = ap (λ l. d.desc ∷ l) (get_all-take n ds)

  -- `usb_backend_get_devices` returns the devices of the slots in use, in the order of the slots,
  -- then the virtual devices in the order of their registration, cut off at the size of the array.
  pub get_devices-take :
      (max_devices : ℕ) (t : Table) (r : Registry O)
      → usb_backend_get_devices max_devices t r
        ≡ take max_devices (exported t ++ map (λ (d : VirtualDevice O). d.desc) r)
  unfolding usb_backend_get_devices
  get_devices-take max_devices t r =
      let xs = exported t in
      let ys = map (λ (d : VirtualDevice O). d.desc) r in
      rw
        (
          copy_in_use-take max_devices t,
          get_all-take (max_devices - length (take max_devices xs)) r,
        )
        (if_ind (λ l. l ≡ take max_devices (xs ++ ys))
          (ltb (length (take max_devices xs)) max_devices)
          (λ e.
            let short : length xs < max_devices = ground (arith, e, length-take max_devices xs) in
            let size : length xs + (max_devices - length xs) ≡ max_devices = omega (arith, short) in
            ap (λ l. l ++ take (max_devices - length l) ys)
              (take-all xs max_devices (omega (arith, short)))
            ∙ sym (take-append xs ys (max_devices - length xs))
            ∙ ap (λ n. take n (xs ++ ys)) size)
          (λ e. sym (take_short xs ys max_devices (ground (arith, e, length-take max_devices xs)))))

  -- If every slot in use holds a device named `1-<devnum>`, of a number below 256 and no two of one
  -- number, then `usb_backend_get_device_by_busid` of the key of `1-n` returns the device of the
  -- slot in use that has number `n`, whatever the virtual devices are.
  pub get_device_by_busid-physical :
      (t : Table) (r : Registry O) (i n : ℕ) (s : DeviceSlot)
      → IsTable t
      → get_elem? t i ≡ some s
      → s.in_use ≡ true
      → s.device.devnum ≡ n
      → usb_backend_get_device_by_busid (busid_key 1 n) t r ≡ some s.device
  unfolding usb_backend_get_device_by_busid
  get_device_by_busid-physical t r i n s v g used e =
      rw (find_slot_by_busid-named t i n s v g used e, g, usb_backend_get_device_by_busid) refl

  -- If every slot in use holds a device named `1-<devnum>`, of a number below 256 and no two of one
  -- number, and the table of virtual devices is valid, then `usb_backend_get_device_by_busid` of the
  -- key of `2-(i+1)`, for `i` below 4294967295, returns the description of the virtual device at
  -- place `i`, and nothing if there is none.
  pub get_device_by_busid-virtual :
      (t : Table) (r : Registry O) (i : ℕ)
      → IsTable t
      → IsValid r
      → i < 4294967295
      → usb_backend_get_device_by_busid (busid_key 2 (suc i)) t r
        ≡ elim (get_elem? r i) [ none ↦ none | some dev ↦ some dev.desc ]
  unfolding usb_backend_get_device_by_busid
  get_device_by_busid-virtual t r i v w small =
      rw
        (
          find_slot_by_busid-virtual t (suc i) v,
          find_by_busid-eq-get_elem? r i w small,
          usb_backend_get_device_by_busid,
        )
        refl
