-- ===== src/Backend/Devices/Export.antt =====
-- main/usb_backend.c: the table of exported devices as devices come and go.
use esp_usbip_bridge.Base.{
  ℕ, ◌<◌, ◌≡◌, ◌≢◌, refl, sym, ap, ◌∙◌, List, [], ◌∷◌, none, some, true, false, not, ◌&&◌, ◌==◌,
  ==_iff, get_elem?, find_from, find_from-some, find_from-none, Option-cases, inl, inr, arith,
  if_ind, if◌then◌else◌, busid_text, busid_text-NoNul, length-busid_text, c_string-store_text,
}
use esp_usbip_bridge.Esp.{is_ok}
use esp_usbip_bridge.Device.{Device}
use esp_usbip_bridge.Backend.Descriptors.{is_hub_device}
use esp_usbip_bridge.Backend.Descriptors.Names.{parse_descriptors-SameName}
use esp_usbip_bridge.Backend.Devices.{
  DeviceDesc, DeviceInfo, UsbHost, DeviceSlot, Table, BackendEvent, new_dev, dev_gone,
  find_slot_by_devnum, find_free_slot, close_slot, find_slot_by_handle, describe_device,
  name_device, fill_slot, export_new_device, remove_gone_device, process_backend_events,
}
use esp_usbip_bridge.Backend.Devices.Slots.{SameBut, close_slot_lem}
use esp_usbip_bridge.Backend.Devices.Tables.{
  IsNamed, IsTable, HasNo, IsFree, same_or_not, filled-IsTable,
}

module _ {U : Type 0} (host : UsbHost U) where
  old_slot :
      (slot : ℕ) (t t' : Table)
      → SameBut host slot t t'
      → IsFree slot t'
      → (i : ℕ) (s : DeviceSlot) → get_elem? t' i ≡ some s
      → s.in_use ≡ true
      → (i ≢ slot) × (get_elem? t i ≡ some s)
  old_slot slot t t' same free i s g u = elim (same_or_not i slot) [
    | inl e ↦ absurd (ground (arith, free s (ap (get_elem? t') (sym e) ∙ g), u))
    | inr n ↦ (n, sym (same.others i n) ∙ g)
  ]

  freed-IsTable :
      (slot : ℕ) (t t' : Table) → SameBut host slot t t' → IsFree slot t' → IsTable t → IsTable t'
  freed-IsTable slot t t' same free v = record {
    named = λ i s g u. v.named i s (old_slot slot t t' same free i s g u).1 u;
    distinct = λ i j s s' g g' u u' e.
        v.distinct i j s s' (old_slot slot t t' same free i s g u).1
          (old_slot slot t t' same free j s' g' u').1 u u' e;
  }

  close_slot-IsTable :
      (slot : ℕ) (t : Table) (u : U) → IsTable t → IsTable (close_slot host slot t u).0
  close_slot-IsTable slot t u v =
      let (same, free) = close_slot_lem host slot t u in
      freed-IsTable slot t (close_slot host slot t u).0 same free v
      -- Once the device of a number is closed, none has the number.

  clear_number :
      (n : ℕ) (t : Table) (u : U)
      → IsTable t
      → let r : Table × U = elim (find_slot_by_devnum n t) [
        | none ↦ (t, u)
        | some slot ↦ close_slot host slot t u
      ] in
        IsTable r.0 × HasNo n r.0
  unfolding find_slot_by_devnum
  clear_number n t u v =
      let test = λ (s : DeviceSlot). s.in_use && s.device.devnum == n in
      elim (Option-cases (find_from test t 0)) [
        | inl e ↦ rw e (
          v,
          λ i s g used q.
              ground (arith, find_from-none test t 0 i s e g, used, q, ==_iff s.device.devnum n),
        )
        | inr (slot, e) ↦
            let (k, s, at, g, hit) = find_from-some test t 0 slot e in
            let (same, free) = close_slot_lem host slot t u in
            rw e (
              close_slot-IsTable slot t u v,
              λ i s' g' used q.
                  let (other, old) =
                    old_slot slot t (close_slot host slot t u).0 same free i s' g' used in
                  other (
                    omega (
                      arith,
                      v.distinct i k s' s old g used (ground (arith, hit))
                          (q ∙ ground (arith, hit, ==_iff s.device.devnum n)),
                      at,
                    )),
            )
      ]

  fill_slot-IsTable :
      (dev_hdl : ℕ) (device : Device) (t : Table) (u : U)
      → IsTable t
      → IsNamed device
      → IsTable (fill_slot host dev_hdl device t u).0
  unfolding fill_slot
  fill_slot-IsTable dev_hdl device t u v name =
      let r : Table × U = elim (find_slot_by_devnum device.devnum t) [
        | none ↦ (t, u)
        | some slot ↦ close_slot host slot t u
      ] in
      let (v1, fresh) = clear_number device.devnum t u v in
      elim (Option-cases (find_free_slot r.0)) [
        | inl e ↦ rw (e, fill_slot) v1
        | inr (slot, e) ↦
            rw (e, fill_slot)
              (filled-IsTable slot r.0
                (record {
                  in_use = true;
                  interfaces_claimed = false;
                  dev_hdl = dev_hdl;
                  device = device;
                })
                v1 name fresh)
      ]

  remove_gone_device-IsTable :
      (dev_hdl : ℕ) (t : Table) (u : U)
      → IsTable t
      → IsTable (remove_gone_device host dev_hdl t u).0
  unfolding remove_gone_device
  remove_gone_device-IsTable dev_hdl t u v = elim (Option-cases (find_slot_by_handle dev_hdl t)) [
    | inl e ↦ rw (e, remove_gone_device) v
    | inr (slot, e) ↦ rw (e, remove_gone_device) (close_slot-IsTable slot t u v)
  ]

  describe_device-devnum :
      (dev_hdl : ℕ) (desc : DeviceDesc) (info : DeviceInfo) (u : U)
      → (describe_device host dev_hdl desc info u).devnum ≡ info.dev_addr
  unfolding describe_device
  describe_device-devnum dev_hdl desc info u =
      if_ind (λ (d : Device). d.devnum ≡ info.dev_addr)
        (is_ok (host.get_active_config_descriptor dev_hdl u).0)
        (λ _. (parse_descriptors-SameName (host.get_active_config_descriptor dev_hdl u).1 _).devnum)
        (λ _. refl)

  -- What is put into the table carries the name of the address.
  described-IsNamed :
      (dev_hdl : ℕ) (desc : DeviceDesc) (info : DeviceInfo) (u : U)
      → info.dev_addr < 256
      → IsNamed (name_device host info.dev_addr (describe_device host dev_hdl desc info u))
  unfolding name_device
  described-IsNamed dev_hdl desc info u small =
      let d = describe_device host dev_hdl desc info u in
      let e = describe_device-devnum dev_hdl desc info u in
      record {
        number = omega (arith, e, small);
        name =
            c_string-store_text 32 (busid_text 1 info.dev_addr) d.busid
              (busid_text-NoNul 1 info.dev_addr) (omega (arith, length-busid_text 1 info.dev_addr))
            ∙ ap (busid_text 1) (sym e);
      }

  -- The address is a `uint8_t`.
  module _ (addresses : (dev_hdl : ℕ) (u : U) → (host.device_info dev_hdl u).1.dev_addr < 256) where
    described_slot-IsTable :
        (dev_hdl : ℕ) (desc : DeviceDesc) (info : DeviceInfo) (t : Table) (u : U)
        → info.dev_addr < 256
        → IsTable t
        → IsTable
            (fill_slot host dev_hdl
              (name_device host info.dev_addr (describe_device host dev_hdl desc info u))
              t
              u).0
    described_slot-IsTable dev_hdl desc info t u small v =
        fill_slot-IsTable dev_hdl
          (name_device host info.dev_addr (describe_device host dev_hdl desc info u)) t u v
          (described-IsNamed dev_hdl desc info u small)

    export_new_device-IsTable :
        (address : ℕ) (t : Table) (u : U)
        → IsTable t
        → IsTable (export_new_device host address t u).0
    unfolding export_new_device
    export_new_device-IsTable address t u v =
        let u1 = (host.device_open address u).2 in
        let dev_hdl = (host.device_open address u).1 in
        let info = (host.device_info dev_hdl u1).1 in
        if_ind (λ (r : Table × U). IsTable r.0) (not (is_ok (host.device_open address u).0))
          (λ _. v)
          (λ _.
            if_ind (λ (r : Table × U). IsTable r.0)
              (not (is_ok (host.get_device_descriptor dev_hdl u1).0)) (λ _. v)
              (λ _.
                elim (host.get_device_descriptor dev_hdl u1).1
                  as (λ o.
                    IsTable
                      (elim o as (λ _. Table × U) [
                        | none ↦ (t, (host.device_close dev_hdl u1).1)
                        | some desc ↦
                            let device = describe_device host dev_hdl desc info u1 in
                            if not (is_ok (host.device_info dev_hdl u1).0)
                            then (t, (host.device_close dev_hdl u1).1)
                            else if is_hub_device desc.b_device_class device
                            then (t, (host.device_close dev_hdl u1).1)
                            else fill_slot host dev_hdl (name_device host info.dev_addr device) t u1
                      ]).0) [
                        | none ↦ v
                        | some desc ↦
                            if_ind (λ (r : Table × U). IsTable r.0)
                              (not (is_ok (host.device_info dev_hdl u1).0)) (λ _. v)
                              (λ _.
                                if_ind (λ (r : Table × U). IsTable r.0)
                                  (is_hub_device desc.b_device_class
                                    (describe_device host dev_hdl desc info u1))
                                  (λ _. v)
                                  (λ _.
                                    described_slot-IsTable dev_hdl desc info t u1
                                      (addresses dev_hdl u1) v))
                      ]))

    -- Whatever events arrive and whatever the host library answers, as long as the addresses it
    -- gives are below 256: if every slot in use holds a device named `1-<devnum>`, of a number below
    -- 256, and no two of them are of one number, then this holds again after
    -- `process_backend_events`.
    pub process_backend_events-IsTable :
        (es : List BackendEvent) (t : Table) (u : U)
        → IsTable t
        → IsTable (process_backend_events host es t u).0
    unfolding process_backend_events
    process_backend_events-IsTable [] t u v = v
    process_backend_events-IsTable (new_dev address ∷ es) t u v =
        let (t', u') = export_new_device host address t u in
        process_backend_events-IsTable es t' u' (export_new_device-IsTable address t u v)
    process_backend_events-IsTable (dev_gone dev_hdl ∷ es) t u v =
        let (t', u') = remove_gone_device host dev_hdl t u in
        process_backend_events-IsTable es t' u' (remove_gone_device-IsTable dev_hdl t u v)
