-- ===== src/Backend/Descriptors/Names.antt =====
-- main/usb_backend.c: `parse_descriptors` and the names of a device.
use esp_usbip_bridge.Base.{
  ℕ, zero, suc, ◌+◌, ◌≡◌, refl, ◌∙◌, List, Option, none, some, ◌&&◌, ◌||◌, ◌==◌, leb, ltb, drop,
  byte_at, if_ind,
}
use esp_usbip_bridge.Device.{Device, max_endpoints}
use esp_usbip_bridge.Protocol.{max_interfaces}
use esp_usbip_bridge.Backend.Descriptors.{
  Parsed, parse_one, parse_loop, parse_descriptors, w_total_length, type_interface, type_endpoint,
}

-- Parsing a descriptor leaves the names alone.
pub record SameName (d d' : Device) : Type 0 where
  pub busid : d'.busid ≡ d.busid
  pub devnum : d'.devnum ≡ d.devnum

SameName-refl : (d : Device) → SameName d d
SameName-refl d = record { busid = refl; devnum = refl }

parse_one-SameName : (raw : List ℕ) (p : Parsed) → SameName p.device (parse_one raw p).device
unfolding parse_one
parse_one-SameName raw p =
    if_ind (λ (q : Parsed). SameName p.device q.device)
      (byte_at raw 1 == type_interface && leb 9 (byte_at raw 0) && ltb p.intf_count max_interfaces)
      (λ _. record { busid = refl; devnum = refl })
      (λ _.
        if_ind (λ (q : Parsed). SameName p.device q.device)
          (byte_at raw 1 == type_endpoint && leb 7 (byte_at raw 0) && ltb p.ep_count max_endpoints)
          (λ _. record { busid = refl; devnum = refl }) (λ _. SameName-refl p.device))

parse_loop-SameName :
    (fuel : ℕ) (raw : List ℕ) (total offset : ℕ) (p : Parsed)
    → SameName p.device (parse_loop fuel raw total offset p).device
unfolding parse_loop
parse_loop-SameName zero raw total offset p = SameName-refl p.device
parse_loop-SameName (suc fuel) raw total offset p =
    let one = parse_one-SameName (drop offset raw) p in
    let more =
      parse_loop-SameName fuel raw total (offset + byte_at (drop offset raw) 0)
        (parse_one (drop offset raw) p) in
    if_ind (λ (q : Parsed). SameName p.device q.device) (leb (offset + 2) total)
      (λ _.
        if_ind (λ (q : Parsed). SameName p.device q.device)
          (ltb (byte_at (drop offset raw) 0) 2 || ltb total (offset + byte_at (drop offset raw) 0))
          (λ _. SameName-refl p.device)
          (λ _. record { busid = more.busid ∙ one.busid; devnum = more.devnum ∙ one.devnum }))
      (λ _. SameName-refl p.device)

pub parse_descriptors-SameName :
    (config : Option (List ℕ)) (d : Device) → SameName d (parse_descriptors config d)
unfolding parse_descriptors
parse_descriptors-SameName none d = SameName-refl d
parse_descriptors-SameName (some raw) d =
    let r =
      parse_loop-SameName (w_total_length raw) raw (w_total_length raw) 0
        (record { device = d; intf_count = 0; ep_count = 0 }) in
    record { busid = r.busid; devnum = r.devnum }
