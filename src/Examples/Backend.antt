-- ===== src/Examples/Backend.antt =====
-- The theorems on the exported devices at a host with one device.
use esp_usbip_bridge.Base.{
  ℕ, zero, suc, ◌+◌, ◌≤◌, ◌<◌, ◌≡◌, ◌≢◌, refl, sym, ap, ◌∙◌, List, [], ◌∷◌, ◌++◌, Option, none,
  some, Bool, true, false, arith, inl, inr, ◌⊎◌, length, take, replicate, get_elem?, map,
  busid_text,
}
use esp_usbip_bridge.Esp.{esp_ok}
use esp_usbip_bridge.Device.{zero_device}
use esp_usbip_bridge.Registry.{Registry}
use esp_usbip_bridge.Registry.Laws.{IsValid}
use esp_usbip_bridge.Backend.Descriptors.{UsbSpeed, parse_descriptors, finish_parse}
use esp_usbip_bridge.Backend.Descriptors.Laws.{
  concat, parse_each, parse_descriptors_bounds, parse_descriptors-concat,
}
use esp_usbip_bridge.Backend.Devices.{
  UsbHost, DeviceSlot, Table, zero_slot, new_dev, dev_gone, process_backend_events,
}
use esp_usbip_bridge.Backend.Devices.Tables.{IsTable}
use esp_usbip_bridge.Backend.Devices.Export.{process_backend_events-IsTable}
use esp_usbip_bridge.Backend.Devices.Lookup.{}

-- An interface and an endpoint behind the configuration descriptor of a printer.
abbrev descriptors : List (List ℕ)
descriptors =
    (9 ∷ 2 ∷ 25 ∷ 0 ∷ 1 ∷ 1 ∷ 0 ∷ 128 ∷ 50 ∷ [])
    ∷ (9 ∷ 4 ∷ 0 ∷ 0 ∷ 1 ∷ 7 ∷ 1 ∷ 2 ∷ 0 ∷ [])
    ∷ (7 ∷ 5 ∷ 1 ∷ 2 ∷ 64 ∷ 0 ∷ 0 ∷ [])
    ∷ []

parse_descriptors_bounds_example :
    let d' = parse_descriptors (some (concat descriptors)) zero_device in
    (d'.num_interfaces ≤ 8)
    × (d'.num_endpoints ≤ 16)
    × (length d'.interfaces ≡ 8)
    × (length d'.endpoints ≡ 16)
parse_descriptors_bounds_example =
    parse_descriptors_bounds (concat descriptors) zero_device refl refl

parse_descriptors-concat_example :
    parse_descriptors (some (concat descriptors)) zero_device
    ≡ finish_parse
        (parse_each descriptors (record { device = zero_device; intf_count = 0; ep_count = 0 }))
parse_descriptors-concat_example =
    parse_descriptors-concat descriptors zero_device
      ((refl, omega arith), ((refl, omega arith), ((refl, omega arith), tt))) refl

-- A host on which every address is a device of address 5.
abbrev pub test_usb : UsbHost Unit
test_usb = record {
  device_open = λ a u. (esp_ok, 100 + a, u);
  device_close = λ d u. (esp_ok, u);
  get_device_descriptor = λ d u. (
    esp_ok,
    some (record {
      b_device_class = 0;
      b_device_sub_class = 0;
      b_device_protocol = 0;
      vendor = 1;
      product = 2;
      bcd = 256;
      num_configs = 1;
    }),
  );
  device_info =
      λ d u. (esp_ok, record { dev_addr = 5; link_speed = UsbSpeed.speed_full; config_value = 1 });
  get_active_config_descriptor = λ d u. (esp_ok, some (concat descriptors));
  interface_claim = λ d i u. (esp_ok, u);
  interface_release = λ d i u. (esp_ok, u);
}

abbrev pub empty_table : Table
empty_table = zero_slot ∷ zero_slot ∷ []

empty_slot : (i : ℕ) (s : DeviceSlot) → get_elem? empty_table i ≡ some s → s.in_use ≡ false
empty_slot zero s e = ground (arith, e)
empty_slot (suc zero) s e = ground (arith, e)
empty_slot (suc (suc i)) s e = absurd (ground (arith, e))

empty_table-IsTable : IsTable empty_table
empty_table-IsTable = record {
  named = λ i s e u. absurd (ground (arith, empty_slot i s e, u));
  distinct = λ i j s s' e e' u u' q. absurd (ground (arith, empty_slot i s e, u));
}

-- A device comes, another of its number comes, and the second goes.
process_backend_events_example :
    IsTable
      (process_backend_events test_usb (new_dev 1 ∷ new_dev 2 ∷ dev_gone 102 ∷ []) empty_table tt).0
process_backend_events_example =
    process_backend_events-IsTable test_usb (λ d u. omega arith)
      (new_dev 1 ∷ new_dev 2 ∷ dev_gone 102 ∷ []) empty_table tt empty_table-IsTable

abbrev pub one_table : Table
one_table = (process_backend_events test_usb (new_dev 1 ∷ []) empty_table tt).0

pub one_table-IsTable : IsTable one_table
one_table-IsTable =
    process_backend_events-IsTable test_usb (λ d u. omega arith) (new_dev 1 ∷ []) empty_table tt
      empty_table-IsTable

abbrev pub first_slot : DeviceSlot
first_slot = elim (get_elem? one_table 0) [ none ↦ zero_slot | some s ↦ s ]

abbrev virtuals : Registry Unit
virtuals =
    record {
      address = 1;
      ops = some tt;
      desc = record zero_device { busnum = 2; devnum = 1; busid = busid_text 2 1 };
    }
    ∷ []

virtuals-IsValid : IsValid virtuals
unfolding busid_text esp_usbip_bridge.Base.c_string esp_usbip_bridge.Base.decimal
virtuals-IsValid = record { room = omega arith; numbered = (refl, refl, refl, tt) }
