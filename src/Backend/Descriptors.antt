-- ===== src/Backend/Descriptors.antt =====
-- main/usb_backend.c: `parse_descriptors`, `is_hub_device` and `usb_speed_to_usbip`. A descriptor is
-- the list of its bytes, with whatever lies behind it in memory.
pub mod Laws
pub mod Names
use esp_usbip_bridge.Base.{
  ℕ, zero, suc, ◌+◌, ◌*◌, List, [], ◌∷◌, Option, none, some, Bool, true, false, ◌&&◌, ◌||◌, byte_at,
  drop, set, get_or, ltb, leb, ◌==◌, if◌then◌else◌,
}
use esp_usbip_bridge.Protocol.{max_interfaces}
use esp_usbip_bridge.Device.{Device, Interface, Endpoint, max_endpoints, no_interface}

-- `usb_speed_t`; any other value is the `default` of the switch.
pub data UsbSpeed : Type 0 where
  speed_low speed_full speed_high speed_other : UsbSpeed

unfoldable pub usb_speed_to_usbip : UsbSpeed → ℕ
usb_speed_to_usbip speed_low = 1
usb_speed_to_usbip speed_full = 2
usb_speed_to_usbip speed_high = 3
usb_speed_to_usbip speed_other = 0

abbrev pub type_interface : ℕ
type_interface = 4

abbrev pub type_endpoint : ℕ
type_endpoint = 5

abbrev pub class_hub : ℕ
class_hub = 9

-- The device that is filled, with `intf_count` and `ep_count`.
pub record Parsed : Type 0 where
  pub device : Device
  pub intf_count : ℕ
  pub ep_count : ℕ

abbrev pub read_interface : List ℕ → Interface
read_interface d = record {
  interface_class = byte_at d 5;
  interface_subclass = byte_at d 6;
  interface_protocol = byte_at d 7;
}

-- `raw[offset + 4] | (raw[offset + 5] << 8)`: the two bytes share no bit.
abbrev pub read_endpoint : List ℕ → Endpoint
read_endpoint d = record {
  address = byte_at d 2;
  attributes = byte_at d 3;
  max_packet_size = byte_at d 4 + byte_at d 5 * 256;
  interval = byte_at d 6;
}

abbrev pub add_interface : Interface → Parsed → Parsed
add_interface i p =
    let d = p.device in
    record p {
      device = record d { interfaces = set d.interfaces p.intf_count i };
      intf_count = p.intf_count + 1;
    }

abbrev pub add_endpoint : Endpoint → Parsed → Parsed
add_endpoint e p =
    let d = p.device in
    record p {
      device = record d { endpoints = set d.endpoints p.ep_count e };
      ep_count = p.ep_count + 1;
    }

-- One descriptor, `d` being `raw + offset`.
unfoldable pub parse_one : List ℕ → Parsed → Parsed
parse_one d p =
    let desc_len = byte_at d 0 in
    let desc_type = byte_at d 1 in
    if desc_type == type_interface && leb 9 desc_len && ltb p.intf_count max_interfaces
    then add_interface (read_interface d) p
    else if desc_type == type_endpoint && leb 7 desc_len && ltb p.ep_count max_endpoints
    then add_endpoint (read_endpoint d) p
    else p

-- The loop. Each descriptor takes two bytes at least, so `total_len` rounds are enough.
unfoldable pub parse_loop : ℕ → List ℕ → ℕ → ℕ → Parsed → Parsed
unfolding parse_one
parse_loop zero raw total_len offset p = p
parse_loop (suc fuel) raw total_len offset p =
    let d = drop offset raw in
    let desc_len = byte_at d 0 in
    let rest = parse_loop fuel raw total_len (offset + desc_len) (parse_one d p) in
    if leb (offset + 2) total_len
    then if ltb desc_len 2 || ltb total_len (offset + desc_len) then p else rest
    else p

abbrev pub w_total_length : List ℕ → ℕ
w_total_length raw = byte_at raw 2 + byte_at raw 3 * 256

unfoldable pub finish_parse : Parsed → Device
finish_parse p =
    let d = p.device in record d { num_interfaces = p.intf_count; num_endpoints = p.ep_count }

-- `config_desc` may be NULL.
unfoldable pub parse_descriptors : Option (List ℕ) → Device → Device
unfolding parse_loop finish_parse
parse_descriptors none device = device
parse_descriptors (some raw) device = finish_parse (
    parse_loop (w_total_length raw) raw (w_total_length raw) 0
      (record { device = device; intf_count = 0; ep_count = 0 }))

-- Whether an interface from `i` on, of `n`, is a hub's.
unfoldable pub has_hub_interface : ℕ → ℕ → List Interface → Bool
has_hub_interface zero i intfs = false
has_hub_interface (suc n) i intfs =
    let rest = has_hub_interface n (suc i) intfs in
    if (get_or intfs i no_interface).interface_class == class_hub then true else rest

-- `device_class` is `bDeviceClass` of the device descriptor, which the caller has tested for NULL.
unfoldable pub is_hub_device : ℕ → Device → Bool
unfolding has_hub_interface
is_hub_device device_class d =
    if device_class == class_hub then true else has_hub_interface d.num_interfaces 0 d.interfaces
