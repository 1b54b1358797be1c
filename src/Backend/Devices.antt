-- ===== src/Backend/Devices.antt =====
-- main/usb_backend.c: the table of the exported devices, how devices come and go, and the lookups that
-- the server makes. `usb_host_*` is the ESP-IDF host library: the operations of `UsbHost`, over its
-- state `U`. The state mutex is held over each of these functions or around its access to the table,
-- so a function is one step on the table.
pub mod Slots
pub mod Tables
pub mod Export
pub mod Lookup
use esp_usbip_bridge.Base.{
  ℕ, zero, suc, ◌+◌, ◌-◌, ◌%◌, List, [], ◌∷◌, ◌++◌, Option, none, some, Bool, true, false, ◌&&◌,
  ◌||◌, not, is_some, length, set, get_elem?, get_or, replicate, take, find_from, ltb, leb, ◌==◌,
  if◌then◌else◌, u8, codes, busid_text, store_text,
}
use esp_usbip_bridge.Esp.{EspErr, esp_ok, esp_err_invalid_state, is_ok}
use esp_usbip_bridge.Device.{Device, Endpoint, no_endpoint, zero_device}
use esp_usbip_bridge.Registry.{Registry, busid_matches_key, find_by_busid, get_all}
use esp_usbip_bridge.Backend.Descriptors.{
  UsbSpeed, usb_speed_to_usbip, parse_descriptors, is_hub_device,
}

-- `usb_device_desc_t`, as far as it is read.
pub record DeviceDesc : Type 0 where
  pub b_device_class : ℕ
  pub b_device_sub_class : ℕ
  pub b_device_protocol : ℕ
  pub vendor : ℕ
  pub product : ℕ
  pub bcd : ℕ
  pub num_configs : ℕ

-- `usb_device_info_t`, as far as it is read.
pub record DeviceInfo : Type 0 where
  pub dev_addr : ℕ
  pub link_speed : UsbSpeed
  pub config_value : ℕ

-- A device handle is a number, and 0 is NULL.
pub record UsbHost (U : Type 0) : Type 0 where
  pub device_open : ℕ → U → EspErr × ℕ × U
  pub device_close : ℕ → U → EspErr × U
  pub get_device_descriptor : ℕ → U → EspErr × Option DeviceDesc
  pub device_info : ℕ → U → EspErr × DeviceInfo
  pub get_active_config_descriptor : ℕ → U → EspErr × Option (List ℕ)
  pub interface_claim : ℕ → ℕ → U → EspErr × U
  pub interface_release : ℕ → ℕ → U → EspErr × U

-- `usb_backend_device_slot_t`.
pub record DeviceSlot : Type 0 where
  pub in_use : Bool
  pub interfaces_claimed : Bool
  pub dev_hdl : ℕ
  pub device : Device

abbrev pub zero_slot : DeviceSlot
zero_slot = record { in_use = false; interfaces_claimed = false; dev_hdl = 0; device = zero_device }

-- `s_state.devices`, of `CONFIG_USBIP_MAX_DEVICES` slots.
abbrev pub Table : Type 0
Table = List DeviceSlot

unfoldable pub find_slot_by_busid : List ℕ → Table → Option ℕ
unfolding find_from
find_slot_by_busid busid t = find_from (λ s. s.in_use && busid_matches_key busid s.device.busid) t 0

unfoldable pub find_slot_by_handle : ℕ → Table → Option ℕ
unfolding find_from
find_slot_by_handle dev_hdl t = find_from (λ s. s.in_use && s.dev_hdl == dev_hdl) t 0

unfoldable pub find_slot_by_devnum : ℕ → Table → Option ℕ
unfolding find_from
find_slot_by_devnum devnum t = find_from (λ s. s.in_use && s.device.devnum == devnum) t 0

unfoldable pub find_free_slot : Table → Option ℕ
unfolding find_from
find_free_slot t = find_from (λ s. not s.in_use) t 0

-- A slot out of range is left alone.
unfoldable pub clear_slot : ℕ → Table → Table
clear_slot slot t = set t slot zero_slot

-- `usb_backend_event_t`; an event of any other type is not put into the queue.
pub data BackendEvent : Type 0 where
  new_dev : ℕ → BackendEvent
  dev_gone : ℕ → BackendEvent

-- `usb_host_client_event_msg_t`; the last is any event that the callback ignores.
pub data ClientEvent : Type 0 where
  client_new_dev : ℕ → ClientEvent
  client_dev_gone : ℕ → ClientEvent
  client_other : ClientEvent

-- `USB_BACKEND_EVENT_QUEUE_LEN`.
abbrev pub event_queue_len : ℕ
event_queue_len = 16

-- `xQueueSend` without waiting: an event that finds the queue full is dropped.
unfoldable pub queue_send : BackendEvent → List BackendEvent → List BackendEvent
queue_send e queue = if ltb (length queue) event_queue_len then queue ++ (e ∷ []) else queue

unfoldable pub usb_client_event_cb : ClientEvent → List BackendEvent → List BackendEvent
unfolding queue_send
usb_client_event_cb (client_new_dev address) queue = queue_send (new_dev address) queue
usb_client_event_cb (client_dev_gone dev_hdl) queue = queue_send (dev_gone dev_hdl) queue
usb_client_event_cb client_other queue = queue

module _ {U : Type 0} (host : UsbHost U) where
  -- Interfaces `i`, ..., `i + n - 1`; an error is only logged.
  unfoldable pub release_loop : ℕ → ℕ → ℕ → U → U
  release_loop zero i dev_hdl u = u
  release_loop (suc n) i dev_hdl u =
      let (_, u') = host.interface_release dev_hdl i u in release_loop n (suc i) dev_hdl u'

  unfoldable pub release_interfaces : ℕ → Table → U → Table × U
  unfolding release_loop
  release_interfaces slot t u = elim (get_elem? t slot) [
    | none ↦ (t, u)
    | some s ↦ if not s.in_use || not s.interfaces_claimed then (t, u) else (
      set t slot (record s { interfaces_claimed = false }),
      release_loop s.device.num_interfaces 0 s.dev_hdl u,
    )
  ]

  -- The loop of the claims ends at the first error.
  unfoldable pub claim_loop : ℕ → ℕ → ℕ → U → EspErr × U
  claim_loop zero i dev_hdl u = (esp_ok, u)
  claim_loop (suc n) i dev_hdl u =
      let (err, u') = host.interface_claim dev_hdl i u in
      let rest = claim_loop n (suc i) dev_hdl u' in if is_ok err then rest else (err, u')

  unfoldable pub ensure_interfaces_claimed : ℕ → Table → U → EspErr × Table × U
  unfolding claim_loop
  ensure_interfaces_claimed slot t u = elim (get_elem? t slot) [
    | none ↦ (esp_err_invalid_state, t, u)
    | some s ↦
        let (err, u') = claim_loop s.device.num_interfaces 0 s.dev_hdl u in
        if not s.in_use
        then (esp_err_invalid_state, t, u)
        else if s.interfaces_claimed
        then (esp_ok, t, u)
        else if is_ok err
        then (esp_ok, set t slot (record s { interfaces_claimed = true }), u')
        else (err, t, u')
  ]

  unfoldable pub close_slot : ℕ → Table → U → Table × U
  unfolding release_interfaces clear_slot
  close_slot slot t u = elim (get_elem? t slot) [
    | none ↦ (t, u)
    | some s ↦
        let (t1, u1) = release_interfaces slot t u in
        let (_, u2) = host.device_close s.dev_hdl u1 in
        if not s.in_use then (t, u) else (clear_slot slot t1, if s.dev_hdl == 0 then u1 else u2)
  ]

  -- The description of a device from what the host library says of it.
  unfoldable pub describe_device : ℕ → DeviceDesc → DeviceInfo → U → Device
  unfolding parse_descriptors usb_speed_to_usbip
  describe_device dev_hdl desc info u =
      let (err, config) = host.get_active_config_descriptor dev_hdl u in
      let device : Device = record zero_device {
        present = true;
        busnum = 1;
        devnum = info.dev_addr;
        speed = usb_speed_to_usbip info.link_speed;
        id_vendor = desc.vendor;
        id_product = desc.product;
        bcd_device = desc.bcd;
        device_class = desc.b_device_class;
        device_subclass = desc.b_device_sub_class;
        device_protocol = desc.b_device_protocol;
        num_configurations = desc.num_configs;
        configuration_value = info.config_value;
      } in
      if is_ok err then parse_descriptors config device else device

  -- The bus id and the path, `1-%u` and `/esp-usb-host/1-%u`.
  unfoldable pub name_device : ℕ → Device → Device
  name_device dev_addr d = record d {
    busid = store_text 32 (busid_text 1 dev_addr) d.busid;
    path = store_text 256 (codes "/esp-usb-host/" ++ busid_text 1 dev_addr) d.path;
  }

  -- Under the mutex: a slot of the same device number is closed, and a free one is filled.
  unfoldable pub fill_slot : ℕ → Device → Table → U → Table × U
  unfolding close_slot
  fill_slot dev_hdl device t u =
      let (t1, u1) : Table × U = elim (find_slot_by_devnum device.devnum t) [
        | none ↦ (t, u)
        | some slot ↦ close_slot slot t u
      ] in
      elim (find_free_slot t1) [
        | none ↦ (t1, (host.device_close dev_hdl u1).1)
        | some slot ↦ (
          set t1 slot (record {
            in_use = true;
            interfaces_claimed = false;
            dev_hdl = dev_hdl;
            device = device;
          }),
          u1,
        )
      ]

  unfoldable pub export_new_device : ℕ → Table → U → Table × U
  unfolding describe_device name_device fill_slot
  export_new_device address t u =
      let (opened, dev_hdl, u1) = host.device_open address u in
      let (got_desc, dev_desc) = host.get_device_descriptor dev_hdl u1 in
      let (got_info, info) = host.device_info dev_hdl u1 in
      let give_up : Table × U = (t, (host.device_close dev_hdl u1).1) in
      if not (is_ok opened)
      then (t, u1)
      else if not (is_ok got_desc)
      then give_up
      else elim dev_desc [
        | none ↦ give_up
        | some desc ↦
            let device = describe_device dev_hdl desc info u1 in
            if not (is_ok got_info)
            then give_up
            else if is_hub_device desc.b_device_class device
            then give_up
            else fill_slot dev_hdl (name_device info.dev_addr device) t u1
      ]

  unfoldable pub remove_gone_device : ℕ → Table → U → Table × U
  unfolding close_slot
  remove_gone_device dev_hdl t u = elim (find_slot_by_handle dev_hdl t) [
    | none ↦ (t, u)
    | some slot ↦ close_slot slot t u
  ]

  -- The events that are in the queue, in order.
  unfoldable pub process_backend_events : List BackendEvent → Table → U → Table × U
  unfolding export_new_device remove_gone_device
  process_backend_events [] t u = (t, u)
  process_backend_events (new_dev address ∷ es) t u =
      let (t', u') = export_new_device address t u in process_backend_events es t' u'
  process_backend_events (dev_gone dev_hdl ∷ es) t u =
      let (t', u') = remove_gone_device dev_hdl t u in process_backend_events es t' u'
