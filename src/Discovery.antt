-- ===== src/Discovery.antt =====
-- main/discovery_service.c: the announcement of the bridge by mDNS. `mdns_*` is a library of ESP-IDF, the
-- operations of `Mdns`; the devices are those that the table of the backend exports, and the names those
-- of the storage. `Announced` says what is announced.
pub mod Announced
use esp_usbip_bridge.Base.{
  ℕ, zero, suc, ◌+◌, ◌/◌, ◌%◌, List, [], ◌∷◌, ◌++◌, Option, none, some, Bool, true, false, not,
  ◌||◌, length, take, ltb, ◌==◌, if◌then◌else◌, codes, c_string, decimal, bytes_eq, u32,
}
use esp_usbip_bridge.Esp.{EspErr, esp_ok, esp_fail, is_ok}
use esp_usbip_bridge.Device.{Device}
use esp_usbip_bridge.Registry.{Registry}
use esp_usbip_bridge.Naming.{Nvs, hex_byte, get_hostname, get_board_id}
use esp_usbip_bridge.Backend.Devices.{Table}
use esp_usbip_bridge.Backend.Devices.Lookup.{usb_backend_get_devices}

-- `discovery_snapshot_t`. A text is the list of its characters.
pub record Snapshot : Type 0 where
  pub count : ℕ
  pub primary_busid : List ℕ
  pub primary_vid : ℕ
  pub primary_pid : ℕ

unfoldable pub snapshot_changed : Snapshot → Snapshot → Bool
snapshot_changed a b =
    not (a.count == b.count)
    || (not (a.primary_vid == b.primary_vid)
        || (not (a.primary_pid == b.primary_pid) || not (bytes_eq a.primary_busid b.primary_busid)))

-- `%04x` of a `uint16_t`.
unfoldable pub hex_word : ℕ → List ℕ
hex_word n = hex_byte (n / 256) ++ hex_byte (n % 256)

pub record TxtItem : Type 0 where
  pub key : List ℕ
  pub value : List ℕ

abbrev pub item : List ℕ → List ℕ → TxtItem
item k v = record { key = k; value = v }

abbrev dash : List ℕ
dash = codes "-"

-- The `txt` array of a snapshot, with the chip's name and the board's id.
unfoldable pub txt_items : List ℕ → List ℕ → Snapshot → List TxtItem
unfolding hex_word
txt_items target board_id s =
    let idle = s.count == 0 in
    let single = s.count == 1 in
    item (codes "transport") (codes "usbip")
    ∷ item (codes "state") (if idle then codes "idle" else codes "exporting")
    ∷ item (codes "count") (decimal s.count)
    ∷ item (codes "busid")
        (if idle then dash else if single then take 31 s.primary_busid else codes "multi")
    ∷ item (codes "vid") (if single then hex_word s.primary_vid else dash)
    ∷ item (codes "pid") (if single then hex_word s.primary_pid else dash)
    ∷ item (codes "target") target
    ∷ item (codes "board_id") board_id
    ∷ []

-- What the task of the discovery finds: no device, or the first of those exported.
unfoldable pub snapshot_of : List Device → Snapshot
snapshot_of [] = record { count = 0; primary_busid = dash; primary_vid = 0; primary_pid = 0 }
snapshot_of (d ∷ ds) = record {
  count = u32 (length (d ∷ ds));
  primary_busid = take 31 (c_string d.busid);
  primary_vid = d.id_vendor;
  primary_pid = d.id_product;
}

pub record Mdns (W : Type 0) : Type 0 where
  pub init : W → EspErr × W
  pub hostname_set : List ℕ → W → EspErr × W
  pub instance_name_set : List ℕ → W → EspErr × W
  pub service_add : List TxtItem → W → EspErr × W
  pub service_txt_set : List TxtItem → W → EspErr × W
  -- `xTaskCreate` of the task of the discovery.
  pub task_create : W → Bool × W

-- `s_last_snapshot` and `s_board_id`.
pub record Discovery : Type 0 where
  pub last_snapshot : Snapshot
  pub board_id : List ℕ

abbrev pub device_name_max_len : ℕ
device_name_max_len = 64

module _ {W : Type 0} (mdns : Mdns W) (nvs : Nvs W) (target : List ℕ) where
  unfoldable pub discovery_publish_txt_from_snapshot : Snapshot → Discovery → W → EspErr × W
  unfolding txt_items
  discovery_publish_txt_from_snapshot s d w = mdns.service_txt_set (txt_items target d.board_id s) w

  -- `device_naming_get_board_id(s_board_id, sizeof(s_board_id))`.
  unfoldable pub read_board_id : Discovery → W → Discovery × W
  unfolding get_board_id
  read_board_id d w =
      let (_, board_id, w1) = get_board_id nvs device_name_max_len w in
      (record d { board_id = board_id }, w1)

  -- One round of the task, on the devices that the backend returns.
  unfoldable pub discovery_round : List Device → Discovery → W → Discovery × W
  unfolding snapshot_of snapshot_changed discovery_publish_txt_from_snapshot read_board_id
  discovery_round devices d w =
      let current = snapshot_of devices in
      let (d1, w1) = read_board_id d w in
      let (err, w2) = discovery_publish_txt_from_snapshot current d1 w1 in
      if snapshot_changed current d1.last_snapshot
      then (if is_ok err then record d1 { last_snapshot = current } else d1, w2)
      else (d1, w1)

  -- `usb_backend_get_devices(devices, CONFIG_USBIP_MAX_DEVICES)` and the round.
  unfoldable pub discovery_task_round :
      {O : Type 0} → ℕ → Table → Registry O → Discovery → W → Discovery × W
  unfolding discovery_round usb_backend_get_devices
  discovery_task_round max_devices t r d w =
      discovery_round (usb_backend_get_devices max_devices t r) d w

  -- `"%s (%s)"` into a buffer of 96 bytes.
  unfoldable pub instance_name : List ℕ → List ℕ
  instance_name hostname = take 95 (hostname ++ (codes " (" ++ (target ++ codes ")")))

  unfoldable pub discovery_service_start : Discovery → W → EspErr × Discovery × W
  unfolding snapshot_of instance_name read_board_id txt_items
  discovery_service_start d w =
      let (mac_err, mac) = nvs.mac w in
      let (_, hostname, w1) = get_hostname nvs device_name_max_len w in
      let (err1, w2) = mdns.init w1 in
      let (err2, w3) = mdns.hostname_set hostname w2 in
      let (err3, w4) = mdns.instance_name_set (instance_name hostname) w3 in
      let (d1, w5) = read_board_id d w4 in
      let initial = snapshot_of [] in
      let (err4, w6) = mdns.service_add (txt_items target d1.board_id initial) w5 in
      let d2 = record d1 { last_snapshot = initial } in
      let (created, w7) = mdns.task_create w6 in
      if not (is_ok mac_err)
      then (mac_err, d, w)
      else if not (is_ok err1)
      then (err1, d, w2)
      else if not (is_ok err2)
      then (err2, d, w3)
      else if not (is_ok err3)
      then (err3, d, w4)
      else if not (is_ok err4)
      then (err4, d1, w6)
      else (if created then esp_ok else esp_fail, d2, w7)

  -- A host name that is refused ends the call; an instance name that is refused does not.
  unfoldable pub discovery_service_notify_config_changed : Discovery → W → EspErr × Discovery × W
  unfolding instance_name read_board_id discovery_publish_txt_from_snapshot
  discovery_service_notify_config_changed d w =
      let (_, hostname, w1) = get_hostname nvs device_name_max_len w in
      let (err, w2) = mdns.hostname_set hostname w1 in
      let (_, w3) = mdns.instance_name_set (instance_name hostname) w2 in
      let (d1, w4) = read_board_id d w3 in
      let (err', w5) = discovery_publish_txt_from_snapshot d1.last_snapshot d1 w4 in
      if not (is_ok err) then (err, d, w2) else (err', d1, w5)
