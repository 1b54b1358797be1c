-- ===== src/Examples/Discovery.antt =====
-- The theorems on the discovery service over a storage that is a list of keys and texts, and a library that
-- announces what it is given.
use esp_usbip_bridge.Base.{
  ℕ, ◌≡◌, ◌⊎◌, refl, List, [], ◌∷◌, none, some, true, false, arith, codes, length, if◌then◌else◌,
  ltb,
}
use esp_usbip_bridge.Esp.{esp_ok, esp_err_nvs_not_found, is_ok}
use esp_usbip_bridge.Naming.{Nvs, set_board_id}
use esp_usbip_bridge.Naming.Stored.{IsStore}
use esp_usbip_bridge.Discovery.{
  TxtItem, txt_items, snapshot_of, Mdns, Discovery, read_board_id,
  discovery_publish_txt_from_snapshot, discovery_round, discovery_service_notify_config_changed,
}
use esp_usbip_bridge.Discovery.Announced.{
  IsAnnouncer, IsAnnounced, discovery_round_lem, board_id_announced,
}
use esp_usbip_bridge.Examples.Naming.{Flash, write, blank, write_here, write_other}

pub record Net : Type 0 where
  pub flash : Flash
  pub said : List TxtItem

abbrev net_nvs : Nvs Net
net_nvs = record {
  open_rw = λ u. (esp_ok, u);
  open_ro = λ u. (esp_ok, u);
  get_str = λ k size u. elim (u.flash k) [
    | none ↦ (esp_err_nvs_not_found, [])
    | some v ↦ if ltb (length v) size then (esp_ok, v) else (esp_err_nvs_not_found, [])
  ];
  set_str = λ k v u. (esp_ok, record u { flash = write k (some v) u.flash });
  erase_key = λ k u. (esp_ok, record u { flash = write k none u.flash });
  commit = λ u. (esp_ok, u);
  close = λ u. u;
  mac = λ u. (esp_ok, 1 ∷ 2 ∷ 3 ∷ 4 ∷ 5 ∷ 6 ∷ []);
}

abbrev net_mdns : Mdns Net
net_mdns = record {
  init = λ u. (esp_ok, u);
  hostname_set = λ s u. (esp_ok, u);
  instance_name_set = λ s u. (esp_ok, u);
  service_add = λ items u. (esp_ok, record u { said = items });
  service_txt_set = λ items u. (esp_ok, record u { said = items });
  task_create = λ u. (true, u);
}

net_nvs-IsStore : IsStore net_nvs (λ u. u.flash)
net_nvs-IsStore = record {
  rw_keeps = λ k u. refl;
  ro_keeps = λ k u. refl;
  close_keeps = λ k u. refl;
  commit_keeps = λ k u. refl;
  get_some = λ k v size u e fits.
      let room : ltb (length v) size ≡ true = ground (arith, fits) in rw (e, room) refl;
  get_none = λ k size u e. rw e refl;
  set_ok = λ k v u h. write_here k (some v) u.flash;
  set_other = λ k k' v u ne. write_other k k' (some v) u.flash ne;
  erase_ok = λ k u h. write_here k none u.flash;
  erase_other = λ k k' u ne. write_other k k' none u.flash ne;
}

net_mdns-IsAnnouncer : IsAnnouncer net_mdns net_nvs (λ u. u.said)
net_mdns-IsAnnouncer = record {
  txt_set_ok = λ items u e. refl;
  txt_set_fails = λ items u e. absurd (ground (arith, e));
  add_ok = λ items u e. refl;
  hostname_keeps = λ s u. refl;
  instance_keeps = λ s u. refl;
  task_keeps = λ u. refl;
  open_keeps = λ u. refl;
  close_keeps = λ u. refl;
}

abbrev target : List ℕ
target = codes "esp32s3"

abbrev started : Discovery
started = record { last_snapshot = snapshot_of []; board_id = [] }

abbrev net : Net
net = record { flash = blank; said = txt_items target [] (snapshot_of []) }

-- A device was announced that is gone.
abbrev plugged : Discovery
plugged = record {
  last_snapshot = record {
    count = 1;
    primary_busid = codes "1-1";
    primary_vid = 4;
    primary_pid = 5;
  };
  board_id = [];
}

abbrev plugged_net : Net
plugged_net = record { flash = blank; said = txt_items target [] plugged.last_snapshot }

discovery_round_example :
    let (d1, w1) = read_board_id net_mdns net_nvs target plugged plugged_net in
    let refused =
      is_ok (discovery_publish_txt_from_snapshot net_mdns net_nvs target (snapshot_of []) d1 w1).0
      ≡ false in
    let (d', w') = discovery_round net_mdns net_nvs target [] plugged plugged_net in
    IsAnnounced net_mdns net_nvs target (λ u. u.said) net_mdns-IsAnnouncer d' w'
    × ((d'.last_snapshot ≡ snapshot_of []) ⊎ (refused × (d'.last_snapshot ≡ plugged.last_snapshot)))
discovery_round_example =
    discovery_round_lem net_mdns net_nvs target (λ u. u.said) net_mdns-IsAnnouncer [] plugged
      plugged_net ([], refl)

board_id_announced_example :
    let w1 = (set_board_id net_nvs (some (codes "lab")) net).1 in
    let (_, d', w') = discovery_service_notify_config_changed net_mdns net_nvs target started w1 in
    (w'.said ≡ txt_items target (codes "lab") started.last_snapshot)
    × (d'.last_snapshot ≡ started.last_snapshot)
unfolding set_board_id discovery_service_notify_config_changed
board_id_announced_example =
    board_id_announced net_mdns net_nvs target (λ u. u.said) net_mdns-IsAnnouncer (λ u. u.flash)
      net_nvs-IsStore (λ s k u. refl) (λ s k u. refl) (λ u. refl) (codes "lab") started net refl
      (omega arith) refl
