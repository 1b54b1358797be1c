-- ===== src/Discovery/Announced.antt =====
-- main/discovery_service.c: what is announced, over an mDNS library that announces what it accepts.
use esp_usbip_bridge.Base.{
  ℕ, ◌<◌, ◌≡◌, refl, sym, ap, ◌∙◌, ◌⊎◌, List, [], Option, some, true, false, not, arith,
  bytes_eq_sound, Bool-cases, inl, inr, if_ind, length,
}
use esp_usbip_bridge.Esp.{EspErr, esp_ok, is_ok}
use esp_usbip_bridge.Device.{Device}
use esp_usbip_bridge.Naming.Stored.{IsStore, board_id_roundtrip}
use esp_usbip_bridge.Naming.{Nvs, key_board_id, get_hostname, get_board_id, set_board_id}
use esp_usbip_bridge.Discovery.{
  Snapshot, instance_name, snapshot_changed, TxtItem, txt_items, snapshot_of, Mdns, Discovery,
  device_name_max_len, discovery_publish_txt_from_snapshot, read_board_id, discovery_round,
  discovery_service_start, discovery_service_notify_config_changed,
}

snapshot_changed-false : (a b : Snapshot) → snapshot_changed a b ≡ false → a ≡ b
unfolding snapshot_changed
snapshot_changed-false a b e = ground (arith, e, bytes_eq_sound a.primary_busid b.primary_busid)

-- The library announces the records that it was last given with success; the other calls, and the
-- storage, leave them alone.
pub record IsAnnouncer {W : Type 0} (mdns : Mdns W) (nvs : Nvs W) (announced : W → List TxtItem)
    : Type 0 where
  pub txt_set_ok :
      (items : List TxtItem) (w : W)
      → is_ok (mdns.service_txt_set items w).0 ≡ true
      → announced (mdns.service_txt_set items w).1 ≡ items
  pub txt_set_fails :
      (items : List TxtItem) (w : W)
      → is_ok (mdns.service_txt_set items w).0 ≡ false
      → announced (mdns.service_txt_set items w).1 ≡ announced w
  pub add_ok :
      (items : List TxtItem) (w : W)
      → is_ok (mdns.service_add items w).0 ≡ true
      → announced (mdns.service_add items w).1 ≡ items
  pub hostname_keeps : (s : List ℕ) (w : W) → announced (mdns.hostname_set s w).1 ≡ announced w
  pub instance_keeps : (s : List ℕ) (w : W) → announced (mdns.instance_name_set s w).1 ≡ announced w
  pub task_keeps : (w : W) → announced (mdns.task_create w).1 ≡ announced w
  pub open_keeps : (w : W) → announced (nvs.open_ro w).1 ≡ announced w
  pub close_keeps : (w : W) → announced (nvs.close w) ≡ announced w

module _ {W : Type 0} (mdns : Mdns W) (nvs : Nvs W) (target : List ℕ) (announced : W → List TxtItem)
    (law : IsAnnouncer mdns nvs announced) where
  -- The records of the last snapshot are announced, with some id of the board.
  abbrev pub IsAnnounced : Discovery → W → Type 0
  IsAnnounced d w = (board_id : List ℕ) × (announced w ≡ txt_items target board_id d.last_snapshot)

  get_board_id_announced : (size : ℕ) (w : W) → announced (get_board_id nvs size w).2 ≡ announced w
  unfolding get_board_id
  get_board_id_announced size w =
      let u1 = (nvs.open_ro w).1 in ground (arith, law.open_keeps w, law.close_keeps u1)

  get_hostname_announced : (size : ℕ) (w : W) → announced (get_hostname nvs size w).2 ≡ announced w
  unfolding get_hostname
  get_hostname_announced size w =
      let u1 = (nvs.open_ro w).1 in ground (arith, law.open_keeps w, law.close_keeps u1)

  read_board_id_announced :
      (d : Discovery) (w : W) → announced (read_board_id mdns nvs target d w).1 ≡ announced w
  unfolding read_board_id
  read_board_id_announced d w = get_board_id_announced device_name_max_len w

  -- If the records of the last snapshot are announced, with some board id, this holds again after a
  -- round of the discovery task. The last snapshot is then that of the present devices, or the
  -- library has refused the records and the last snapshot is as it was.
  pub discovery_round_lem :
      (devices : List Device) (d : Discovery) (w : W)
      → IsAnnounced d w
      → let (d1, w1) = read_board_id mdns nvs target d w in
        let refused =
          is_ok (discovery_publish_txt_from_snapshot mdns nvs target (snapshot_of devices) d1 w1).0
          ≡ false in
        let (d', w') = discovery_round mdns nvs target devices d w in
        IsAnnounced d' w'
        × ((d'.last_snapshot ≡ snapshot_of devices)
            ⊎ (refused × (d'.last_snapshot ≡ d.last_snapshot)))
  unfolding discovery_round discovery_publish_txt_from_snapshot
  discovery_round_lem devices d w (b, e) =
      let current = snapshot_of devices in
      let (d1, w1) = read_board_id mdns nvs target d w in
      let kept : d1.last_snapshot ≡ d.last_snapshot = unfold read_board_id in refl in
      let quiet = read_board_id_announced d w in
      let items = txt_items target d1.board_id current in
      elim (Bool-cases (snapshot_changed current d1.last_snapshot)) [
        | inl changed ↦ elim (Bool-cases (is_ok (mdns.service_txt_set items w1).0)) [
          | inl ok ↦ rw (changed, ok) ((d1.board_id, law.txt_set_ok items w1 ok), inl refl)
          | inr no_ok ↦
              rw (changed, no_ok)
                (
                  (
                    b,
                    law.txt_set_fails items w1 no_ok
                        ∙ quiet
                        ∙ e
                        ∙ ap (txt_items target b) (sym kept),
                  ),
                  inr (refl, kept),
                )
        ]
        | inr same ↦ rw same (
          (b, quiet ∙ e ∙ ap (txt_items target b) (sym kept)),
          inl (sym (snapshot_changed-false current d1.last_snapshot same)),
        )
      ]

  -- After a start that succeeds the records of no devices are announced.
  pub discovery_service_start-IsAnnounced :
      (d : Discovery) (w : W)
      → (discovery_service_start mdns nvs target d w).0 ≡ esp_ok
      → let (_, d', w') = discovery_service_start mdns nvs target d w in
        IsAnnounced d' w' × (d'.last_snapshot ≡ snapshot_of [])
  unfolding discovery_service_start
  discovery_service_start-IsAnnounced d w =
      let P : EspErr × Discovery × W → Type 0 =
        λ r. r.0 ≡ esp_ok → IsAnnounced r.1 r.2 × (r.1.last_snapshot ≡ snapshot_of []) in
      let w1 = (get_hostname nvs device_name_max_len w).2 in
      let hostname = (get_hostname nvs device_name_max_len w).1 in
      let (err1, w2) = mdns.init w1 in
      let (err2, w3) = mdns.hostname_set hostname w2 in
      let (err3, w4) = mdns.instance_name_set (instance_name mdns nvs target hostname) w3 in
      let (d1, w5) = read_board_id mdns nvs target d w4 in
      let items = txt_items target d1.board_id (snapshot_of []) in
      let (err4, w6) = mdns.service_add items w5 in
      if_ind P (not (is_ok (nvs.mac w).0)) (λ h g. absurd (ground (arith, h, g)))
        (λ _.
          if_ind P (not (is_ok err1)) (λ h g. absurd (ground (arith, h, g)))
            (λ _.
              if_ind P (not (is_ok err2)) (λ h g. absurd (ground (arith, h, g)))
                (λ _.
                  if_ind P (not (is_ok err3)) (λ h g. absurd (ground (arith, h, g)))
                    (λ _.
                      if_ind P (not (is_ok err4)) (λ h g. absurd (ground (arith, h, g)))
                        (λ h _.
                          let added : is_ok err4 ≡ true = ground (arith, h) in
                          ((d1.board_id, law.task_keeps w6 ∙ law.add_ok items w5 added), refl))))))

  -- The world in which `discovery_service_notify_config_changed` reads the id of the board.
  renamed : W → W
  renamed w =
      let (_, hostname, w1) = get_hostname nvs device_name_max_len w in
      (mdns.instance_name_set (instance_name mdns nvs target hostname)
        (mdns.hostname_set hostname w1).1).1

  notify_announced :
      (d : Discovery) (w : W)
      → is_ok (discovery_service_notify_config_changed mdns nvs target d w).0 ≡ true
      → let (_, board_id, _) = get_board_id nvs device_name_max_len (renamed w) in
        let (_, d', w') = discovery_service_notify_config_changed mdns nvs target d w in
        (announced w' ≡ txt_items target board_id d.last_snapshot)
        × (d'.last_snapshot ≡ d.last_snapshot)
  unfolding discovery_service_notify_config_changed discovery_publish_txt_from_snapshot
      read_board_id renamed
  notify_announced d w ok =
      let (_, board_id, w4) = get_board_id nvs device_name_max_len (renamed w) in
      let P : EspErr × Discovery × W → Type 0 = λ r.
        is_ok r.0 ≡ true
        → (announced r.2 ≡ txt_items target board_id d.last_snapshot)
          × (r.1.last_snapshot ≡ d.last_snapshot) in
      let (_, hostname, w1) = get_hostname nvs device_name_max_len w in
      let items = txt_items target board_id d.last_snapshot in
      if_ind P (not (is_ok (mdns.hostname_set hostname w1).0))
        (λ h g. absurd (ground (arith, h, g))) (λ _ g. (law.txt_set_ok items w4 g, refl)) ok

  renamed_lookup :
      (lookup : W → List ℕ → Option (List ℕ))
      → IsStore nvs lookup
      → ((s k : List ℕ) (w : W) → lookup (mdns.hostname_set s w).1 k ≡ lookup w k)
      → ((s k : List ℕ) (w : W) → lookup (mdns.instance_name_set s w).1 k ≡ lookup w k)
      → (k : List ℕ) (w : W) → lookup (renamed w) k ≡ lookup w k
  unfolding renamed get_hostname
  renamed_lookup lookup store host inst k w =
      let (_, hostname, w1) = get_hostname nvs device_name_max_len w in
      let u1 = (nvs.open_ro w).1 in
      let read : lookup w1 k ≡ lookup w k =
        ground (arith, store.ro_keeps k w, store.close_keeps k u1) in
      inst (instance_name mdns nvs target hostname) k (mdns.hostname_set hostname w1).1
      ∙ host hostname k w1
      ∙ read

  -- Over a storage that is a map and can be opened for reading, and a library that announces what it
  -- accepts, with renaming that leaves the storage alone: if a board id of less than 64 characters
  -- is stored with success, and the notification that follows succeeds, then the records of the last
  -- snapshot are announced with this board id, and the snapshot stays.
  pub board_id_announced :
      (lookup : W → List ℕ → Option (List ℕ))
      → IsStore nvs lookup
      → ((s k : List ℕ) (w : W) → lookup (mdns.hostname_set s w).1 k ≡ lookup w k)
      → ((s k : List ℕ) (w : W) → lookup (mdns.instance_name_set s w).1 k ≡ lookup w k)
      → ((w : W) → is_ok (nvs.open_ro w).0 ≡ true)
      → (board_id : List ℕ) (d : Discovery) (w : W)
      → is_ok (set_board_id nvs (some board_id) w).0 ≡ true
      → length board_id < device_name_max_len
      → is_ok
          (discovery_service_notify_config_changed mdns nvs target d
            (set_board_id nvs (some board_id) w).1).0
        ≡ true
      → let w1 = (set_board_id nvs (some board_id) w).1 in
        let (_, d', w') = discovery_service_notify_config_changed mdns nvs target d w1 in
        (announced w' ≡ txt_items target board_id d.last_snapshot)
        × (d'.last_snapshot ≡ d.last_snapshot)
  board_id_announced lookup store host inst opens board_id d w done fits ok =
      let w1 = (set_board_id nvs (some board_id) w).1 in
      let stored =
        board_id_roundtrip nvs lookup store board_id device_name_max_len w (renamed w1) done
          (renamed_lookup lookup store host inst key_board_id w1) (opens (renamed w1)) fits in
      let (said, same) = notify_announced d w1 ok in
      (said ∙ ap (λ b. txt_items target b d.last_snapshot) stored, same)
