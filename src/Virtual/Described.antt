-- ===== src/Virtual/Described.antt =====
-- The virtual serial ports: what the table says about them is what their own descriptors say.
use esp_usbip_bridge.Base.{
  ℕ, suc, ◌+◌, ◌≤◌, ◌≡◌, refl, List, [], ◌∷◌, some, true, false, not, length, arith, ltb, if_ind,
  codes, ◌*◌,
}
use esp_usbip_bridge.Esp.{EspErr, esp_ok, is_ok}
use esp_usbip_bridge.Errno.{success}
use esp_usbip_bridge.Registry.{
  VirtualDevice, Registry, virtual_device_busnum, register, assign_busid, find_by_busid,
}
use esp_usbip_bridge.Registry.Laws.{IsValid, busid_key, register-finds}
use esp_usbip_bridge.Backend.Descriptors.{parse_descriptors}
use esp_usbip_bridge.Cdc.{CdcCtx, cdc_control_transfer}
use esp_usbip_bridge.Virtual.Harness.{
  HarnessHost, harness_ctx, harness_address, harness_device, virtual_harness_start,
}
use esp_usbip_bridge.Virtual.Perfetto.{
  PerfettoHost, perfetto_ctx, perfetto_address, perfetto_device, virtual_perfetto_logic_start,
}
use esp_usbip_bridge.Virtual.{s_config_desc, cdc_ctx, described}

ok_lem : (e : EspErr) → is_ok e ≡ true → e ≡ esp_ok
ok_lem EspErr.esp_ok h = refl
ok_lem EspErr.esp_fail h = absurd (ground (arith, h))
ok_lem EspErr.esp_err_no_mem h = absurd (ground (arith, h))
ok_lem EspErr.esp_err_invalid_arg h = absurd (ground (arith, h))
ok_lem EspErr.esp_err_invalid_state h = absurd (ground (arith, h))
ok_lem EspErr.esp_err_nvs_not_found h = absurd (ground (arith, h))
ok_lem (EspErr.esp_err_other n) h = absurd (ground (arith, h))

-- `GET_DESCRIPTOR` of the configuration, with a length.
abbrev pub get_config : ℕ → ℕ → List ℕ
get_config low high = 0x80 ∷ 0x06 ∷ 0 ∷ 2 ∷ 0 ∷ 0 ∷ low ∷ high ∷ []

get_config_lem :
    {B : Type 0} (product : ℕ) (manufacturer name serial : List ℕ) (rx tx : B) (low high room : ℕ)
    → 67 ≤ room
    → let c = cdc_ctx product manufacturer name serial rx tx in
      cdc_control_transfer c (get_config low high) [] room ≡ (success, s_config_desc, c)
unfolding cdc_control_transfer cdc_ctx
get_config_lem product manufacturer name serial rx tx low high room enough =
    let few : ltb room 67 ≡ false = ground (arith, enough) in rw few (unfold s_config_desc in refl)

parsed :
    (product devnum : ℕ)
    → let d = assign_busid devnum (described product) in
      parse_descriptors (some s_config_desc) d ≡ d
unfolding parse_descriptors described s_config_desc assign_busid
parsed product devnum = refl

module _ {B : Type 0} (product : ℕ) (manufacturer name serial : List ℕ) where
  abbrev port_ctx : B → B → CdcCtx B
  port_ctx rx tx = cdc_ctx product manufacturer name serial rx tx

  abbrev port : ℕ → B → B → VirtualDevice (CdcCtx B)
  port address rx tx = record {
    address = address;
    ops = some (port_ctx rx tx);
    desc = described product;
  }

  -- The device under the next bus id of the table has a context over the two buffers; a client's request
  -- for its configuration is answered in full, and what the parser makes of the answer is what the table
  -- says about the device already.
  abbrev pub IsDescribed : ℕ → Registry (CdcCtx B) → B → B → ℕ → ℕ → ℕ → Type 0
  IsDescribed n r rx tx low high room =
      let (status, bytes, c) =
        cdc_control_transfer (port_ctx rx tx) (get_config low high) [] room in
      (dev : VirtualDevice (CdcCtx B)) × (find_by_busid
          (some (busid_key virtual_device_busnum (suc n))) r
        ≡ some dev)
      × (dev.ops ≡ some (port_ctx rx tx))
      × (status ≡ success)
      × (c ≡ port_ctx rx tx)
      × (parse_descriptors (some bytes) dev.desc ≡ dev.desc)

  register-IsDescribed :
      (address : ℕ) (rx tx : B) (r : Registry (CdcCtx B)) (low high room : ℕ)
      → IsValid r
      → 67 ≤ room
      → is_ok (register (some (port address rx tx)) r).0 ≡ true
      → IsDescribed (length r) (register (some (port address rx tx)) r).1 rx tx low high room
  register-IsDescribed address rx tx r low high room v enough ok =
      let d = assign_busid (length r + 1) (described product) in
      let answer = get_config_lem product manufacturer name serial rx tx low high room enough in
      (
        record (port address rx tx) { desc = d },
        register-finds (port address rx tx) r v ok,
        refl,
        rw answer refl,
        rw answer refl,
        rw answer (parsed product (length r + 1)),
      )

module _ {W : Type 0} {B : Type 0} (h : HarnessHost W B) where
  -- If the test harness is started over a valid table of virtual devices, the start succeeds, and a
  -- client gives 67 bytes of room or more: under the next bus id of the table there is a device
  -- whose context is the harness's; a request for its configuration descriptor, of whatever length,
  -- succeeds and changes nothing; and what the backend's parser makes of the answer is what the
  -- table says about the device already.
  pub virtual_harness_start-IsDescribed :
      (r : Registry (CdcCtx B)) (w : W) (low high room : ℕ)
      → IsValid r
      → 67 ≤ room
      → is_ok (virtual_harness_start h r w).0 ≡ true
      → let (_, w1) = h.harness_dut_init w in
        let (_, rx, tx, _) = h.harness_io_create 256 (8 * 1024) w1 in
        let (_, r', _) = virtual_harness_start h r w in
        IsDescribed 0x02
          (codes "Adafruit")
          (codes "ESP Test Harness")
          (codes "VIRTUAL-002")
          (length r)
          r'
          rx
          tx
          low
          high
          room
  unfolding virtual_harness_start harness_device harness_ctx
  virtual_harness_start-IsDescribed r w low high room v enough ok =
      let (err1, w1) = h.harness_dut_init w in
      let (err2, rx, tx, w2) = h.harness_io_create 256 (8 * 1024) w1 in
      let P : EspErr × Registry (CdcCtx B) × W → Type 0 = λ s.
        is_ok s.0 ≡ true
        → IsDescribed 0x02 (codes "Adafruit") (codes "ESP Test Harness") (codes "VIRTUAL-002")
            (length r) s.1 rx tx low high room in
      if_ind P (not (is_ok err1)) (λ q g. absurd (ground (arith, q, g)))
        (λ _.
          if_ind P (not (is_ok err2)) (λ q g. absurd (ground (arith, q, g)))
            (λ _.
              if_ind P (not (is_ok (register (some (harness_device rx tx)) r).0))
                (λ q g. absurd (ground (arith, q, g)))
                (λ q _.
                  register-IsDescribed 0x02 (codes "Adafruit") (codes "ESP Test Harness")
                    (codes "VIRTUAL-002") harness_address rx tx r low high room v enough
                    (ground (arith, q)))))
        ok

module _ {W : Type 0} {B : Type 0} (h : PerfettoHost W B) where
  pub perfetto_start-IsDescribed :
      (r : Registry (CdcCtx B)) (w : W) (low high room : ℕ)
      → IsValid r
      → 67 ≤ room
      → is_ok (virtual_perfetto_logic_start h r w).0 ≡ true
      → let (_, rx, tx, _) = h.sump_io_create 256 (32 * 1024) w in
        let (_, r', _) = virtual_perfetto_logic_start h r w in
        IsDescribed 0x01
          (codes "Espressif")
          (codes "ESP Perfetto Logic Analyzer")
          (codes "VIRTUAL-001")
          (length r)
          r'
          rx
          tx
          low
          high
          room
  unfolding virtual_perfetto_logic_start perfetto_device perfetto_ctx
  perfetto_start-IsDescribed r w low high room v enough ok =
      let (err1, rx, tx, w1) = h.sump_io_create 256 (32 * 1024) w in
      let P : EspErr × Registry (CdcCtx B) × W → Type 0 = λ s.
        is_ok s.0 ≡ true
        → IsDescribed 0x01 (codes "Espressif") (codes "ESP Perfetto Logic Analyzer")
            (codes "VIRTUAL-001") (length r) s.1 rx tx low high room in
      if_ind P (not (is_ok err1)) (λ q g. absurd (ground (arith, q, g)))
        (λ _.
          if_ind P (not (is_ok (register (some (perfetto_device rx tx)) r).0))
            (λ q g. absurd (ground (arith, q, g)))
            (λ q _.
              register-IsDescribed 0x01 (codes "Espressif") (codes "ESP Perfetto Logic Analyzer")
                (codes "VIRTUAL-001") perfetto_address rx tx r low high room v enough
                (ground (arith, q))))
        ok
