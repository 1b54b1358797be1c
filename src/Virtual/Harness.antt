-- ===== src/Virtual/Harness.antt =====
-- main/virtual_harness.c: the start of the test harness behind its serial port.
use esp_usbip_bridge.Base.{ℕ, ◌*◌, some, not, if◌then◌else◌, codes}
use esp_usbip_bridge.Esp.{EspErr, is_ok}
use esp_usbip_bridge.Registry.{VirtualDevice, Registry, register}
use esp_usbip_bridge.Cdc.{CdcCtx}
use esp_usbip_bridge.Virtual.{cdc_ctx, described}

pub record HarnessHost (W : Type 0) (B : Type 0) : Type 0 where
  pub harness_dut_init : W → EspErr × W
  -- With the sizes, and the buffers of the `harness_io_t`.
  pub harness_io_create : ℕ → ℕ → W → EspErr × B × B × W
  pub harness_io_destroy : W → W
  pub harness_scpi_init : W → EspErr × W

-- `s_cdc_ctx`.
unfoldable pub harness_ctx : {B : Type 0} → B → B → CdcCtx B
unfolding cdc_ctx
harness_ctx rx tx =
    cdc_ctx 0x02 (codes "Adafruit") (codes "ESP Test Harness") (codes "VIRTUAL-002") rx tx

-- The address of `s_vdev`.
abbrev pub harness_address : ℕ
harness_address = 2

-- `s_vdev`, whose operations are those of the serial port on the context.
unfoldable pub harness_device : {B : Type 0} → B → B → VirtualDevice (CdcCtx B)
unfolding harness_ctx described
harness_device rx tx = record {
  address = harness_address;
  ops = some (harness_ctx rx tx);
  desc = described 0x02;
}

module _ {W : Type 0} {B : Type 0} (h : HarnessHost W B) where
  -- `app_main` calls it once, so that the table has no entry that points at `s_vdev` before.
  unfoldable pub virtual_harness_start : Registry (CdcCtx B) → W → EspErr × Registry (CdcCtx B) × W
  unfolding harness_device register
  virtual_harness_start r w =
      let (err1, w1) = h.harness_dut_init w in
      let (err2, rx, tx, w2) = h.harness_io_create 256 (8 * 1024) w1 in
      let (err3, r') = register (some (harness_device rx tx)) r in
      let (err4, w4) = h.harness_scpi_init w2 in
      if not (is_ok err1)
      then (err1, r, w1)
      else if not (is_ok err2)
      then (err2, r, w2)
      else if not (is_ok err3)
      then (err3, r', h.harness_io_destroy w2)
      else (err4, r', w4)
