-- ===== src/Virtual/Perfetto.antt =====
-- main/virtual_perfetto_logic.c: the start of the logic analyzer behind its serial port.
use esp_usbip_bridge.Base.{ℕ, ◌*◌, some, not, if◌then◌else◌, codes}
use esp_usbip_bridge.Esp.{EspErr, is_ok}
use esp_usbip_bridge.Registry.{VirtualDevice, Registry, register}
use esp_usbip_bridge.Cdc.{CdcCtx}
use esp_usbip_bridge.Virtual.{cdc_ctx, described}

-- `sump_init` is given the pins, the rate and the sizes of the capture, which are configuration values.
pub record PerfettoHost (W : Type 0) (B : Type 0) : Type 0 where
  pub sump_io_create : ℕ → ℕ → W → EspErr × B × B × W
  pub sump_io_destroy : W → W
  pub sump_init : W → EspErr × W

unfoldable pub perfetto_ctx : {B : Type 0} → B → B → CdcCtx B
unfolding cdc_ctx
perfetto_ctx rx tx =
    cdc_ctx 0x01 (codes "Espressif") (codes "ESP Perfetto Logic Analyzer") (codes "VIRTUAL-001") rx
      tx

-- The address of `s_vdev`.
abbrev pub perfetto_address : ℕ
perfetto_address = 1

unfoldable pub perfetto_device : {B : Type 0} → B → B → VirtualDevice (CdcCtx B)
unfolding perfetto_ctx described
perfetto_device rx tx = record {
  address = perfetto_address;
  ops = some (perfetto_ctx rx tx);
  desc = described 0x01;
}

module _ {W : Type 0} {B : Type 0} (h : PerfettoHost W B) where
  -- `app_main` calls it once, so that the table has no entry that points at `s_vdev` before.
  unfoldable pub virtual_perfetto_logic_start :
      Registry (CdcCtx B) → W → EspErr × Registry (CdcCtx B) × W
  unfolding perfetto_device register
  virtual_perfetto_logic_start r w =
      let (err1, rx, tx, w1) = h.sump_io_create 256 (32 * 1024) w in
      let (err2, r') = register (some (perfetto_device rx tx)) r in
      let (err3, w3) = h.sump_init w1 in
      if not (is_ok err1)
      then (err1, r, w1)
      else if not (is_ok err2)
      then (err2, r', h.sump_io_destroy w1)
      else (err3, r', w3)
