-- ===== src/Examples/Virtual.antt =====
-- The theorem on the start of the test harness, with libraries that always succeed.
use esp_usbip_bridge.Base.{ℕ, ◌+◌, refl, List, [], arith, codes}
use esp_usbip_bridge.Esp.{esp_ok}
use esp_usbip_bridge.Registry.{Registry}
use esp_usbip_bridge.Registry.Laws.{IsValid}
use esp_usbip_bridge.Cdc.{CdcCtx}
use esp_usbip_bridge.Virtual.Harness.{HarnessHost, virtual_harness_start}
use esp_usbip_bridge.Virtual.Described.{IsDescribed, virtual_harness_start-IsDescribed}

-- The buffers are what they hold; the world is a count.
abbrev working : HarnessHost ℕ (List ℕ)
working = record {
  harness_dut_init = λ w. (esp_ok, w);
  harness_io_create = λ rx tx w. (esp_ok, [], [], w + 1);
  harness_io_destroy = λ w. w;
  harness_scpi_init = λ w. (esp_ok, w + 1);
}

abbrev no_ports : Registry (CdcCtx (List ℕ))
no_ports = []

no_ports-IsValid : IsValid no_ports
no_ports-IsValid = record { room = omega arith; numbered = tt }

virtual_harness_start-IsDescribed_example :
    IsDescribed 0x02
      (codes "Adafruit")
      (codes "ESP Test Harness")
      (codes "VIRTUAL-002")
      0
      (virtual_harness_start working no_ports 0).1
      []
      []
      255
      0
      255
unfolding virtual_harness_start
virtual_harness_start-IsDescribed_example =
    virtual_harness_start-IsDescribed working no_ports 0 255 0 255 no_ports-IsValid (omega arith)
      refl
