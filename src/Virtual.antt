-- ===== src/Virtual.antt =====
-- main/virtual_harness.c and main/virtual_perfetto_logic.c: the two virtual serial ports. They share their
-- configuration descriptor, their description but for the product, and the shape of their context. What
-- stands behind the ports (`harness_*`, `sump_*`) is not part of the repository.
pub mod Harness
pub mod Perfetto
pub mod Described
use esp_usbip_bridge.Base.{ℕ, ◌+◌, List, [], ◌∷◌, some, set}
use esp_usbip_bridge.Device.{Device, Interface, Endpoint, zero_device}
use esp_usbip_bridge.Cdc.{CdcCtx}
use esp_usbip_bridge.Esp.{EspErr}

-- With the low byte of `idProduct`.
unfoldable pub s_device_desc : ℕ → List ℕ
s_device_desc product =
    18 ∷ 0x01 ∷ 0x00 ∷ 0x02 ∷ 0x02 ∷ 0x00 ∷ 0x00 ∷ 64 ∷ 0xFE ∷ 0xCA ∷ product ∷ 0x40 ∷ 0x00 ∷ 0x01
    ∷ 1 ∷ 2 ∷ 3 ∷ 1 ∷ []

-- The configuration; interface 0 with its functional descriptors and its endpoint; interface 1 with its
-- two endpoints.
unfoldable pub s_config_desc : List ℕ
s_config_desc =
    9 ∷ 0x02 ∷ 67 ∷ 0x00 ∷ 2 ∷ 1 ∷ 0 ∷ 0x80 ∷ 50 ∷ 9 ∷ 0x04 ∷ 0 ∷ 0 ∷ 1 ∷ 0x02 ∷ 0x02 ∷ 0x00 ∷ 0 ∷ 5
    ∷ 0x24 ∷ 0x00 ∷ 0x20 ∷ 0x01 ∷ 5 ∷ 0x24 ∷ 0x01 ∷ 0x00 ∷ 0x01 ∷ 4 ∷ 0x24 ∷ 0x02 ∷ 0x02 ∷ 5 ∷ 0x24
    ∷ 0x06 ∷ 0x00 ∷ 0x01 ∷ 7 ∷ 0x05 ∷ 0x83 ∷ 0x03 ∷ 8 ∷ 0x00 ∷ 255 ∷ 9 ∷ 0x04 ∷ 1 ∷ 0 ∷ 2 ∷ 0x0A
    ∷ 0x00 ∷ 0x00 ∷ 0 ∷ 7 ∷ 0x05 ∷ 0x02 ∷ 0x02 ∷ 64 ∷ 0x00 ∷ 0 ∷ 7 ∷ 0x05 ∷ 0x81 ∷ 0x02 ∷ 64 ∷ 0x00
    ∷ 0 ∷ []

-- 115200 baud, 8N1.
abbrev pub default_line_coding : List ℕ
default_line_coding = 0x00 ∷ 0xC2 ∷ 0x01 ∷ 0x00 ∷ 0 ∷ 0 ∷ 8 ∷ []

-- The context over a pair of buffers, with the names of the product.
unfoldable pub cdc_ctx : {B : Type 0} → ℕ → List ℕ → List ℕ → List ℕ → B → B → CdcCtx B
unfolding s_device_desc s_config_desc
cdc_ctx product manufacturer name serial rx tx = record {
  rx = rx;
  tx = tx;
  device_desc = s_device_desc product;
  config_desc = s_config_desc;
  config_desc_len = 67;
  str_manufacturer = some manufacturer;
  str_product = some name;
  str_serial = some serial;
  bulk_in_ep = 0x81;
  bulk_out_ep = 0x02;
  notify_ep = 0x83;
  current_config = 0;
  line_coding = default_line_coding;
}

abbrev interface : ℕ → ℕ → ℕ → Interface
interface class subclass protocol = record {
  interface_class = class;
  interface_subclass = subclass;
  interface_protocol = protocol;
}

abbrev endpoint : ℕ → ℕ → ℕ → ℕ → Endpoint
endpoint address attributes size interval = record {
  address = address;
  attributes = attributes;
  max_packet_size = size;
  interval = interval;
}

-- `s_vdev.desc`, with the low byte of the product.
unfoldable pub described : ℕ → Device
described product =
    let d = zero_device in
    let i1 = set d.interfaces 0 (interface 0x02 0x02 0x00) in
    let e1 = set d.endpoints 0 (endpoint 0x83 0x03 8 255) in
    let e2 = set e1 1 (endpoint 0x02 0x02 64 0) in
    record d {
      speed = 2;
      id_vendor = 0xCAFE;
      id_product = 0x4000 + product;
      bcd_device = 0x0100;
      device_class = 0x02;
      device_subclass = 0x00;
      device_protocol = 0x00;
      num_configurations = 1;
      configuration_value = 1;
      num_interfaces = 2;
      interfaces = set i1 1 (interface 0x0A 0x00 0x00);
      num_endpoints = 3;
      endpoints = set e2 2 (endpoint 0x81 0x02 64 0);
    }
