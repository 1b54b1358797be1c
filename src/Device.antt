-- ===== src/Device.antt =====
-- main/usb_backend.h: `usbip_backend_device_t`, the description of an exported device. The arrays
-- hold their C sizes; a `char` array is the list of its bytes.
use esp_usbip_bridge.Base.{ℕ, List, Bool, false, replicate}

pub record Interface : Type 0 where
  pub interface_class : ℕ
  pub interface_subclass : ℕ
  pub interface_protocol : ℕ

pub record Endpoint : Type 0 where
  pub address : ℕ
  pub attributes : ℕ
  pub max_packet_size : ℕ
  pub interval : ℕ

abbrev pub max_endpoints : ℕ
max_endpoints = 16

pub record Device : Type 0 where
  pub present : Bool
  pub path : List ℕ
  pub busid : List ℕ
  pub busnum : ℕ
  pub devnum : ℕ
  pub speed : ℕ
  pub id_vendor : ℕ
  pub id_product : ℕ
  pub bcd_device : ℕ
  pub device_class : ℕ
  pub device_subclass : ℕ
  pub device_protocol : ℕ
  pub configuration_value : ℕ
  pub num_configurations : ℕ
  pub num_interfaces : ℕ
  pub interfaces : List Interface
  pub num_endpoints : ℕ
  pub endpoints : List Endpoint

abbrev pub no_interface : Interface
no_interface = record { interface_class = 0; interface_subclass = 0; interface_protocol = 0 }

abbrev pub no_endpoint : Endpoint
no_endpoint = record { address = 0; attributes = 0; max_packet_size = 0; interval = 0 }

-- A device after `memset(&device, 0, sizeof(device))`.
abbrev pub zero_device : Device
zero_device = record {
  present = false;
  path = replicate 256 0;
  busid = replicate 32 0;
  busnum = 0;
  devnum = 0;
  speed = 0;
  id_vendor = 0;
  id_product = 0;
  bcd_device = 0;
  device_class = 0;
  device_subclass = 0;
  device_protocol = 0;
  configuration_value = 0;
  num_configurations = 0;
  num_interfaces = 0;
  interfaces = replicate 8 no_interface;
  num_endpoints = 0;
  endpoints = replicate 16 no_endpoint;
}
