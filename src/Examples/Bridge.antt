-- ===== src/Examples/Bridge.antt =====
-- The server on top of a backend with one device and one virtual device.
use esp_usbip_bridge.Base.{
  ℕ, ◌+◌, ◌*◌, ◌<◌, ◌≡◌, ◌≢◌, refl, ap, List, [], ◌∷◌, ◌++◌, Option, none, some, Bool, true, false,
  arith, length, take, map, get_elem?, be32, busid_text, padded,
}
use esp_usbip_bridge.Protocol.{op_common, op_rep_devlist, op_rep_import}
use esp_usbip_bridge.Device.{Device, zero_device}
use esp_usbip_bridge.Registry.{Registry, VirtualDevice}
use esp_usbip_bridge.Registry.Laws.{busid_key}
use esp_usbip_bridge.Server.Host.{Host, VirtualOps, IsQuiet}
use esp_usbip_bridge.Server.Requests.{
  ServerConfig, Imported, import_failed, streamed, make_devid, fill_wire_device_desc,
  handle_devlist_request, handle_import_request, handle_urb_stream,
}
use esp_usbip_bridge.Server.Requests.Laws.{devices_bytes}
use esp_usbip_bridge.Backend.Devices.Lookup.{
  exported, usb_backend_get_devices, usb_backend_get_device_by_busid,
}
use esp_usbip_bridge.Bridge.{IsBackend, devlist_exported, import_exported}
use esp_usbip_bridge.Examples.World.{World, test_socket-IsStream, test_host, test_ops, test_backend}
use esp_usbip_bridge.Examples.Backend.{one_table, one_table-IsTable, first_slot}

abbrev virtuals : Registry (VirtualOps World)
virtuals =
    record {
      address = 1;
      ops = some test_ops;
      desc = record zero_device { busnum = 2; devnum = 1 };
    }
    ∷ []

abbrev host : Host World
host = record (test_host virtuals) {
  backend = record test_backend {
    get_devices = λ n w. usb_backend_get_devices n one_table virtuals;
    get_device_by_busid = λ busid w. usb_backend_get_device_by_busid busid one_table virtuals;
  };
}

host-IsQuiet : IsQuiet host
host-IsQuiet = record {
  malloc_pending = λ n w. refl;
  malloc_sent = λ n w. refl;
  calloc_pending = λ w. refl;
  calloc_sent = λ w. refl;
  stream_pending = λ w. refl;
  stream_sent = λ w. refl;
  task_pending = λ i w. refl;
  delay_pending = λ w. refl;
}

host-IsBackend : IsBackend host (λ w. one_table)
host-IsBackend = record { devices = λ n w. refl; device = λ busid w. refl }

abbrev config : ServerConfig
config = record { max_devices = 4; max_transfer = 4096; rounds = 1; requests = 2 }

-- A client that asks for 1-5.
abbrev client : World
client = record { inbox = busid_key 1 5; outbox = [] }

abbrev listed : List Device
listed =
    take 8 (exported one_table ++ map (λ (d : VirtualDevice (VirtualOps World)). d.desc) virtuals)

devlist_exported_example :
    (handle_devlist_request host config 100 client).1.outbox
    ≡ [] ++ (op_common op_rep_devlist 0 ++ (be32 (length listed) ++ devices_bytes listed))
unfolding handle_devlist_request esp_usbip_bridge.Socket.write_all
    esp_usbip_bridge.Socket.write_loop op_common usb_backend_get_devices
    esp_usbip_bridge.Backend.Devices.process_backend_events
    esp_usbip_bridge.Backend.Descriptors.is_hub_device
    esp_usbip_bridge.Backend.Devices.find_free_slot
    esp_usbip_bridge.Backend.Devices.find_slot_by_devnum esp_usbip_bridge.Base.store_text busid_text
    esp_usbip_bridge.Base.decimal
devlist_exported_example =
    devlist_exported host test_socket-IsStream host-IsQuiet (λ w. one_table) host-IsBackend config
      100 client refl

abbrev fails : Imported → Bool
fails import_failed = true
fails _ = false

import_streams : fails (handle_import_request host config client).0 ≡ false
unfolding handle_import_request esp_usbip_bridge.Socket.read_exact esp_usbip_bridge.Socket.read_loop
    padded busid_text esp_usbip_bridge.Base.decimal usb_backend_get_device_by_busid
    esp_usbip_bridge.Backend.Devices.process_backend_events
    esp_usbip_bridge.Backend.Descriptors.is_hub_device
    esp_usbip_bridge.Backend.Devices.find_free_slot
    esp_usbip_bridge.Backend.Devices.find_slot_by_devnum esp_usbip_bridge.Registry.busid_matches_key
    esp_usbip_bridge.Base.bytes_eq esp_usbip_bridge.Base.c_string esp_usbip_bridge.Base.store_text
    esp_usbip_bridge.Socket.write_all esp_usbip_bridge.Socket.write_loop op_common
import_streams = refl

import_exported_example :
    (v : World) × (v.outbox
      ≡ [] ++ (op_common op_rep_import 0 ++ fill_wire_device_desc first_slot.device))
    × (handle_import_request host config client ≡ (
      streamed (handle_urb_stream host config (busid_key 1 5) (make_devid first_slot.device) v).0,
      (handle_urb_stream host config (busid_key 1 5) (make_devid first_slot.device) v).1,
    ))
unfolding esp_usbip_bridge.Socket.read_exact esp_usbip_bridge.Socket.read_loop padded busid_text
    esp_usbip_bridge.Base.decimal esp_usbip_bridge.Backend.Devices.process_backend_events
    esp_usbip_bridge.Backend.Descriptors.is_hub_device
    esp_usbip_bridge.Backend.Devices.find_free_slot
    esp_usbip_bridge.Backend.Devices.find_slot_by_devnum
import_exported_example =
    import_exported host test_socket-IsStream host-IsQuiet (λ w. one_table) host-IsBackend config
      client 0 5 first_slot refl one_table-IsTable refl refl refl
      (λ e. ground (arith, ap fails e, import_streams))
