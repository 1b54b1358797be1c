-- ===== src/Bridge.antt =====
-- main/usbip_server.c on top of main/usb_backend.c and main/virtual_device.c: the device list and the
-- import, with the backend that the repository has.
use esp_usbip_bridge.Base.{
  ℕ, ◌+◌, ◌*◌, ◌≡◌, ◌≢◌, ap, ◌∙◌, List, ◌++◌, some, true, length, take, map, get_elem?, be32,
}
use esp_usbip_bridge.Protocol.{op_common, op_rep_devlist, op_rep_import}
use esp_usbip_bridge.Registry.{VirtualDevice, virtual_device_max}
use esp_usbip_bridge.Registry.Laws.{busid_key}
use esp_usbip_bridge.Socket.{IsStream, read_exact}
use esp_usbip_bridge.Server.Host.{Host, IsQuiet, VirtualOps}
use esp_usbip_bridge.Server.Requests.{
  ServerConfig, make_devid, fill_wire_device_desc, handle_devlist_request, import_failed, streamed,
  handle_import_request, handle_urb_stream,
}
use esp_usbip_bridge.Server.Requests.Laws.{devices_bytes, handle_devlist_request-true, import_known}
use esp_usbip_bridge.Backend.Devices.{Table, DeviceSlot}
use esp_usbip_bridge.Backend.Devices.Tables.{IsTable}
use esp_usbip_bridge.Backend.Devices.Lookup.{
  exported, usb_backend_get_devices, usb_backend_get_device_by_busid, get_devices-take,
  get_device_by_busid-physical,
}

-- The server's backend is the one of the repository, over the table that the world holds.
pub record IsBackend {W : Type 0} (h : Host W) (table : W → Table) : Type 0 where
  pub devices :
      (n : ℕ) (w : W)
      → h.backend.get_devices n w ≡ usb_backend_get_devices n (table w) (h.registry w)
  pub device :
      (busid : List ℕ) (w : W)
      → h.backend.get_device_by_busid busid w
        ≡ usb_backend_get_device_by_busid busid (table w) (h.registry w)

module _ {W : Type 0} (h : Host W) (law : IsStream h.sock) (quiet : IsQuiet h) (table : W → Table)
    (backend : IsBackend h table) (cfg : ServerConfig) where
  open h use {sock}

  -- Over a socket that is a stream, with an allocator and a scheduler that leave the streams alone,
  -- and with the backend of the repository: a device list request that succeeds has sent the reply
  -- header, then the number and the entries of the devices in the slots in use, in the order of the
  -- slots, and of the virtual devices, in the order of their registration, cut off at the size of
  -- the array, and nothing else.
  pub devlist_exported :
      (size : ℕ) (w : W)
      → (handle_devlist_request h cfg size w).0 ≡ true
      → let max_devices = cfg.max_devices + virtual_device_max in
        let w1 = (h.malloc (max_devices * size) w).1 in
        let devices = take max_devices (
          exported (table w1)
          ++ map (λ (d : VirtualDevice (VirtualOps W)). d.desc) (h.registry w1)) in
        sock.sent (handle_devlist_request h cfg size w).1
        ≡ sock.sent w
          ++ (op_common op_rep_devlist 0 ++ (be32 (length devices) ++ devices_bytes devices))
  devlist_exported size w ok =
      let max_devices = cfg.max_devices + virtual_device_max in
      let w1 = (h.malloc (max_devices * size) w).1 in
      handle_devlist_request-true h law quiet cfg size w ok
      ∙ ap
          (λ ds.
            sock.sent w ++ (op_common op_rep_devlist 0 ++ (be32 (length ds) ++ devices_bytes ds)))
          (backend.devices max_devices w1 ∙ get_devices-take max_devices (table w1) (h.registry w1))

  -- Over a socket that is a stream, with an allocator and a scheduler that leave the streams alone,
  -- and with the backend of the repository, in whose table every slot in use holds a device named
  -- `1-<devnum>`, of a number below 256 and no two of one number: an import of the key of `1-n`, if
  -- it does not fail, opens the stream of the device in the slot in use that has number `n`, under
  -- its device id, in a world where the client was sent the header with status 0 and that device's
  -- descriptor, without those of its interfaces.
  pub import_exported :
      (w : W) (i n : ℕ) (s : DeviceSlot)
      → (read_exact sock 32 w).0 ≡ some (busid_key 1 n)
      → IsTable (table (read_exact sock 32 w).1)
      → get_elem? (table (read_exact sock 32 w).1) i ≡ some s
      → s.in_use ≡ true
      → s.device.devnum ≡ n
      → (handle_import_request h cfg w).0 ≢ import_failed
      → (v : W) × (sock.sent v
          ≡ sock.sent w ++ (op_common op_rep_import 0 ++ fill_wire_device_desc s.device))
        × (handle_import_request h cfg w ≡ (
          streamed (handle_urb_stream h cfg (busid_key 1 n) (make_devid s.device) v).0,
          (handle_urb_stream h cfg (busid_key 1 n) (make_devid s.device) v).1,
        ))
  import_exported w i n s r v g used num ok =
      let w1 = (read_exact sock 32 w).1 in
      import_known h law quiet cfg w (busid_key 1 n) s.device r
        (backend.device (busid_key 1 n) w1
          ∙ get_device_by_busid-physical (table w1) (h.registry w1) i n s v g used num)
        ok
