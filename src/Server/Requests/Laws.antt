-- ===== src/Server/Requests/Laws.antt =====
-- What a client reads in answer to a device list and to an import.
use esp_usbip_bridge.Base.{
  ℕ, zero, suc, ◌+◌, ◌*◌, ◌<◌, ◌≡◌, ◌≢◌, refl, sym, ap, ◌∙◌, List, [], ◌∷◌, ◌++◌, append-nil,
  append_assoc, none, some, true, length, get_or, length-append, length-take, be16, be32,
  Bool-cases, inl, inr, ◌⊎◌, arith,
}
use esp_usbip_bridge.Protocol.{op_common, op_rep_devlist, op_rep_import}
use esp_usbip_bridge.Device.{Device, Interface, no_interface}
use esp_usbip_bridge.Registry.{virtual_device_max}
use esp_usbip_bridge.Socket.{IsStream, read_exact, write_all}
use esp_usbip_bridge.Socket.Laws.{write_all-true, read_exact_sent}
use esp_usbip_bridge.Server.Host.{Host, IsQuiet}
use esp_usbip_bridge.Server.Reply.{send_op_common}
use esp_usbip_bridge.Server.Requests.{
  ServerConfig, make_devid, fill_wire_device_desc, interface_desc, send_interfaces,
  send_device_with_interfaces, send_devices, handle_devlist_request, import_failed, not_found,
  streamed, handle_import_request, handle_urb_stream,
}

-- The interface descriptors of interfaces `i`, `i + 1`, ..., `i + n - 1`.
abbrev pub interfaces_bytes : ℕ → ℕ → List Interface → List ℕ
interfaces_bytes zero i intfs = []
interfaces_bytes (suc n) i intfs =
    interface_desc (get_or intfs i no_interface) ++ interfaces_bytes n (suc i) intfs

-- The entry of a device in the list: its descriptor, then those of its interfaces.
abbrev pub device_bytes : Device → List ℕ
device_bytes d = fill_wire_device_desc d ++ interfaces_bytes d.num_interfaces 0 d.interfaces

abbrev pub devices_bytes : List Device → List ℕ
devices_bytes [] = []
devices_bytes (d ∷ ds) = device_bytes d ++ devices_bytes ds

module _ {W : Type 0} (h : Host W) (law : IsStream h.sock) where
  open h use {sock}

  send_interfaces-true :
      (n i : ℕ) (intfs : List Interface) (w : W)
      → let (ok, w') = send_interfaces h n i intfs w in
        ok ≡ true → sock.sent w' ≡ sock.sent w ++ interfaces_bytes n i intfs
  unfolding send_interfaces
  send_interfaces-true zero i intfs w = λ k. sym (append-nil _)
  send_interfaces-true (suc n) i intfs w =
      let one = interface_desc (get_or intfs i no_interface) in
      let w1 = (write_all sock one w).1 in
      ground (
        arith,
        write_all-true sock law one w,
        send_interfaces-true n (suc i) intfs w1,
        append_assoc (sock.sent w) one (interfaces_bytes n (suc i) intfs),
      )

  send_device_true :
      (d : Device) (w : W)
      → let (ok, w') = send_device_with_interfaces h d w in
        ok ≡ true → sock.sent w' ≡ sock.sent w ++ device_bytes d
  unfolding send_device_with_interfaces
  send_device_true d w =
      let desc = fill_wire_device_desc d in
      let w1 = (write_all sock desc w).1 in
      ground (
        arith,
        write_all-true sock law desc w,
        send_interfaces-true d.num_interfaces 0 d.interfaces w1,
        append_assoc (sock.sent w) desc (interfaces_bytes d.num_interfaces 0 d.interfaces),
      )

  send_devices-true :
      (ds : List Device) (w : W)
      → let (ok, w') = send_devices h ds w in
        ok ≡ true → sock.sent w' ≡ sock.sent w ++ devices_bytes ds
  unfolding send_devices
  send_devices-true [] w = λ k. sym (append-nil _)
  send_devices-true (d ∷ ds) w =
      let w1 = (send_device_with_interfaces h d w).1 in
      ground (
        arith,
        send_device_true d w,
        send_devices-true ds w1,
        append_assoc (sock.sent w) (device_bytes d) (devices_bytes ds),
      )

  module _ (quiet : IsQuiet h) (cfg : ServerConfig) where
    -- Over a socket that is a stream, with an allocator that leaves the streams alone: a device list
    -- request that succeeds has sent the reply header, the number of the devices that the backend
    -- reports, and the entry of each of them, in order, and nothing else.
    pub handle_devlist_request-true :
        (size : ℕ) (w : W)
        → (handle_devlist_request h cfg size w).0 ≡ true
        → let max_devices = cfg.max_devices + virtual_device_max in
          let devices = h.backend.get_devices max_devices (h.malloc (max_devices * size) w).1 in
          sock.sent (handle_devlist_request h cfg size w).1
          ≡ sock.sent w
            ++ (op_common op_rep_devlist 0 ++ (be32 (length devices) ++ devices_bytes devices))
    unfolding handle_devlist_request send_op_common
    handle_devlist_request-true size w =
        let max_devices = cfg.max_devices + virtual_device_max in
        let w1 = (h.malloc (max_devices * size) w).1 in
        let devices = h.backend.get_devices max_devices w1 in
        let reply = op_common op_rep_devlist 0 in
        let w2 = (write_all sock reply w1).1 in
        let w3 = (write_all sock (be32 (length devices)) w2).1 in
        ground (
          arith,
          quiet.malloc_sent (max_devices * size) w,
          write_all-true sock law reply w1,
          write_all-true sock law (be32 (length devices)) w2,
          send_devices-true devices w3,
          append_assoc (sock.sent w) reply (be32 (length devices)),
          append_assoc (sock.sent w) (reply ++ be32 (length devices)) (devices_bytes devices),
          append_assoc reply (be32 (length devices)) (devices_bytes devices),
        )

    -- Over a socket that is a stream, with an allocator and a scheduler that leave the streams
    -- alone: the import of a bus id that the backend does not know opens no stream; it is answered
    -- by a header with status 1 and nothing else, or it fails.
    pub import_unknown :
        (w : W) (busid : List ℕ)
        → (read_exact sock 32 w).0 ≡ some busid
        → h.backend.get_device_by_busid busid (read_exact sock 32 w).1 ≡ none
        → let (result, w') = handle_import_request h cfg w in
          ((result ≡ not_found) × (sock.sent w' ≡ sock.sent w ++ op_common op_rep_import 1))
          ⊎ (result ≡ import_failed)
    unfolding handle_import_request send_op_common
    import_unknown w busid r u =
        let w1 = (read_exact sock 32 w).1 in
        let reply = op_common op_rep_import 1 in
        elim (Bool-cases (write_all sock reply w1).0) [
          | inl p ↦
              rw (r, u, p, handle_import_request)
                (inl (
                  refl,
                  write_all-true sock law reply w1 p
                      ∙ ap (λ l. l ++ reply) (read_exact_sent sock law 32 w),
                ))
          | inr p ↦ rw (r, u, p, handle_import_request) (inr refl)
        ]

    -- Over a socket that is a stream, with an allocator and a scheduler that leave the streams
    -- alone: an import of a bus id that the backend knows, if it does not fail, opens the stream of
    -- that device, under its device id, in a world where the client was sent the header with status
    -- 0 and the device's descriptor, without those of its interfaces.
    pub import_known :
        (w : W) (busid : List ℕ) (device : Device)
        → (read_exact sock 32 w).0 ≡ some busid
        → h.backend.get_device_by_busid busid (read_exact sock 32 w).1 ≡ some device
        → (handle_import_request h cfg w).0 ≢ import_failed
        → (v : W) × (sock.sent v
            ≡ sock.sent w ++ (op_common op_rep_import 0 ++ fill_wire_device_desc device))
          × (handle_import_request h cfg w ≡ (
            streamed (handle_urb_stream h cfg busid (make_devid device) v).0,
            (handle_urb_stream h cfg busid (make_devid device) v).1,
          ))
    unfolding handle_import_request send_op_common
    import_known w busid device r u k =
        let w1 = (read_exact sock 32 w).1 in
        let reply = op_common op_rep_import 0 in
        let w2 = (write_all sock reply w1).1 in
        let desc = fill_wire_device_desc device in
        let w3 = (write_all sock desc w2).1 in
        elim (Bool-cases (write_all sock reply w1).0) [
          | inl p ↦ elim (Bool-cases (write_all sock desc w2).0) [
            | inl q ↦ (
              w3,
              write_all-true sock law desc w2 q
                  ∙ ap (λ l. l ++ desc)
                      (write_all-true sock law reply w1 p
                        ∙ ap (λ l. l ++ reply) (read_exact_sent sock law 32 w))
                  ∙ append_assoc (sock.sent w) reply desc,
              rw (r, u, p, q, handle_import_request),
            )
            | inr q ↦ absurd (k (rw (r, u, p, q, handle_import_request)))
          ]
          | inr p ↦ absurd (k (rw (r, u, p, handle_import_request)))
        ]

-- The wire descriptor of a device with a path of 256 bytes and a bus id of 32 has the 312 bytes of
-- `usbip_device_desc_t`.
pub length-fill_wire_device_desc :
    (d : Device)
    → length d.path ≡ 256
    → length d.busid ≡ 32
    → length (fill_wire_device_desc d) ≡ 312
unfolding fill_wire_device_desc be16 be32
length-fill_wire_device_desc d p b = omega (arith, length-append {0}, length-take {0})

-- Devices with 16-bit bus and device numbers and one device id have the same bus and device number.
pub make_devid-injective :
    (d e : Device)
    → d.busnum < 65536
    → e.busnum < 65536
    → d.devnum < 65536
    → e.devnum < 65536
    → make_devid d ≡ make_devid e
    → (d.busnum ≡ e.busnum) × (d.devnum ≡ e.devnum)
unfolding make_devid
make_devid-injective d e b1 b2 d1 d2 h = omega arith
