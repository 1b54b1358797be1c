-- ===== src/Server/Requests.antt =====
-- main/usbip_server.c: the two operations before a stream, `OP_REQ_DEVLIST` and `OP_REQ_IMPORT`, and
-- `handle_client`, which chooses between them.
pub mod Laws
use esp_usbip_bridge.Base.{
  ℕ, zero, suc, ◌+◌, ◌*◌, ◌%◌, List, [], ◌∷◌, ◌++◌, Option, none, some, Bool, true, false, not,
  length, take, get_or, be16, be32, u32, ◌==◌, if◌then◌else◌,
}
use esp_usbip_bridge.Protocol.{
  usbip_version, op_req_import, op_rep_import, op_req_devlist, op_rep_devlist, op_common_size,
  op_version, op_code,
}
use esp_usbip_bridge.Device.{Device, Interface, no_interface}
use esp_usbip_bridge.Socket.{read_exact, write_all}
use esp_usbip_bridge.Registry.{virtual_device_max, find_by_busid}
use esp_usbip_bridge.Base.{is_some}
use esp_usbip_bridge.Server.Host.{Host}
use esp_usbip_bridge.Server.Reply.{send_op_common}
use esp_usbip_bridge.Server.Reader.{Outcome, cleanup}
use esp_usbip_bridge.Server.Slots.{fresh_ctx}
use esp_usbip_bridge.Server.Stream.{StreamConfig, stream_loop}

-- `(device->busnum << 16) | (device->devnum & 0xFFFF)`: the two parts share no bit.
unfoldable pub make_devid : Device → ℕ
make_devid d = u32 (d.busnum * 65536) + d.devnum % 65536

-- `usbip_device_desc_t` in network order.
unfoldable pub fill_wire_device_desc : Device → List ℕ
unfolding be16 be32
fill_wire_device_desc d =
    take 256 d.path
    ++ (take 32 d.busid
        ++ (be32 d.busnum
            ++ (be32 d.devnum
                ++ (be32 d.speed
                    ++ (be16 d.id_vendor
                        ++ (be16 d.id_product
                            ++ (be16 d.bcd_device
                                ++ (d.device_class ∷ d.device_subclass ∷ d.device_protocol
                                    ∷ d.configuration_value ∷ d.num_configurations
                                    ∷ d.num_interfaces ∷ []))))))))

-- `usbip_interface_desc_t`.
unfoldable pub interface_desc : Interface → List ℕ
interface_desc i = i.interface_class ∷ i.interface_subclass ∷ i.interface_protocol ∷ 0 ∷ []

-- What an import ends with: a failure of the socket, the answer that there is no such device, or
-- the end of the stream.
pub data Imported : Type 0 where
  import_failed : Imported
  not_found : Imported
  streamed : Outcome → Imported

-- What the connection's task did before it closes the socket.
pub data Served : Type 0 where
  no_header : Served
  bad_version : Served
  bad_code : Served
  devlist : Bool → Served
  import : Imported → Served

-- The fixed settings of the build: `CONFIG_USBIP_MAX_DEVICES` and `CONFIG_USBIP_MAX_TRANSFER`; and
-- the bounds on the loops of a stream.
pub record ServerConfig : Type 0 where
  pub max_devices : ℕ
  pub max_transfer : ℕ
  pub rounds : ℕ
  pub requests : ℕ

module _ {W : Type 0} (h : Host W) where
  -- `for (i = 0; i < num_interfaces; i++)`, from interface `i` on.
  unfoldable pub send_interfaces : ℕ → ℕ → List Interface → W → Bool × W
  unfolding interface_desc
  send_interfaces zero i intfs w = (true, w)
  send_interfaces (suc n) i intfs w =
      let (ok, w1) = write_all h.sock (interface_desc (get_or intfs i no_interface)) w in
      let rest = send_interfaces n (suc i) intfs w1 in elim ok [ true ↦ rest | false ↦ (false, w1) ]

  unfoldable pub send_device_with_interfaces : Device → W → Bool × W
  unfolding fill_wire_device_desc send_interfaces
  send_device_with_interfaces d w =
      let (ok, w1) = write_all h.sock (fill_wire_device_desc d) w in
      elim ok [ true ↦ send_interfaces d.num_interfaces 0 d.interfaces w1 | false ↦ (false, w1) ]

  unfoldable pub send_devices : List Device → W → Bool × W
  unfolding send_device_with_interfaces
  send_devices [] w = (true, w)
  send_devices (d ∷ ds) w =
      let (ok, w1) = send_device_with_interfaces d w in
      let rest = send_devices ds w1 in elim ok [ true ↦ rest | false ↦ (false, w1) ]

  module _ (cfg : ServerConfig) where
    -- `device_size` is `sizeof(usbip_backend_device_t)`.
    unfoldable pub handle_devlist_request : ℕ → W → Bool × W
    unfolding send_devices be32 send_op_common
    handle_devlist_request device_size w =
        let max_devices = cfg.max_devices + virtual_device_max in
        let (got, w1) = h.malloc (max_devices * device_size) w in
        let devices = h.backend.get_devices max_devices w1 in
        let (ok, w2) = send_op_common h op_rep_devlist 0 w1 in
        let (counted, w3) = write_all h.sock (be32 (length devices)) w2 in
        elim got [
          | false ↦ (false, w1)
          | true ↦ elim ok [
            | false ↦ (false, w2)
            | true ↦ elim counted [ false ↦ (false, w3) | true ↦ send_devices devices w3 ]
          ]
        ]

    -- The stream of an imported device; `handle_urb_stream` allocates its context and its mutex.
    unfoldable pub handle_urb_stream : List ℕ → ℕ → W → Outcome × W
    handle_urb_stream busid devid w =
        let stream : StreamConfig = record {
          max_transfer = cfg.max_transfer;
          imported_busid = busid;
          expected_devid = devid;
          is_virtual = is_some (find_by_busid (some busid) (h.registry w));
          rounds = cfg.rounds;
        } in
        let (got, w1) = h.calloc_stream w in
        let (outcome, c, w2) = stream_loop h stream cfg.requests fresh_ctx w1 in
        elim got [ true ↦ (outcome, w2) | false ↦ (cleanup, w1) ]

    unfoldable pub handle_import_request : W → Imported × W
    unfolding handle_urb_stream fill_wire_device_desc make_devid send_op_common
    handle_import_request w =
        let (key, w1) = read_exact h.sock 32 w in
        elim key [
          | none ↦ (import_failed, w1)
          | some busid ↦ elim (h.backend.get_device_by_busid busid w1) [
            | none ↦
                let (ok, w2) = send_op_common h op_rep_import 1 w1 in
                elim ok [ true ↦ (not_found, w2) | false ↦ (import_failed, w2) ]
            | some device ↦
                let (ok, w2) = send_op_common h op_rep_import 0 w1 in
                let (described, w3) = write_all h.sock (fill_wire_device_desc device) w2 in
                let (outcome, w4) = handle_urb_stream busid (make_devid device) w3 in
                elim ok [
                  | false ↦ (import_failed, w2)
                  | true ↦ elim described [
                    | false ↦ (import_failed, w3)
                    | true ↦ (streamed outcome, w4)
                  ]
                ]
          ]
        ]

    unfoldable pub handle_client : ℕ → W → Served × W
    handle_client device_size w =
        let (header, w1) = read_exact h.sock op_common_size w in
        let (listed, w2) = handle_devlist_request device_size w1 in
        let (imported, w3) = handle_import_request w1 in
        elim header [
          | none ↦ (no_header, w1)
          | some request ↦
              if not (op_version request == usbip_version)
              then (bad_version, w1)
              else if op_code request == op_req_devlist
              then (devlist listed, w2)
              else if op_code request == op_req_import
              then (import imported, w3)
              else (bad_code, w1)
        ]
