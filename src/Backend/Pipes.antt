-- ===== src/Backend/Pipes.antt =====
-- main/usb_backend.c: one transfer on one host pipe, from its submission to the hardware to its result.
-- The transfer objects of the ESP-IDF host library are the operations of `TransferHost`.
pub mod Pool
pub mod Callers
pub mod Task
pub mod Submission
pub mod Completion
use esp_usbip_bridge.Base.{
  ℕ, zero, suc, ◌+◌, ◌-◌, ◌*◌, ◌/◌, ◌%◌, List, [], ◌∷◌, ◌++◌, Option, none, some, Bool, true, false,
  ◌&&◌, ◌||◌, not, length, get_elem?, take, drop, ltb, leb, ◌==◌, if◌then◌else◌, byte_at, min,
}
use esp_usbip_bridge.Errno.{Status, success, failure, Errno}
use esp_usbip_bridge.Esp.{EspErr, esp_ok, is_ok, is_invalid_state}
use esp_usbip_bridge.Backend.Devices.{UsbHost, Table, find_slot_by_busid, ensure_interfaces_claimed}

-- `usb_transfer_status_t`; the last is any that the switch does not name.
pub data TransferStatus : Type 0 where
  completed timed_out canceled stall no_device other_status : TransferStatus

-- `usb_transfer_t`; its context is the pipe that holds it.
pub record Transfer : Type 0 where
  pub data_buffer : List ℕ
  pub device_handle : ℕ
  pub b_endpoint_address : ℕ
  pub num_bytes : ℕ
  pub timeout_ms : ℕ
  pub transfer_status : TransferStatus
  pub actual_num_bytes : ℕ

-- `usb_backend_pipe_req_t`. The cells of the caller that it points to are part of it: the IN buffer
-- and `*in_len_out` (`received`), `*status_out` and the cancel flag. A NULL cancel pointer is a flag
-- that stays false. `done` is the binary `done_sem`; `answers` is no field of the code: it counts how
-- often the semaphore was given.
pub record Pipe : Type 0 where
  pub assigned : Bool
  pub active : Bool
  pub submitted : Bool
  pub is_completed : Bool
  pub aborted : Bool
  pub busid : List ℕ
  pub endpoint_addr : ℕ
  pub setup : List ℕ
  pub out_data : Option (List ℕ)
  pub out_len : ℕ
  pub in_data : Option (List ℕ)
  pub in_capacity : ℕ
  pub received : ℕ
  pub status_out : Status
  pub cancel : Bool
  pub done : ℕ
  pub answers : ℕ
  pub xfer : Option Transfer
  pub dev_hdl : ℕ
  pub deadline : ℕ
  pub is_control : Bool
  pub is_in : Bool
  pub payload_len : ℕ

-- What `usb_parse_interface_descriptor` and `usb_parse_endpoint_descriptor_by_index` return.
pub record IntfDesc : Type 0 where
  pub b_num_endpoints : ℕ
  pub intf_offset : ℕ

pub record EpDesc : Type 0 where
  pub b_endpoint_address : ℕ
  pub w_max_packet_size : ℕ

pub record TransferHost (U : Type 0) : Type 0 where
  -- The two parsers take the offset that the last call left, and return the next one.
  pub parse_interface : List ℕ → ℕ → ℕ → Option IntfDesc × ℕ
  pub parse_endpoint : IntfDesc → ℕ → ℕ → ℕ → Option EpDesc × ℕ
  pub transfer_alloc : ℕ → U → EspErr × Option Transfer × U
  pub transfer_submit : Transfer → U → EspErr × U
  pub transfer_submit_control : Transfer → U → EspErr × U
  pub transfer_free : Transfer → U → U
  -- A `TickType_t` of 32 bits, and how many of them a time in milliseconds is.
  pub tick_count : U → ℕ
  pub ms_to_ticks : ℕ → ℕ

-- `memcpy(buf + offset, src, n)`.
abbrev pub copy_to : ℕ → ℕ → List ℕ → List ℕ → List ℕ
copy_to offset n src buf = take offset buf ++ take n src ++ drop (offset + n) buf

-- `((len + mps - 1) / mps) * mps`, unless it is that already.
unfoldable pub round_up : ℕ → ℕ → ℕ
round_up zero len = len
round_up (suc m) len = if len % suc m == 0 then len else (len + suc m - 1) / suc m * suc m

-- The setup packet goes to the front of a control transfer, and the data of an OUT one behind it.
unfoldable pub fill_buffer : Pipe → List ℕ → List ℕ
fill_buffer p buf =
    let front = if p.is_control then 8 else 0 in
    let buf1 = if p.is_control then copy_to 0 8 p.setup buf else buf in
    let buf2 : List ℕ = elim p.out_data [
      | none ↦ buf1
      | some src ↦ copy_to front p.out_len src buf1
    ] in
    if not p.is_in && ltb 0 p.out_len then buf2 else buf1

module _ {U : Type 0} (host : UsbHost U) (lib : TransferHost U) (max_transfer : ℕ) where
  -- Endpoints `i`, ..., `i + n - 1` of an interface.
  unfoldable pub find_mps : ℕ → ℕ → IntfDesc → ℕ → ℕ → ℕ → Option ℕ × ℕ
  find_mps zero i intf total_length offset endpoint_addr = (none, offset)
  find_mps (suc n) i intf total_length offset endpoint_addr =
      let (e, offset') = lib.parse_endpoint intf i total_length offset in
      let rest = find_mps n (suc i) intf total_length offset' endpoint_addr in
      elim e [
        | none ↦ rest
        | some d ↦
            if d.b_endpoint_address == endpoint_addr
            then (some d.w_max_packet_size, offset')
            else rest
      ]

  -- Interfaces `i`, ..., `i + n - 1`; each search starts from offset 0.
  unfoldable pub find_mps_in : ℕ → ℕ → List ℕ → ℕ → ℕ
  unfolding find_mps
  find_mps_in zero i cfg endpoint_addr = 64
  find_mps_in (suc n) i cfg endpoint_addr =
      let rest = find_mps_in n (suc i) cfg endpoint_addr in
      let (intf, offset) = lib.parse_interface cfg i 0 in
      elim intf [
        | none ↦ rest
        | some d ↦
            elim (find_mps d.b_num_endpoints 0 d (byte_at cfg 2 + byte_at cfg 3 * 256) offset
              endpoint_addr).0 [ none ↦ rest | some mps ↦ mps ]
      ]

  unfoldable pub get_endpoint_mps : ℕ → Table → ℕ → U → ℕ
  unfolding find_mps_in
  get_endpoint_mps dev_slot t endpoint_addr u = elim (get_elem? t dev_slot) [
    | none ↦ 64
    | some s ↦
        let (err, cfg) = host.get_active_config_descriptor s.dev_hdl u in
        let mps : ℕ = elim cfg [
          | none ↦ 64
          | some c ↦ find_mps_in s.device.num_interfaces 0 c endpoint_addr
        ] in
        if is_ok err then mps else 64
  ]

  -- `xfer_len`, for a pipe whose direction and payload are set.
  unfoldable pub transfer_length : Pipe → Option ℕ → Table → U → ℕ
  unfolding get_endpoint_mps round_up
  transfer_length p dev_slot t u =
      let rounded : ℕ = elim dev_slot [
        | none ↦ p.payload_len
        | some slot ↦ round_up (get_endpoint_mps slot t p.endpoint_addr u) p.payload_len
      ] in
      if p.is_control
      then 8 + p.payload_len
      else if p.is_in && ltb 0 p.payload_len
      then rounded
      else p.payload_len

  -- From the filling of the allocated transfer on.
  unfoldable pub submit_transfer : Pipe → ℕ → Transfer → U → Status × Pipe × U
  unfolding fill_buffer
  submit_transfer p xfer_len transfer u =
      let transfer' : Transfer = record transfer {
        data_buffer = fill_buffer p transfer.data_buffer;
        device_handle = p.dev_hdl;
        b_endpoint_address = p.endpoint_addr;
        num_bytes = xfer_len;
        timeout_ms = 5000;
      } in
      let (err, u1) =
        if p.is_control
        then lib.transfer_submit_control transfer' u
        else lib.transfer_submit transfer' u in
      if is_ok err
      then (
        success,
        record p {
          xfer = some transfer';
          submitted = true;
          is_completed = false;
          aborted = false;
          deadline = (lib.tick_count u1 + lib.ms_to_ticks transfer'.timeout_ms) % 4_294_967_296;
        },
        u1,
      )
      else (
        if is_invalid_state err then failure Errno.enodev else failure Errno.eio,
        p,
        lib.transfer_free transfer' u1,
      )

  -- From the test of the device handle on.
  unfoldable pub submit_prepared : Pipe → ℕ → U → Status × Pipe × U
  unfolding submit_transfer
  submit_prepared p xfer_len u =
      let (err, allocated, u1) = lib.transfer_alloc xfer_len u in
      if p.dev_hdl == 0
      then (failure Errno.enodev, p, u)
      else if ltb max_transfer p.payload_len
      then (failure Errno.emsgsize, p, u)
      else if not (is_ok err)
      then (failure Errno.enomem, p, u1)
      else elim allocated [
        | none ↦ (failure Errno.enomem, p, u1)
        | some transfer ↦ submit_transfer p xfer_len transfer u1
      ]

  abbrev pub with_direction : Pipe → Pipe
  with_direction p = record p {
    received = 0;
    is_control = p.endpoint_addr == 0;
    is_in =
        if p.endpoint_addr == 0
        then byte_at p.setup 0 / 128 % 2 == 1
        else p.endpoint_addr / 128 % 2 == 1;
  }

  abbrev pub with_device : Option ℕ → Table → Pipe → Pipe
  with_device dev_slot t p = record p {
    dev_hdl = elim dev_slot [
      | none ↦ 0
      | some slot ↦ elim (get_elem? t slot) [ none ↦ 0 | some s ↦ s.dev_hdl ]
    ];
    payload_len = if p.is_in then p.in_capacity else p.out_len;
  }

  unfoldable pub prepare_and_submit_transfer : Pipe → Table → U → Status × Pipe × Table × U
  unfolding find_slot_by_busid ensure_interfaces_claimed transfer_length submit_prepared
  prepare_and_submit_transfer pipe t u =
      let p = with_direction pipe in
      let dev_slot = find_slot_by_busid p.busid t in
      let (claim_err, t1, u1) : EspErr × Table × U = elim dev_slot [
        | none ↦ (esp_ok, t, u)
        | some slot ↦
            if p.is_control then (esp_ok, t, u) else ensure_interfaces_claimed host slot t u
      ] in
      let p1 = with_device dev_slot t1 p in
      let (status, p2, u2) = submit_prepared p1 (transfer_length p1 dev_slot t1 u1) u1 in
      if is_ok claim_err then (status, p2, t1, u2) else (failure Errno.eio, p, t1, u1)
