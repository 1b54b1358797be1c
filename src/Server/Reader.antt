-- ===== src/Server/Reader.antt =====
-- main/usbip_server.c: `handle_urb_stream`, the loop that reads the requests of an imported device.
use esp_usbip_bridge.Base.{
  ℕ, zero, suc, ◌%◌, ◌/◌, List, [], ◌∷◌, none, some, Bool, true, false, ◌&&◌, not, ltb, leb, ◌==◌,
  if◌then◌else◌, byte_at,
}
use esp_usbip_bridge.Errno.{failure, Errno}
use esp_usbip_bridge.Protocol.{
  Header, seqnum, devid, direction, ep, transfer_buffer_length, number_of_packets, dir_in, dir_out,
  non_iso_packets,
}
use esp_usbip_bridge.Socket.{discard_exact}
use esp_usbip_bridge.Server.Host.{Host, WorkItem}
use esp_usbip_bridge.Server.Slots.{StreamCtx, urb_stream_alloc_slot, urb_stream_free_slot}
use esp_usbip_bridge.Server.Reply.{send_ret_submit}
use esp_usbip_bridge.Server.Worker.{urb_worker_task}

-- How a round of the loop ends: `continue`, `goto cleanup`, the deletion of the task that runs the
-- loop, or a round that is still waiting for a slot.
pub data Outcome : Type 0 where
  keep_going cleanup task_deleted waiting : Outcome

-- What the checks of a `CMD_SUBMIT` decide: an error reply after so many bytes of payload are
-- skipped, the end of the stream, or the transfer.
pub data Verdict : Type 0 where
  refuse : Errno → ℕ → Verdict
  close : Verdict
  accept : Verdict

-- The bytes that follow the header on the stream.
abbrev pub out_len : Header → ℕ
out_len request = if direction request == dir_out then transfer_buffer_length request else 0

abbrev pub in_len : Header → ℕ
in_len request = if direction request == dir_in then transfer_buffer_length request else 0

-- `(setup[0] & USB_BM_REQUEST_TYPE_DIR_IN) != 0`.
abbrev pub setup_in : Header → Bool
setup_in request = byte_at request 40 / 128 % 2 == 1

unfoldable pub validate : ℕ → ℕ → Header → Verdict
validate max_transfer expected_devid request =
    let len = transfer_buffer_length request in
    let packets = number_of_packets request in
    if leb 2147483648 len
    then refuse Errno.einval 0
    else if ltb max_transfer len
    then refuse Errno.emsgsize (out_len request)
    else if not (direction request == dir_out) && not (direction request == dir_in)
    then close
    else if not (devid request == expected_devid)
    then refuse Errno.enodev (out_len request)
    else if not (packets == non_iso_packets) && not (packets == 0)
    then refuse Errno.eopnotsupp 0
    else if ep request == 0
        && (if direction request == dir_in then not (setup_in request) else setup_in request)
    then refuse Errno.einval 0
    else accept

-- What the search for a slot ends with.
pub data SlotWait : Type 0 where
  slot_found : ℕ → SlotWait
  stream_cancelled : SlotWait
  still_waiting : SlotWait

unfoldable pub free_slots : List ℕ → StreamCtx → StreamCtx
free_slots [] c = c
free_slots (s ∷ ss) c = free_slots ss (urb_stream_free_slot c s)

module _ {W : Type 0} (h : Host W) where
  abbrev pub Round : Type 0
  Round = Outcome × StreamCtx × W

  -- `if (!send_...(...)) goto cleanup; continue;`
  unfoldable pub answer : StreamCtx → Bool × W → Round
  answer c (true, w) = (keep_going, c, w)
  answer c (false, w) = (cleanup, c, w)

  unfoldable pub error_reply : Header → Errno → StreamCtx → W → Round
  unfolding answer
  error_reply request e c w = answer c (send_ret_submit h request (failure e) none 0 w)

  -- The payload is skipped first; `discard_exact` of 0 bytes does nothing.
  unfoldable pub refuse_submit : Header → Errno → ℕ → StreamCtx → W → Round
  unfolding error_reply
  refuse_submit request e n c w =
      let (skipped, w1) = discard_exact h.sock n w in
      elim skipped [ true ↦ error_reply request e c w1 | false ↦ (cleanup, c, w1) ]

  -- `while (item->slot < 0)`: a delay, another attempt, and the test of `ctx->cancel`.
  unfoldable pub wait_slot : ℕ → ℕ → ℕ → StreamCtx → W → SlotWait × StreamCtx × W
  unfolding free_slots
  wait_slot zero seqnum item c w = (still_waiting, c, w)
  wait_slot (suc rounds) seqnum item c w =
      let (freed, w1) = h.delay w in
      let (slot, c1) = urb_stream_alloc_slot (free_slots freed c) seqnum item in
      let more = wait_slot rounds seqnum item c1 w1 in
      elim c1.cancel [
        | true ↦ (stream_cancelled, c1, w1)
        | false ↦ elim slot [ some i ↦ (slot_found i, c1, w1) | none ↦ more ]
      ]

  unfoldable pub acquire_slot : ℕ → ℕ → ℕ → StreamCtx → W → SlotWait × StreamCtx × W
  unfolding wait_slot
  acquire_slot rounds seqnum item c w =
      let (slot, c1) = urb_stream_alloc_slot c seqnum item in
      elim slot [ some i ↦ (slot_found i, c1, w) | none ↦ wait_slot rounds seqnum item c w ]

  -- Virtual devices are served inline, which runs `vTaskDelete(NULL)` in the reader's own task.
  unfoldable pub dispatch : Bool → WorkItem → StreamCtx → W → Round
  unfolding error_reply
  dispatch is_virtual i c w =
      let (c1, w1) = urb_worker_task h i c w in
      let (created, w2) = h.task_create i w in
      elim is_virtual [
        | true ↦ (task_deleted, c1, w1)
        | false ↦ elim created [
          | true ↦ (keep_going, c, w2)
          | false ↦ error_reply i.request Errno.enomem (urb_stream_free_slot c i.slot) w2
        ]
      ]
