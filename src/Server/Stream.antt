-- ===== src/Server/Stream.antt =====
-- main/usbip_server.c: the rest of `handle_urb_stream`: an accepted `CMD_SUBMIT`, one round of the
-- loop, the loop, and the end of the stream.
pub mod Pending
pub mod Framing
pub mod Virtual
use esp_usbip_bridge.Base.{
  ℕ, zero, suc, ◌+◌, List, [], ◌∷◌, Option, none, some, Bool, true, false, not, is_some, ltb, ◌==◌,
  if◌then◌else◌,
}
use esp_usbip_bridge.Errno.{Status, success, Errno}
use esp_usbip_bridge.Protocol.{
  Header, header_size, command, seqnum, unlink_seqnum, cmd_submit, cmd_unlink,
}
use esp_usbip_bridge.Socket.{read_exact, discard_exact}
use esp_usbip_bridge.Registry.{find_by_busid}
use esp_usbip_bridge.Server.Host.{Host, WorkItem}
use esp_usbip_bridge.Server.Slots.{StreamCtx, fresh_ctx, unlink_urb, signal_cleanup}
use esp_usbip_bridge.Server.Reply.{send_ret_unlink}
use esp_usbip_bridge.Server.Reader.{
  Outcome, keep_going, cleanup, waiting, Verdict, refuse, close, accept, out_len, in_len, validate,
  SlotWait, slot_found, stream_cancelled, still_waiting, Round, answer, error_reply, refuse_submit,
  acquire_slot, dispatch,
}

-- What a stream is started with: `CONFIG_USBIP_MAX_TRANSFER`, the bus id and the device id of the
-- import, whether the device is virtual, and how many rounds a request may wait for a slot.
pub record StreamConfig : Type 0 where
  pub max_transfer : ℕ
  pub imported_busid : List ℕ
  pub expected_devid : ℕ
  pub is_virtual : Bool
  pub rounds : ℕ

module _ {W : Type 0} (h : Host W) (cfg : StreamConfig) where
  -- The item is built, gets its slot and goes to a worker.
  unfoldable pub launch : Header → List ℕ → StreamCtx → W → Round h
  launch request out_data c w =
      let seq = seqnum request in
      let (found, c1, w1) =
        acquire_slot h cfg.rounds seq c.next_item (record c { next_item = c.next_item + 1 }) w in
      elim found [
        | slot_found i ↦
            dispatch h cfg.is_virtual
              (record {
                request = request;
                imported_busid = cfg.imported_busid;
                expected_devid = cfg.expected_devid;
                item = c.next_item;
                out_data = out_data;
                in_capacity = in_len request;
                slot = i;
              })
              c1 w1
        | stream_cancelled ↦ (cleanup, c1, w1)
        | still_waiting ↦ (waiting, c1, w1)
      ]

  -- `calloc` of the work item.
  unfoldable pub make_item : Header → List ℕ → StreamCtx → W → Round h
  unfolding launch
  make_item request out_data c w =
      let (got, w1) = h.calloc_item w in
      elim got [
        | true ↦ launch request out_data c w1
        | false ↦ error_reply h request Errno.enomem c w1
      ]

  -- `malloc` of the IN buffer, if there is to be one.
  unfoldable pub alloc_in : Header → List ℕ → StreamCtx → W → Round h
  unfolding make_item
  alloc_in request out_data c w =
      let (got, w1) = h.malloc (in_len request) w in
      if ltb 0 (in_len request)
      then elim got [
        | true ↦ make_item request out_data c w1
        | false ↦ error_reply h request Errno.enomem c w1
      ]
      else make_item request out_data c w

  -- The OUT payload is read into a buffer of its own, or skipped if there is no memory for it.
  unfoldable pub accept_submit : Header → StreamCtx → W → Round h
  unfolding alloc_in
  accept_submit request c w =
      let (got, w1) = h.malloc (out_len request) w in
      let (out_data, w2) = read_exact h.sock (out_len request) w1 in
      if ltb 0 (out_len request)
      then elim got [
        | true ↦ elim out_data [
          | some bytes ↦ alloc_in request bytes c w2
          | none ↦ (cleanup, c, w2)
        ]
        | false ↦ refuse_submit h request Errno.enomem (out_len request) c w1
      ]
      else alloc_in request [] c w

  unfoldable pub serve_submit : Header → StreamCtx → W → Round h
  serve_submit request c w = elim (validate cfg.max_transfer cfg.expected_devid request) [
    | refuse e n ↦ refuse_submit h request e n c w
    | close ↦ (cleanup, c, w)
    | accept ↦ accept_submit request c w
  ]

  unfoldable pub serve_unlink : Header → StreamCtx → W → Round h
  serve_unlink request c w =
      answer h (unlink_urb c (unlink_seqnum request)) (send_ret_unlink h request success w)

  unfoldable pub serve_request : Header → StreamCtx → W → Round h
  serve_request request c w =
      if command request == cmd_unlink
      then serve_unlink request c w
      else if not (command request == cmd_submit)
      then (cleanup, c, w)
      else serve_submit request c w

  -- One round of `while (true)`.
  unfoldable pub serve_one : StreamCtx → W → Round h
  serve_one c w =
      let (request, w1) = read_exact h.sock header_size w in
      elim request [ some r ↦ serve_request r c w1 | none ↦ (cleanup, c, w1) ]

  -- The loop, for at most so many rounds; the outcome is `keep_going` when they are used up.
  unfoldable pub stream_loop : ℕ → StreamCtx → W → Round h
  stream_loop zero c w = (keep_going, c, w)
  stream_loop (suc fuel) c w =
      let (outcome, c1, w1) = serve_one c w in
      elim outcome [
        | keep_going ↦ stream_loop fuel c1 w1
        | cleanup ↦ (cleanup, signal_cleanup c1, w1)
        | other ↦ (other, c1, w1)
      ]
