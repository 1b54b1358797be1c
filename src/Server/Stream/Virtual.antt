-- ===== src/Server/Stream/Virtual.antt =====
-- main/usbip_server.c: a virtual device's requests are served inline by `urb_worker_task`, whose last
-- statement deletes the task that runs it, here the reader itself.
use esp_usbip_bridge.Base.{
  ℕ, suc, ◌+◌, ◌<◌, ◌≡◌, List, [], some, true, false, ltb, arith, ap, Bool-cases, inl, inr,
}
use esp_usbip_bridge.Protocol.{Header, header_size, command, direction, seqnum, cmd_submit, dir_in}
use esp_usbip_bridge.Socket.{read_exact}
use esp_usbip_bridge.Server.Host.{Host, WorkItem}
use esp_usbip_bridge.Server.Slots.{StreamCtx}
use esp_usbip_bridge.Server.Slots.Laws.{IsValid, alloc_slot_outcome}
use esp_usbip_bridge.Server.Worker.{urb_worker_task}
use esp_usbip_bridge.Server.Reader.{
  task_deleted, accept, out_len, in_len, validate, slot_found, acquire_slot, dispatch,
}
use esp_usbip_bridge.Server.Stream.{
  StreamConfig, launch, make_item, alloc_in, accept_submit, serve_submit, serve_request, serve_one,
  stream_loop,
}

module _ {W : Type 0} (h : Host W) (cfg : StreamConfig) (virtual : cfg.is_virtual ≡ true) where
  dispatch_virtual :
      (i : WorkItem) (c : StreamCtx) (w : W)
      → dispatch h cfg.is_virtual i c w
        ≡ (task_deleted, (urb_worker_task h i c w).0, (urb_worker_task h i c w).1)
  unfolding dispatch
  dispatch_virtual i c w = rw virtual

  acquire_free :
      (rounds seq item : ℕ) (c : StreamCtx) (w : W)
      → IsValid c
      → c.inflight_count < 8
      → (i : ℕ) × ((acquire_slot h rounds seq item c w).0 ≡ slot_found i)
  unfolding acquire_slot
  acquire_free rounds seq item c w v room = elim (alloc_slot_outcome c seq item v) [
    | inl (a, b, e) ↦ absurd (omega arith)
    | inr (i, old, a, _, _, _, _, _) ↦ (i, rw (a, acquire_slot))
  ]

  launch_virtual :
      (request : Header) (out : List ℕ) (c : StreamCtx) (w : W)
      → IsValid c
      → c.inflight_count < 8
      → (launch h cfg request out c w).0 ≡ task_deleted
  unfolding launch
  launch_virtual request out c w v room =
      let start = record c { next_item = c.next_item + 1 } in
      let (i, e) =
        acquire_free cfg.rounds (seqnum request) c.next_item start w
          (record { size = v.size; counted = v.counted }) room in
      rw (e, launch) (ap (λ r. r.0) (dispatch_virtual _ _ _))

  stream_loop_ends :
      (fuel : ℕ) (c : StreamCtx) (w : W)
      → (serve_one h cfg c w).0 ≡ task_deleted
      → stream_loop h cfg (suc fuel) c w ≡ serve_one h cfg c w
  unfolding stream_loop
  stream_loop_ends fuel c w e = rw (e, stream_loop)

  -- The allocations of the round succeed.
  module _ (memory : (n : ℕ) (w : W) → (h.malloc n w).0 ≡ true)
      (items : (w : W) → (h.calloc_item w).0 ≡ true) where
    make_item_virtual :
        (request : Header) (out : List ℕ) (c : StreamCtx) (w : W)
        → IsValid c
        → c.inflight_count < 8
        → (make_item h cfg request out c w).0 ≡ task_deleted
    unfolding make_item
    make_item_virtual request out c w v room =
        rw (items w, make_item) (launch_virtual request out c (h.calloc_item w).1 v room)

    alloc_in_virtual :
        (request : Header) (out : List ℕ) (c : StreamCtx) (w : W)
        → IsValid c
        → c.inflight_count < 8
        → (alloc_in h cfg request out c w).0 ≡ task_deleted
    unfolding alloc_in
    alloc_in_virtual request out c w v room = elim (Bool-cases (ltb 0 (in_len request))) [
      | inl p ↦
          rw (p, memory (in_len request) w, alloc_in)
            (make_item_virtual request out c (h.malloc (in_len request) w).1 v room)
      | inr p ↦ rw (p, alloc_in) (make_item_virtual request out c w v room)
    ]

    -- For a virtual device, with allocations that succeed: when the reader reads an IN submit that
    -- the checks accept, and the stream's slots are valid and not all taken, the round ends with the
    -- deletion of the reader's task, and the loop with that round, however long it is let run: no
    -- later request is served and the cleanup is not reached.
    pub virtual_ends_reader :
        (fuel : ℕ) (c : StreamCtx) (w : W) (request : Header)
        → (read_exact h.sock header_size w).0 ≡ some request
        → command request ≡ cmd_submit
        → direction request ≡ dir_in
        → validate cfg.max_transfer cfg.expected_devid request ≡ accept
        → IsValid c
        → c.inflight_count < 8
        → (stream_loop h cfg (suc fuel) c w ≡ serve_one h cfg c w)
          × ((serve_one h cfg c w).0 ≡ task_deleted)
    unfolding serve_one serve_request serve_submit accept_submit
    virtual_ends_reader fuel c w request r cmd dir ok v room =
        let w1 = (read_exact h.sock header_size w).1 in
        let none_out : ltb 0 (out_len request) ≡ false = ground (arith, dir) in
        let done : (serve_one h cfg c w).0 ≡ task_deleted =
          rw (r, serve_one)
            (rw (cmd, serve_request)
              (rw (ok, serve_submit)
                (rw (none_out, accept_submit) (alloc_in_virtual request [] c w1 v room)))) in
        (stream_loop_ends fuel c w done, done)
