-- ===== src/Server/Stream/Pending.antt =====
-- main/usbip_server.c, `handle_urb_stream`: how much of the client's stream each step consumes.
use esp_usbip_bridge.Base.{
  ℕ, zero, suc, ◌+◌, ◌≤◌, ◌≡◌, refl, sym, ap, ◌∙◌, List, [], ◌++◌, none, Bool, true, false, ltb,
  length, drop, arith, Bool-cases, Option-cases, inl, inr, ◌⊎◌, drop-append_left, append-nil,
}
use esp_usbip_bridge.Errno.{Errno, failure}
use esp_usbip_bridge.Protocol.{Header, seqnum}
use esp_usbip_bridge.Socket.{IsStream, read_exact, discard_exact}
use esp_usbip_bridge.Socket.Laws.{read_exact-some, discard_exact-true, discard_exact_sent}
use esp_usbip_bridge.Server.Host.{Host, IsQuiet, WorkItem}
use esp_usbip_bridge.Server.Slots.{StreamCtx, urb_stream_alloc_slot, urb_stream_free_slot}
use esp_usbip_bridge.Server.Reply.{ret_submit_header}
use esp_usbip_bridge.Server.Reply.Laws.{send_ret_submit-true}
use esp_usbip_bridge.Server.Reader.{
  keep_going, out_len, in_len, SlotWait, slot_found, stream_cancelled, still_waiting, Round, answer,
  error_reply, refuse_submit, free_slots, wait_slot, acquire_slot, dispatch,
}
use esp_usbip_bridge.Server.Stream.{StreamConfig, launch, make_item, alloc_in, accept_submit}

SlotWait-cases :
    (s : SlotWait) → (((i : ℕ) × (s ≡ slot_found i)) ⊎ (s ≡ stream_cancelled)) ⊎ (s ≡ still_waiting)
SlotWait-cases (slot_found i) = inl (inl (i, refl))
SlotWait-cases stream_cancelled = inl (inr refl)
SlotWait-cases still_waiting = inr refl

module _ {W : Type 0} (h : Host W) (law : IsStream h.sock) (quiet : IsQuiet h) where
  open h use {sock}

  pub answer_lem :
      (c : StreamCtx) (r : Bool × W)
      → let (outcome, c', w') = answer h c r in
        (c' ≡ c) × (w' ≡ r.1) × (outcome ≡ keep_going → r.0 ≡ true)
  unfolding answer
  answer_lem c (true, w) = (refl, refl, λ k. refl)
  answer_lem c (false, w) = (refl, refl, λ k. ground (arith, k))

  -- An error reply that goes out leaves the stream and the context as they were.
  pub error_reply_lem :
      (request : Header) (e : Errno) (c : StreamCtx) (w : W)
      → let (outcome, c', w') = error_reply h request e c w in
        (c' ≡ c)
        × (sock.pending w' ≡ sock.pending w)
        × (outcome ≡ keep_going
            → sock.sent w' ≡ sock.sent w ++ ret_submit_header request (failure e) 0)
  unfolding error_reply
  error_reply_lem request e c w = ground (
    arith,
    send_ret_submit-true h law quiet request (failure e) none 0 w,
    append-nil (ret_submit_header request (failure e) 0),
  )

  -- A refused request: its payload is skipped as far as the verdict says, and the answer is the
  -- error.
  pub refuse_submit_lem :
      (request : Header) (e : Errno) (n : ℕ) (c : StreamCtx) (w : W)
      → let (outcome, c', w') = refuse_submit h request e n c w in
        outcome ≡ keep_going
        → (c' ≡ c)
          × (n ≤ length (sock.pending w))
          × (sock.pending w' ≡ drop n (sock.pending w))
          × (sock.sent w' ≡ sock.sent w ++ ret_submit_header request (failure e) 0)
  unfolding refuse_submit
  refuse_submit_lem request e n c w = ground (
    arith,
    discard_exact-true sock law n w,
    discard_exact_sent sock law n w,
    error_reply_lem request e c (discard_exact sock n w).1,
  )

  wait_slot_pending :
      (rounds seq item : ℕ) (c : StreamCtx) (w : W)
      → sock.pending (wait_slot h rounds seq item c w).2 ≡ sock.pending w
  unfolding wait_slot
  wait_slot_pending zero seq item c w = refl
  wait_slot_pending (suc n) seq item c w =
      let w1 = (h.delay w).1 in
      let c1 = (urb_stream_alloc_slot (free_slots (h.delay w).0 c) seq item).1 in
      ground (arith, quiet.delay_pending w, wait_slot_pending n seq item c1 w1)

  acquire_slot_pending :
      (rounds seq item : ℕ) (c : StreamCtx) (w : W)
      → sock.pending (acquire_slot h rounds seq item c w).2 ≡ sock.pending w
  unfolding acquire_slot
  acquire_slot_pending rounds seq item c w = ground (arith, wait_slot_pending rounds seq item c w)

  dispatch_pending :
      (virtual : Bool) (i : WorkItem) (c : StreamCtx) (w : W)
      → let (outcome, c', w') = dispatch h virtual i c w in
        outcome ≡ keep_going → sock.pending w' ≡ sock.pending w
  unfolding dispatch
  dispatch_pending true i c w = ground arith
  dispatch_pending false i c w = ground (
    arith,
    quiet.task_pending i w,
    error_reply_lem i.request Errno.enomem (urb_stream_free_slot c i.slot) (h.task_create i w).1,
  )

  module _ (cfg : StreamConfig) where
    abbrev KeepsPending : W → Round h → Type 0
    KeepsPending w (outcome, c', w') = outcome ≡ keep_going → sock.pending w' ≡ sock.pending w

    launch_pending :
        (request : Header) (out_data : List ℕ) (c : StreamCtx) (w : W)
        → KeepsPending w (launch h cfg request out_data c w)
    unfolding launch
    launch_pending request out_data c w =
        let start = record c { next_item = c.next_item + 1 } in
        let found = acquire_slot h cfg.rounds (seqnum request) c.next_item start w in
        let same = acquire_slot_pending cfg.rounds (seqnum request) c.next_item start w in
        elim (SlotWait-cases found.0) [
          | inl (inl (i, e)) ↦ ground (
            arith,
            e,
            same,
            dispatch_pending cfg.is_virtual
                (record {
                  request = request;
                  imported_busid = cfg.imported_busid;
                  expected_devid = cfg.expected_devid;
                  item = c.next_item;
                  out_data = out_data;
                  in_capacity = in_len request;
                  slot = i;
                })
                found.1 found.2,
          )
          | inl (inr e) ↦ ground (arith, e)
          | inr e ↦ ground (arith, e)
        ]

    make_item_pending :
        (request : Header) (out_data : List ℕ) (c : StreamCtx) (w : W)
        → KeepsPending w (make_item h cfg request out_data c w)
    unfolding make_item
    make_item_pending request out_data c w =
        let w1 = (h.calloc_item w).1 in
        ground (
          arith,
          quiet.calloc_pending w,
          launch_pending request out_data c w1,
          error_reply_lem request Errno.enomem c w1,
        )

    alloc_in_pending :
        (request : Header) (out_data : List ℕ) (c : StreamCtx) (w : W)
        → KeepsPending w (alloc_in h cfg request out_data c w)
    unfolding alloc_in
    alloc_in_pending request out_data c w =
        let w1 = (h.malloc (in_len request) w).1 in
        elim (Bool-cases (ltb 0 (in_len request))) [
          | inl p ↦ elim (Bool-cases (h.malloc (in_len request) w).0) [
            | inl q ↦
                rw (p, q)
                  (λ k.
                    make_item_pending request out_data c w1 k
                    ∙ quiet.malloc_pending (in_len request) w)
            | inr q ↦
                rw (p, q)
                  (λ k.
                    (error_reply_lem request Errno.enomem c w1).1
                    ∙ quiet.malloc_pending (in_len request) w)
          ]
          | inr p ↦ rw p (make_item_pending request out_data c w)
        ]

    -- An accepted request takes just its OUT payload off the stream.
    pub accept_submit_pending :
        (request : Header) (c : StreamCtx) (w : W)
        → let (outcome, c', w') = accept_submit h cfg request c w in
          outcome ≡ keep_going → sock.pending w' ≡ drop (out_len request) (sock.pending w)
    unfolding accept_submit
    accept_submit_pending request c w =
        let n = out_len request in
        let w1 = (h.malloc n w).1 in
        let w2 = (read_exact sock n w1).1 in
        elim (Bool-cases (ltb 0 n)) [
          | inl p ↦ elim (Bool-cases (h.malloc n w).0) [
            | inl q ↦ elim (Option-cases (read_exact sock n w1).0) [
              | inl r ↦ rw (p, q, r) (λ k. absurd (ground (arith, k)))
              | inr (bytes, r) ↦
                  rw (p, q, r)
                    (λ k.
                      let got = read_exact-some sock law n w1 bytes r in
                      alloc_in_pending request bytes c w2 k
                      ∙ sym (drop-append_left bytes (sock.pending w2) n got.0)
                      ∙ ap (drop n) (sym got.1 ∙ quiet.malloc_pending n w))
            ]
            | inr q ↦
                rw (p, q)
                  (λ k.
                    (refuse_submit_lem request Errno.enomem n c w1 k).2
                    ∙ ap (drop n) (quiet.malloc_pending n w))
          ]
          | inr p ↦
              rw p
                (λ k. let e : n ≡ 0 = ground (arith, p) in rw e (alloc_in_pending request [] c w k))
        ]
