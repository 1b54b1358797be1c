-- ===== src/Server/Stream/Framing.antt =====
-- main/usbip_server.c, `handle_urb_stream`: where the client's stream stands after a round of the
-- loop, and what the round answers.
use esp_usbip_bridge.Base.{
  ℕ, ◌≤◌, ◌<◌, ◌≡◌, ◌≢◌, refl, sym, ap, ◌∙◌, ◌++◌, some, true, false, ◌||◌, ◌==◌, if◌then◌else◌,
  drop, arith, Bool-cases, inl, inr, ◌⊎◌, drop-append_left,
}
use esp_usbip_bridge.Errno.{Errno, success, failure}
use esp_usbip_bridge.Protocol.{
  Header, header_size, direction, dir_out, transfer_buffer_length, devid, ep, number_of_packets,
  non_iso_packets, command, cmd_submit, cmd_unlink, unlink_seqnum,
}
use esp_usbip_bridge.Socket.{IsStream, read_exact}
use esp_usbip_bridge.Socket.Laws.{read_exact-some}
use esp_usbip_bridge.Server.Host.{Host, IsQuiet}
use esp_usbip_bridge.Server.Slots.{StreamCtx, unlink_urb}
use esp_usbip_bridge.Server.Reply.{ret_submit_header, ret_unlink_header, send_ret_unlink}
use esp_usbip_bridge.Server.Reply.Laws.{send_ret_unlink-true}
use esp_usbip_bridge.Server.Reader.{
  keep_going, Verdict, refuse, close, accept, out_len, setup_in, validate,
}
use esp_usbip_bridge.Server.Stream.Pending.{answer_lem, refuse_submit_lem, accept_submit_pending}
use esp_usbip_bridge.Server.Stream.{
  StreamConfig, serve_submit, serve_unlink, serve_request, serve_one,
}

module _ {W : Type 0} (h : Host W) (law : IsStream h.sock) (quiet : IsQuiet h) where
  open h use {sock}

  module _ (cfg : StreamConfig) where
    -- How much payload a submit's checks let through.
    abbrev pub taken : Verdict → Header → ℕ
    taken (refuse e n) request = n
    taken close request = 0
    taken accept request = out_len request

    verdict_pending :
        (v : Verdict) (request : Header) (c : StreamCtx) (w : W)
        → validate cfg.max_transfer cfg.expected_devid request ≡ v
        → let (outcome, c', w') = serve_submit h cfg request c w in
          outcome ≡ keep_going → sock.pending w' ≡ drop (taken v request) (sock.pending w)
    unfolding serve_submit
    verdict_pending (refuse e n) request c w p =
        rw (p, serve_submit) (λ k. (refuse_submit_lem h law quiet request e n c w k).2)
    verdict_pending close request c w p = rw (p, serve_submit) (λ k. absurd (ground (arith, k)))
    verdict_pending accept request c w p =
        rw (p, serve_submit) (accept_submit_pending h law quiet cfg request c w)

    -- The requests whose refusal forgets an OUT payload: a control request on endpoint 0 whose
    -- setup packet says IN, or an isochronous one.
    abbrev pub Forgets : Header → Type 0
    Forgets request =
        ((number_of_packets request ≢ non_iso_packets) × (number_of_packets request ≢ 0))
        ⊎ ((ep request ≡ 0) × (setup_in request ≡ true))

    validate-taken :
        (request : Header)
        → transfer_buffer_length request < 2147483648
        → ¬ Forgets request
        → (validate cfg.max_transfer cfg.expected_devid request ≢ close)
        → taken (validate cfg.max_transfer cfg.expected_devid request) request ≡ out_len request
    unfolding validate
    validate-taken request small f n = ground arith

    serve_submit_pending :
        (request : Header) (c : StreamCtx) (w : W)
        → transfer_buffer_length request < 2147483648
        → ¬ Forgets request
        → let (outcome, c', w') = serve_submit h cfg request c w in
          outcome ≡ keep_going → sock.pending w' ≡ drop (out_len request) (sock.pending w)
    serve_submit_pending request c w small f k =
        let v = validate cfg.max_transfer cfg.expected_devid request in
        verdict_pending v request c w refl k
        ∙ ap (λ n. drop n (sock.pending w))
            (validate-taken request small f (λ e. not_closed request c w e k))
      where
        not_closed :
            (request : Header) (c : StreamCtx) (w : W)
            → validate cfg.max_transfer cfg.expected_devid request ≡ close
            → (serve_submit h cfg request c w).0 ≢ keep_going
        not_closed request c w e =
            unfold serve_submit in rw (e, serve_submit) (λ k. absurd (ground (arith, k)))

    -- An unlink is answered with success, and cancels as `unlink_urb` says.
    pub serve_unlink_lem :
        (request : Header) (c : StreamCtx) (w : W)
        → let (outcome, c', w') = serve_unlink h cfg request c w in
          (c' ≡ unlink_urb c (unlink_seqnum request))
          × (sock.pending w' ≡ sock.pending w)
          × (outcome ≡ keep_going → sock.sent w' ≡ sock.sent w ++ ret_unlink_header request success)
    unfolding serve_unlink
    serve_unlink_lem request c w =
        let r = send_ret_unlink h request success w in
        let c1 = unlink_urb c (unlink_seqnum request) in
        let (same_ctx, same_world, sent_ok) = answer_lem h law quiet c1 r in
        let (pending, sent) = send_ret_unlink-true h law quiet request success w in
        (
          same_ctx,
          ap sock.pending same_world ∙ pending,
          λ k. ap sock.sent same_world ∙ sent (sent_ok k),
        )

    -- What follows a request's header on the stream.
    abbrev pub payload_size : Header → ℕ
    payload_size request = if command request == cmd_submit then out_len request else 0

    serve_request_pending :
        (request : Header) (c : StreamCtx) (w : W)
        → transfer_buffer_length request < 2147483648
        → ¬ Forgets request
        → let (outcome, c', w') = serve_request h cfg request c w in
          outcome ≡ keep_going → sock.pending w' ≡ drop (payload_size request) (sock.pending w)
    unfolding serve_request
    serve_request_pending request c w small f = elim (Bool-cases (command request == cmd_unlink)) [
      | inl p ↦
          let q : (command request == cmd_submit) ≡ false = ground (arith, p) in
          rw (p, q) (λ k. (serve_unlink_lem request c w).1)
      | inr p ↦ elim (Bool-cases (command request == cmd_submit)) [
        | inl q ↦ rw (p, q) (serve_submit_pending request c w small f)
        | inr q ↦ rw (p, q) (λ k. absurd (ground (arith, k)))
      ]
    ]

    -- Over a socket that is a stream, with an allocator and a scheduler that leave the streams
    -- alone: if a round of the reader reads a request whose length is not negative and that is not
    -- one of `Forgets`, and goes on, then the client's stream began with the request's 48-byte
    -- header, and stands exactly behind the header and the request's payload.
    pub serve_one-framing :
        (c : StreamCtx) (w : W) (request : Header)
        → (read_exact sock header_size w).0 ≡ some request
        → transfer_buffer_length request < 2147483648
        → ¬ Forgets request
        → (serve_one h cfg c w).0 ≡ keep_going
        → let (_, _, w') = serve_one h cfg c w in
          (sock.pending w ≡ request ++ drop 48 (sock.pending w))
          × (sock.pending w' ≡ drop (payload_size request) (drop 48 (sock.pending w)))
    unfolding serve_one
    serve_one-framing c w request r small f =
        let w1 = (read_exact sock 48 w).1 in
        let got = read_exact-some sock law 48 w request r in
        let rest : sock.pending w1 ≡ drop 48 (sock.pending w) =
          rw got.1 (sym (drop-append_left request (sock.pending w1) 48 got.0)) in
        rw (r, serve_one)
          (λ k. (
            got.1 ∙ ap (λ l. request ++ l) rest,
            serve_request_pending request c w1 small f k ∙ ap (drop (payload_size request)) rest,
          ))

    -- Over a socket that is a stream, with an allocator and a scheduler that leave the streams
    -- alone: a submit that the checks refuse with an error and a number of bytes to discard, and
    -- after which the reader goes on, leaves the context alone, takes just those bytes from the
    -- client, and is answered by a header with that error and no payload.
    pub serve_submit_refused :
        (request : Header) (e : Errno) (n : ℕ) (c : StreamCtx) (w : W)
        → validate cfg.max_transfer cfg.expected_devid request ≡ refuse e n
        → (serve_submit h cfg request c w).0 ≡ keep_going
        → let (_, c', w') = serve_submit h cfg request c w in
          (c' ≡ c)
          × (sock.pending w' ≡ drop n (sock.pending w))
          × (sock.sent w' ≡ sock.sent w ++ ret_submit_header request (failure e) 0)
    unfolding serve_submit
    serve_submit_refused request e n c w p =
        rw (p, serve_submit)
          (λ k. let all = refuse_submit_lem h law quiet request e n c w k in (all.0, all.2, all.3))

    validate-Forgets :
        (request : Header)
        → Forgets request
        → direction request ≡ dir_out
        → transfer_buffer_length request < 2147483648
        → transfer_buffer_length request ≤ cfg.max_transfer
        → devid request ≡ cfg.expected_devid
        → (e : Errno) × (validate cfg.max_transfer cfg.expected_devid request ≡ refuse e 0)
    unfolding validate
    validate-Forgets request (inl p) d s m i = (Errno.eopnotsupp, ground arith)
    validate-Forgets request (inr p) d s m i =
        elim (Bool-cases
          (number_of_packets request == non_iso_packets || number_of_packets request == 0)) [
            | inl q ↦ (Errno.einval, ground arith)
            | inr q ↦ (Errno.eopnotsupp, ground arith)
          ]

    -- Over a socket that is a stream, with an allocator and a scheduler that leave the streams
    -- alone: an OUT submit of `Forgets` whose length is not negative and within the limit, and whose
    -- device id is the stream's, after which the reader goes on, has left its whole payload on the
    -- stream, where the next round expects a header.
    pub forgotten_payload :
        (request : Header) (c : StreamCtx) (w : W)
        → Forgets request
        → direction request ≡ dir_out
        → transfer_buffer_length request < 2147483648
        → transfer_buffer_length request ≤ cfg.max_transfer
        → devid request ≡ cfg.expected_devid
        → (serve_submit h cfg request c w).0 ≡ keep_going
        → let (_, _, w') = serve_submit h cfg request c w in
          (out_len request ≡ transfer_buffer_length request) × (sock.pending w' ≡ sock.pending w)
    forgotten_payload request c w f d s m i k =
        let (e, p) = validate-Forgets request f d s m i in
        (ground (arith, d), (serve_submit_refused request e 0 c w p k).1)
