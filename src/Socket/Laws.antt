-- ===== src/Socket/Laws.antt =====
-- main/usbip_server.c: the loops over the socket, the two byte streams, and the loops' fuel.
use esp_usbip_bridge.Base.{
  ℕ, zero, suc, ◌-◌, ◌+◌, ◌≤◌, ◌≡◌, ◌≢◌, refl, sym, ap, min, List, [], ◌∷◌, ◌++◌, append-nil,
  append_assoc, none, some, true, length, take, drop, length-append, take-append-drop, drop-append,
  length-drop, take-append_left, drop-append_left, Option-cases, arith, inl, inr,
}
use esp_usbip_bridge.Socket.{
  Socket, IsStream, IsConnected, read_loop, read_exact, write_loop, write_all, discard_loop,
  discard_exact,
}

module _ {W : Type 0} (s : Socket W) (law : IsStream s) where
  read_loop-some :
      (fuel r : ℕ) (buf : List ℕ) (w : W) (out : List ℕ)
      → (read_loop s fuel r buf w).0 ≡ some out
      → (length out ≡ length buf + r)
        × (buf ++ s.pending w ≡ out ++ s.pending (read_loop s fuel r buf w).1)
        × (s.sent (read_loop s fuel r buf w).1 ≡ s.sent w)
  unfolding read_loop
  read_loop-some fuel zero buf w out h = ground arith
  read_loop-some zero (suc r) buf w out h = ground arith
  read_loop-some (suc fuel) (suc r) buf w out h = elim (Option-cases (s.recv (suc r) w).0) [
    | inl e ↦ ground (arith, e)
    | inr (bs, e) ↦ ground (
      arith,
      e,
      law.recv_some (suc r) w bs e,
      read_loop-some fuel (suc r - length bs) (buf ++ bs) (s.recv (suc r) w).1 out,
      length-append buf bs,
      append_assoc buf bs (s.pending (s.recv (suc r) w).1),
    )
  ]

  read_loop_sent :
      (fuel r : ℕ) (buf : List ℕ) (w : W) → s.sent (read_loop s fuel r buf w).1 ≡ s.sent w
  unfolding read_loop
  read_loop_sent fuel zero buf w = refl
  read_loop_sent zero (suc r) buf w = refl
  read_loop_sent (suc fuel) (suc r) buf w = elim (Option-cases (s.recv (suc r) w).0) [
    | inl e ↦ ground (arith, e, law.recv_none (suc r) w e)
    | inr (bs, e) ↦ ground (
      arith,
      e,
      law.recv_some (suc r) w bs e,
      read_loop_sent fuel (suc r - length bs) (buf ++ bs) (s.recv (suc r) w).1,
    )
  ]

  -- `read_exact` writes nothing to the peer, whether or not it succeeds.
  pub read_exact_sent : (n : ℕ) (w : W) → s.sent (read_exact s n w).1 ≡ s.sent w
  unfolding read_exact
  read_exact_sent n w = read_loop_sent n n [] w

  -- When `read_exact` succeeds it has taken exactly the next `n` bytes of the stream.
  pub read_exact-some :
      (n : ℕ) (w : W) (out : List ℕ)
      → (read_exact s n w).0 ≡ some out
      → (length out ≡ n) × (s.pending w ≡ out ++ s.pending (read_exact s n w).1)
  unfolding read_exact
  read_exact-some n w out h = let got = read_loop-some n n [] w out h in (omega arith, got.1)

  write_loop-true :
      (fuel : ℕ) (bs : List ℕ) (w : W)
      → (write_loop s fuel bs w).0 ≡ true
      → s.sent (write_loop s fuel bs w).1 ≡ s.sent w ++ bs
  unfolding write_loop
  write_loop-true fuel [] w h = sym (append-nil _)
  write_loop-true zero (b ∷ bs) w h = ground arith
  write_loop-true (suc fuel) (b ∷ bs) w h = elim (Option-cases (s.send (b ∷ bs) w).0) [
    | inl e ↦ ground (arith, e)
    | inr (n, e) ↦ ground (
      arith,
      e,
      law.send_some (b ∷ bs) w n e,
      write_loop-true fuel (drop n (b ∷ bs)) (s.send (b ∷ bs) w).1,
      append_assoc (s.sent w) (take n (b ∷ bs)) (drop n (b ∷ bs)),
      take-append-drop n (b ∷ bs),
    )
  ]

  write_loop_pending :
      (fuel : ℕ) (bs : List ℕ) (w : W) → s.pending (write_loop s fuel bs w).1 ≡ s.pending w
  unfolding write_loop
  write_loop_pending fuel [] w = refl
  write_loop_pending zero (b ∷ bs) w = refl
  write_loop_pending (suc fuel) (b ∷ bs) w = elim (Option-cases (s.send (b ∷ bs) w).0) [
    | inl e ↦ ground (arith, e, law.send_none (b ∷ bs) w e)
    | inr (n, e) ↦ ground (
      arith,
      e,
      law.send_some (b ∷ bs) w n e,
      write_loop_pending fuel (drop n (b ∷ bs)) (s.send (b ∷ bs) w).1,
    )
  ]

  -- When `write_all` succeeds it has appended exactly its bytes to what was sent.
  pub write_all-true :
      (bs : List ℕ) (w : W)
      → (write_all s bs w).0 ≡ true
      → s.sent (write_all s bs w).1 ≡ s.sent w ++ bs
  unfolding write_all
  write_all-true bs w h = write_loop-true (length bs) bs w h

  -- `write_all` reads nothing from the peer.
  pub write_all_pending : (bs : List ℕ) (w : W) → s.pending (write_all s bs w).1 ≡ s.pending w
  unfolding write_all
  write_all_pending bs w = write_loop_pending (length bs) bs w

  discard_loop-true :
      (fuel n : ℕ) (w : W)
      → (discard_loop s fuel n w).0 ≡ true
      → (n ≤ length (s.pending w)) × (s.pending (discard_loop s fuel n w).1 ≡ drop n (s.pending w))
  unfolding discard_loop
  discard_loop-true fuel zero w h = (omega arith, refl)
  discard_loop-true zero (suc r) w h = ground arith
  discard_loop-true (suc fuel) (suc r) w h =
      let chunk = min (suc r) 128 in
      elim (Option-cases (read_exact s chunk w).0) [
        | inl e ↦ ground (arith, e)
        | inr (bs, e) ↦ ground (
          arith,
          e,
          read_exact-some chunk w bs e,
          discard_loop-true fuel (suc r - chunk) (read_exact s chunk w).1,
          length-append bs (s.pending (read_exact s chunk w).1),
          drop-append bs (s.pending (read_exact s chunk w).1) (suc r - chunk) chunk,
        )
      ]

  -- Over a socket that is a stream: when `discard_exact` of `n` bytes succeeds, at least `n` bytes
  -- were pending, and just the first `n` are gone.
  pub discard_exact-true :
      (n : ℕ) (w : W)
      → (discard_exact s n w).0 ≡ true
      → (n ≤ length (s.pending w)) × (s.pending (discard_exact s n w).1 ≡ drop n (s.pending w))
  unfolding discard_exact
  discard_exact-true n w h = discard_loop-true n n w h

  discard_loop_sent : (fuel n : ℕ) (w : W) → s.sent (discard_loop s fuel n w).1 ≡ s.sent w
  unfolding discard_loop
  discard_loop_sent fuel zero w = refl
  discard_loop_sent zero (suc r) w = refl
  discard_loop_sent (suc fuel) (suc r) w =
      let chunk = min (suc r) 128 in
      elim (Option-cases (read_exact s chunk w).0) [
        | inl e ↦ ground (arith, e, read_exact_sent chunk w)
        | inr (bs, e) ↦ ground (
          arith,
          e,
          read_exact_sent chunk w,
          discard_loop_sent fuel (suc r - chunk) (read_exact s chunk w).1,
        )
      ]

  -- `discard_exact` writes nothing to the peer.
  pub discard_exact_sent : (n : ℕ) (w : W) → s.sent (discard_exact s n w).1 ≡ s.sent w
  unfolding discard_exact
  discard_exact_sent n w = discard_loop_sent n n w

-- The loops come to their end: a peer that is still connected is read and written to the last byte.
module _ {W : Type 0} (s : Socket W) (law : IsStream s) (live : IsConnected s) where
  read_loop_ready :
      (fuel r : ℕ) (buf : List ℕ) (w : W)
      → r ≤ fuel
      → r ≤ length (s.pending w)
      → (read_loop s fuel r buf w).0 ≢ none
  unfolding read_loop
  read_loop_ready fuel zero buf w f h = ground arith
  read_loop_ready zero (suc r) buf w f h = absurd (omega arith)
  read_loop_ready (suc fuel) (suc r) buf w f h = elim (Option-cases (s.recv (suc r) w).0) [
    | inl e ↦ absurd (live.recv_ready r w (λ p. absurd (omega (arith, ap length p))) e)
    | inr (bs, e) ↦ ground (
      arith,
      e,
      law.recv_some (suc r) w bs e,
      length-append bs (s.pending (s.recv (suc r) w).1),
      read_loop_ready fuel (suc r - length bs) (buf ++ bs) (s.recv (suc r) w).1,
    )
  ]

  -- Over a socket that is a stream with a peer that is still connected: when `n` bytes are pending,
  -- `read_exact` of `n` bytes succeeds, returns just these, and takes no more.
  pub read_exact_total :
      (n : ℕ) (w : W)
      → n ≤ length (s.pending w)
      → ((read_exact s n w).0 ≡ some (take n (s.pending w)))
        × (s.pending (read_exact s n w).1 ≡ drop n (s.pending w))
  read_exact_total n w h = elim (Option-cases (read_exact s n w).0) [
    | inl e ↦ absurd (unfold read_exact in read_loop_ready n n [] w (omega arith) h e)
    | inr (out, e) ↦ ground (
      arith,
      e,
      read_exact-some s law n w out e,
      take-append_left out (s.pending (read_exact s n w).1) n,
      drop-append_left out (s.pending (read_exact s n w).1) n,
    )
  ]

  write_loop_ready :
      (fuel : ℕ) (bs : List ℕ) (w : W) → length bs ≤ fuel → (write_loop s fuel bs w).0 ≡ true
  unfolding write_loop
  write_loop_ready fuel [] w f = refl
  write_loop_ready zero (b ∷ bs) w f = absurd (omega arith)
  write_loop_ready (suc fuel) (b ∷ bs) w f = elim (Option-cases (s.send (b ∷ bs) w).0) [
    | inl e ↦ absurd (live.send_ready b bs w e)
    | inr (n, e) ↦ ground (
      arith,
      e,
      law.send_some (b ∷ bs) w n e,
      length-drop n (b ∷ bs),
      write_loop_ready fuel (drop n (b ∷ bs)) (s.send (b ∷ bs) w).1,
    )
  ]

  -- Over a socket that is a stream with a peer that is still connected, `write_all` succeeds, and
  -- sends its bytes in order, each once.
  pub write_all_total :
      (bs : List ℕ) (w : W)
      → ((write_all s bs w).0 ≡ true) × (s.sent (write_all s bs w).1 ≡ s.sent w ++ bs)
  unfolding write_all
  write_all_total bs w =
      let done = write_loop_ready (length bs) bs w (omega arith) in
      (done, write_loop-true s law (length bs) bs w done)
