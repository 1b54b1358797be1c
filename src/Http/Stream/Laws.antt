-- ===== src/Http/Stream/Laws.antt =====
-- main/http_server.c: what a client finds in a response that `stream_t` has written.
use esp_usbip_bridge.Base.{
  ℕ, ◌+◌, ◌≤◌, ◌<◌, ◌≡◌, refl, ap, ◌∙◌, sym, subst, List, [], ◌∷◌, ◌++◌, append_assoc, append-nil,
  some, true, false, length, ◌==◌, leb, ltb, not, if_ind, hex_number, arith, length-append,
  Bool-cases, inl, inr,
}
use esp_usbip_bridge.Http.{HttpSocket, IsHttpSocket, send_all, send_all-ok}
use esp_usbip_bridge.Http.Stream.{Stream, crlf, send_chunk, stream_flush, stream_write, stream_end}
use esp_usbip_bridge.Http.Stream.Chunks.{
  chunk, chunks, joined, AllChunks, last_chunk, decode, decode-chunks, chunks-append, joined-append,
  AllChunks-append,
}

module _ {W : Type 0} (h : HttpSocket W) (law : IsHttpSocket h) (n : ℕ) where
  open h use {sent}

  send_chunk-ok :
      (bs : List ℕ) (err : ℕ) (w : W)
      → (send_chunk h n bs err w).0 ≡ 0
      → (err ≡ 0) × (sent (send_chunk h n bs err w).1 ≡ sent w ++ chunk bs)
  unfolding send_chunk chunk
  send_chunk-ok bs err w e =
      let head = hex_number (length bs) ++ crlf in
      let (err1, w1) = send_all h n head err w in
      let (err2, w2) = send_all h n bs err1 w1 in
      let (none2, at3) = send_all-ok h law n crlf err2 w2 e in
      let (none1, at2) = send_all-ok h law n bs err1 w1 none2 in
      let (none0, at1) = send_all-ok h law n head err w none1 in
      (
        none0,
        at3
            ∙ ap (λ t. t ++ crlf) (at2 ∙ ap (λ t. t ++ bs) at1)
            ∙ append_assoc (sent w ++ head) bs crlf
            ∙ append_assoc (sent w) head (bs ++ crlf)
            ∙ ap (λ t. sent w ++ t) (append_assoc (hex_number (length bs)) crlf (bs ++ crlf)),
      )

  -- Since the peer had been sent `base`, chunks went out that with the buffer make the payload.
  pub record IsStreaming (base payload : List ℕ) (s : Stream) (w : W) : Type 0 where
    pub out : List (List ℕ)
    pub are_chunks : AllChunks out
    pub on_wire : sent w ≡ base ++ chunks out
    pub whole : payload ≡ joined out ++ s.buf
    pub small : length s.buf ≤ 1024

  pub nothing_out :
      (base : List ℕ) (err : ℕ) (w : W)
      → sent w ≡ base
      → IsStreaming base [] (record { buf = []; err = err }) w
  unfolding chunks joined
  nothing_out base err w e = record {
    out = [];
    are_chunks = tt;
    on_wire = e ∙ sym (append-nil base);
    whole = refl;
    small = omega arith;
  }

  -- A chunk that goes out after those.
  sent_chunk :
      (base c : List ℕ) (out : List (List ℕ)) (w w' : W)
      → sent w ≡ base ++ chunks out
      → sent w' ≡ sent w ++ chunk c
      → sent w' ≡ base ++ chunks (out ++ (c ∷ []))
  unfolding chunks
  sent_chunk base c out w w' was now =
      now
      ∙ ap (λ t. t ++ chunk c) was
      ∙ append_assoc base (chunks out) (chunk c)
      ∙ ap (λ t. base ++ t)
          (ap (λ t. chunks out ++ t) (sym (append-nil (chunk c)))
            ∙ sym (chunks-append out (c ∷ [])))

  joined-snoc : (out : List (List ℕ)) (c : List ℕ) → joined (out ++ (c ∷ [])) ≡ joined out ++ c
  unfolding joined
  joined-snoc out c = joined-append out (c ∷ []) ∙ ap (λ t. joined out ++ t) (append-nil c)

  no_length : (bs : List ℕ) → (length bs == 0) ≡ true → bs ≡ []
  no_length [] e = refl
  no_length (b ∷ bs) e = absurd (ground (arith, e))

  some_length : (bs : List ℕ) → (length bs == 0) ≡ false → 1 ≤ length bs
  some_length bs e = ground (arith, e)

  -- What a call that is to succeed keeps of the response, and of the error before it.
  abbrev pub Keeps : (base payload payload' : List ℕ) (s : Stream) (w : W) → Stream × W → Type 0
  Keeps base payload payload' s w r =
      r.0.err ≡ 0 → (s.err ≡ 0) × (IsStreaming base payload s w → IsStreaming base payload' r.0 r.1)

  pub stream_flush-Keeps :
      (base payload : List ℕ) (s : Stream) (w : W)
      → Keeps base payload payload s w (stream_flush h n s w) × ((stream_flush h n s w).0.buf ≡ [])
  unfolding stream_flush
  stream_flush-Keeps base payload s w = elim (Bool-cases (length s.buf == 0)) [
    | inl e ↦ rw e ((λ ok. (ok, λ v. v)), no_length s.buf e)
    | inr e ↦ rw e (
      (λ ok.
          let (clean, on_wire) = send_chunk-ok s.buf s.err w ok in
          (
            clean,
            λ v. record {
              out = v.out ++ (s.buf ∷ []);
              are_chunks =
                  AllChunks-append v.out (s.buf ∷ []) v.are_chunks
                    ((some_length s.buf e, omega (arith, v.small)), tt);
              on_wire =
                  sent_chunk base s.buf v.out w (send_chunk h n s.buf s.err w).1 v.on_wire on_wire;
              whole = v.whole ∙ sym (joined-snoc v.out s.buf) ∙ sym (append-nil _);
              small = omega arith;
            },
          )),
      refl,
    )
  ]

  -- Bytes that go into the buffer behind those that are in it.
  buffered :
      (base payload bs : List ℕ) (s : Stream) (w : W)
      → length s.buf + length bs ≤ 1024
      → IsStreaming base payload s w
      → IsStreaming base (payload ++ bs) (record s { buf = s.buf ++ bs }) w
  buffered base payload bs s w fits v = record {
    out = v.out;
    are_chunks = v.are_chunks;
    on_wire = v.on_wire;
    whole = ap (λ t. t ++ bs) v.whole ∙ append_assoc (joined v.out) s.buf bs;
    small = omega (arith, length-append s.buf bs);
  }

  pub stream_write-Keeps :
      (base payload bs : List ℕ) (s : Stream) (w : W)
      → length bs < 2147483648
      → Keeps base payload (payload ++ bs) s w (stream_write h n bs s w)
  unfolding stream_write
  stream_write-Keeps base payload bs s w small =
      let P : Stream × W → Type 0 = λ r. Keeps base payload (payload ++ bs) s w r in
      let (s1, w1) = stream_flush h n s w in
      let (flushed, drained) = stream_flush-Keeps base payload s w in
      if_ind P (length bs == 0)
        (λ e ok. (
          ok,
          subst (λ t. IsStreaming base payload s w → IsStreaming base t s w)
              (sym (append-nil payload) ∙ ap (λ t. payload ++ t) (sym (no_length bs e))) (λ v. v),
        ))
        (λ full.
          if_ind P (not (s.err == 0)) (λ e ok. absurd (ground (arith, e, ok)))
            (λ _.
              if_ind P (leb (length s.buf + length bs) 1024)
                (λ e ok. (ok, buffered base payload bs s w (ground (arith, e))))
                (λ _.
                  if_ind P (ltb 1024 (length bs))
                    (λ e ok.
                      let (clean, on_wire) = send_chunk-ok bs s1.err w1 ok in
                      let (before, keep) = flushed clean in
                      (
                        before,
                        λ v.
                            let v1 = keep v in
                            record {
                              out = v1.out ++ (bs ∷ []);
                              are_chunks =
                                  AllChunks-append v1.out (bs ∷ []) v1.are_chunks
                                    ((some_length bs full, omega arith), tt);
                              on_wire =
                                  sent_chunk base bs v1.out w1 (send_chunk h n bs s1.err w1).1
                                    v1.on_wire on_wire;
                              whole =
                                  ap (λ t. t ++ bs)
                                    (v1.whole
                                      ∙ ap (λ b. joined v1.out ++ b) drained
                                      ∙ append-nil (joined v1.out))
                                  ∙ sym (joined-snoc v1.out bs)
                                  ∙ sym (append-nil _)
                                  ∙ ap (λ b. joined (v1.out ++ (bs ∷ [])) ++ b) (sym drained);
                              small = v1.small;
                            },
                      ))
                    (λ e ok.
                      let (before, keep) = flushed ok in
                      let room : length s1.buf + length bs ≤ 1024 =
                        ground (arith, e, ap length drained) in
                      (before, λ v. buffered base payload bs s1 w1 room (keep v))))))

  pub stream_end-ok :
      (base payload : List ℕ) (s : Stream) (w : W)
      → (stream_end h n s w).0.err ≡ 0
      → (s.err ≡ 0)
        × (IsStreaming base payload s w
            → (body : List ℕ) × (sent (stream_end h n s w).1 ≡ base ++ body)
              × (decode body ≡ some (payload, [])))
  unfolding stream_end
  stream_end-ok base payload s w ok =
      let (s1, w1) = stream_flush h n s w in
      let (flushed, drained) = stream_flush-Keeps base payload s w in
      let (clean, now) = send_all-ok h law n last_chunk s1.err w1 ok in
      let (before, keep) = flushed clean in
      (
        before,
        λ v.
            let v1 = keep v in
            let payload_is : payload ≡ joined v1.out =
              v1.whole ∙ ap (λ b. joined v1.out ++ b) drained ∙ append-nil (joined v1.out) in
            (
              chunks v1.out ++ (last_chunk ++ []),
              now
                  ∙ ap (λ t. t ++ last_chunk) v1.on_wire
                  ∙ append_assoc base (chunks v1.out) last_chunk
                  ∙ ap (λ t. base ++ (chunks v1.out ++ t)) (sym (append-nil last_chunk)),
              decode-chunks v1.out [] v1.are_chunks ∙ ap (λ t. some (t, [])) (sym payload_is),
            ),
      )
