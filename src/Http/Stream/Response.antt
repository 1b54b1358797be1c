-- ===== src/Http/Stream/Response.antt =====
-- main/http_server.c: a whole response, from `stream_begin` to `stream_end`.
use esp_usbip_bridge.Base.{
  ℕ, ◌<◌, ◌≡◌, ◌∙◌, sym, subst, List, [], ◌∷◌, ◌++◌, append_assoc, append-nil, some, length,
  hex_number, arith,
}
use esp_usbip_bridge.Http.{HttpSocket, IsHttpSocket, IsLive, send_all, send_all-ok, send_all-live}
use esp_usbip_bridge.Http.Stream.{
  Stream, crlf, stream_header, stream_begin, send_chunk, stream_flush, stream_write, printed,
  stream_printf, stream_end,
}
use esp_usbip_bridge.Http.Stream.Chunks.{last_chunk, decode}
use esp_usbip_bridge.Http.Stream.Laws.{
  IsStreaming, Keeps, nothing_out, stream_write-Keeps, stream_end-ok,
}

-- A call of `stream_printf` with a formatted text, or of `stream_write` with bytes.
pub data Piece : Type 0 where
  text : List ℕ → Piece
  bytes : List ℕ → Piece

-- What a call writes.
abbrev pub written : Piece → List ℕ
written (text t) = printed t
written (bytes bs) = bs

abbrev pub all_written : List Piece → List ℕ
all_written [] = []
all_written (p ∷ ps) = written p ++ all_written ps

-- The lengths are `int`s.
abbrev pub AllInt : List Piece → Type 0
AllInt [] = Unit
AllInt (p ∷ ps) = (length (written p) < 2147483648) × AllInt ps

module _ {W : Type 0} (h : HttpSocket W) (n : ℕ) where
  abbrev pub perform : Piece → Stream → W → Stream × W
  perform (text t) s w = stream_printf h n t s w
  perform (bytes bs) s w = stream_write h n bs s w

  unfoldable pub emit : List Piece → Stream → W → Stream × W
  emit [] s w = (s, w)
  emit (p ∷ ps) s w = let (s1, w1) = perform p s w in emit ps s1 w1

  -- `stream_begin`, the calls, and `stream_end`.
  unfoldable pub respond : List ℕ → List Piece → W → Stream × W
  unfolding emit
  respond ct ps w =
      let (s, w1) = stream_begin h n ct w in let (s', w2) = emit ps s w1 in stream_end h n s' w2

module _ {W : Type 0} (h : HttpSocket W) (law : IsHttpSocket h) (n : ℕ) where
  open h use {sent}

  perform-Keeps :
      (base payload : List ℕ) (p : Piece) (s : Stream) (w : W)
      → length (written p) < 2147483648
      → Keeps h law n base payload (payload ++ written p) s w (perform h n p s w)
  unfolding stream_printf
  perform-Keeps base payload (text t) s w small =
      stream_write-Keeps h law n base payload (printed t) s w small
  perform-Keeps base payload (bytes bs) s w small =
      stream_write-Keeps h law n base payload bs s w small

  emit-Keeps :
      (base payload : List ℕ) (ps : List Piece) (s : Stream) (w : W)
      → AllInt ps
      → Keeps h law n base payload (payload ++ all_written ps) s w (emit h n ps s w)
  unfolding emit
  emit-Keeps base payload [] s w small ok = (
    ok,
    subst (λ t. IsStreaming h law n base payload s w → IsStreaming h law n base t s w)
        (sym (append-nil payload)) (λ v. v),
  )
  emit-Keeps base payload (p ∷ ps) s w small ok =
      let (s1, w1) = perform h n p s w in
      let (clean, later) = emit-Keeps base (payload ++ written p) ps s1 w1 small.1 ok in
      let (before, first) = perform-Keeps base payload p s w small.0 clean in
      (
        before,
        λ v.
            subst (λ t. IsStreaming h law n base t (emit h n ps s1 w1).0 (emit h n ps s1 w1).1)
              (append_assoc payload (written p) (all_written ps)) (later (first v)),
      )

  -- Over a socket that sends what it takes: a response of pieces, each of a length that an `int` can
  -- hold, that ends without an error has sent the stream's header and a chunked body that decodes to
  -- the pieces one after another, with nothing behind it.
  pub respond_lem :
      (ct : List ℕ) (ps : List Piece) (w : W)
      → AllInt ps
      → (respond h n ct ps w).0.err ≡ 0
      → (body : List ℕ) × (sent (respond h n ct ps w).1 ≡ sent w ++ (stream_header ct ++ body))
        × (decode body ≡ some (all_written ps, []))
  unfolding respond stream_begin
  respond_lem ct ps w small ok =
      let (s, w1) = stream_begin h n ct w in
      let (s2, w2) = emit h n ps s w1 in
      let base = sent w ++ stream_header ct in
      let (clean2, finish) = stream_end-ok h law n base (all_written ps) s2 w2 ok in
      let (clean1, middle) = emit-Keeps base [] ps s w1 small clean2 in
      let (_, begun) = send_all-ok h law n (stream_header ct) 0 w clean1 in
      let start : IsStreaming h law n base [] s w1 = nothing_out h law n base s.err w1 begun in
      let (body, on_wire, read) = finish (middle start) in
      (body, on_wire ∙ append_assoc (sent w) (stream_header ct) body, read)

module _ {W : Type 0} (h : HttpSocket W) (law : IsHttpSocket h) (live : IsLive h) (n : ℕ) where
  send_chunk-live : (bs : List ℕ) (w : W) → (send_chunk h n bs 0 w).0 ≡ 0
  unfolding send_chunk
  send_chunk-live bs w =
      let head = hex_number (length bs) ++ crlf in
      let first = send_all-live h law live n head w in
      let w1 = (send_all h n head 0 w).1 in
      let second = send_all-live h law live n bs w1 in
      rw (first, second) (send_all-live h law live n crlf (send_all h n bs 0 w1).1)

  stream_flush-live : (s : Stream) (w : W) → s.err ≡ 0 → (stream_flush h n s w).0.err ≡ 0
  unfolding stream_flush
  stream_flush-live s w e = ground (arith, e, send_chunk-live s.buf w)

  stream_write-live :
      (bs : List ℕ) (s : Stream) (w : W) → s.err ≡ 0 → (stream_write h n bs s w).0.err ≡ 0
  unfolding stream_write
  stream_write-live bs s w e =
      let (s1, w1) = stream_flush h n s w in
      ground (arith, e, stream_flush-live s w, send_chunk-live bs w1)

  emit-live : (ps : List Piece) (s : Stream) (w : W) → s.err ≡ 0 → (emit h n ps s w).0.err ≡ 0
  unfolding emit stream_printf
  emit-live [] s w e = e
  emit-live (text t ∷ ps) s w e =
      let (s1, w1) = stream_write h n (printed t) s w in
      emit-live ps s1 w1 (stream_write-live (printed t) s w e)
  emit-live (bytes bs ∷ ps) s w e =
      let (s1, w1) = stream_write h n bs s w in emit-live ps s1 w1 (stream_write-live bs s w e)

  stream_end-live : (s : Stream) (w : W) → s.err ≡ 0 → (stream_end h n s w).0.err ≡ 0
  unfolding stream_end
  stream_end-live s w e =
      let (s1, w1) = stream_flush h n s w in
      rw (stream_flush-live s w e) (send_all-live h law live n last_chunk w1)

  -- Over a socket that takes at least one byte of whatever it is given, a response is sent without
  -- an error.
  pub respond-live : (ct : List ℕ) (ps : List Piece) (w : W) → (respond h n ct ps w).0.err ≡ 0
  unfolding respond stream_begin
  respond-live ct ps w =
      let (s, w1) = stream_begin h n ct w in
      let (s2, w2) = emit h n ps s w1 in
      stream_end-live s2 w2 (emit-live ps s w1 (send_all-live h law live n (stream_header ct) w))
