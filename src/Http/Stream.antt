-- ===== src/Http/Stream.antt =====
-- main/http_server.c: `stream_t`, the writer of a response in chunks. `Chunks` is what a client makes of
-- such a response, `Laws` what the
-- calls keep, and `Response` that it finds what was written.
pub mod Chunks
pub mod Laws
pub mod Response
use esp_usbip_bridge.Base.{
  ℕ, ◌-◌, ◌+◌, List, [], ◌∷◌, ◌++◌, length, take, leb, ltb, ◌==◌, not, if◌then◌else◌, codes,
  c_string, hex_number,
}
use esp_usbip_bridge.Http.{HttpSocket, send_all}

-- `buf` up to `pos`, and `err`.
pub record Stream : Type 0 where
  pub buf : List ℕ
  pub err : ℕ

abbrev pub stream_buf_size : ℕ
stream_buf_size = 1024

abbrev pub crlf : List ℕ
crlf = 13 ∷ 10 ∷ []

unfoldable pub stream_header : List ℕ → List ℕ
stream_header ct =
    codes "HTTP/1.1 200 OK"
    ++ (crlf
        ++ (codes "Content-Type: "
            ++ (ct
                ++ (crlf
                    ++ (codes "Transfer-Encoding: chunked"
                        ++ (crlf
                            ++ (codes "Connection: close"
                                ++ (crlf
                                    ++ (codes "Access-Control-Allow-Origin: *"
                                        ++ (crlf ++ crlf))))))))))

-- What `vsnprintf` leaves of a text in 2048 bytes.
unfoldable pub printed : List ℕ → List ℕ
printed text = c_string (take 2047 text)

-- `n` is the room that every `send_all` has for interruptions.
module _ {W : Type 0} (h : HttpSocket W) (n : ℕ) where
  -- The content types are short enough for the buffer of 512 bytes.
  unfoldable pub stream_begin : List ℕ → W → Stream × W
  unfolding stream_header
  stream_begin ct w =
      let (err, w1) = send_all h n (stream_header ct) 0 w in (record { buf = []; err = err }, w1)

  -- The length, the bytes, and the end of a chunk.
  unfoldable pub send_chunk : List ℕ → ℕ → W → ℕ × W
  send_chunk bs err w =
      let (err1, w1) = send_all h n (hex_number (length bs) ++ crlf) err w in
      let (err2, w2) = send_all h n bs err1 w1 in send_all h n crlf err2 w2

  unfoldable pub stream_flush : Stream → W → Stream × W
  unfolding send_chunk
  stream_flush s w =
      let (err, w1) = send_chunk s.buf s.err w in
      if length s.buf == 0 then (s, w) else (record { buf = []; err = err }, w1)

  unfoldable pub stream_write : List ℕ → Stream → W → Stream × W
  unfolding stream_flush send_chunk
  stream_write bs s w =
      let (s1, w1) = stream_flush s w in
      let (err, w2) = send_chunk bs s1.err w1 in
      if length bs == 0
      then (s, w)
      else if not (s.err == 0)
      then (s, w)
      else if leb (length s.buf + length bs) stream_buf_size
      then (record s { buf = s.buf ++ bs }, w)
      else if ltb stream_buf_size (length bs)
      then (record s1 { err = err }, w2)
      else (record s1 { buf = s1.buf ++ bs }, w1)

  unfoldable pub stream_printf : List ℕ → Stream → W → Stream × W
  unfolding stream_write printed
  stream_printf text s w = stream_write (printed text) s w

  unfoldable pub stream_end : Stream → W → Stream × W
  unfolding stream_flush
  stream_end s w =
      let (s1, w1) = stream_flush s w in
      let (err, w2) = send_all h n (codes "0" ++ (crlf ++ crlf)) s1.err w1 in
      (record s1 { err = err }, w2)
