-- ===== src/Http/Requests.antt =====
-- main/http_server.c: how `handle_connection` reads a request and its body. `read` and `malloc` are those
-- of the system.
pub mod Laws
use esp_usbip_bridge.Base.{
  ℕ, zero, suc, ◌-◌, ◌+◌, List, [], ◌∷◌, ◌++◌, Option, none, some, Bool, true, false, not, ◌&&◌,
  length, take, drop, ◌==◌, leb, ltb, min, if◌then◌else◌, codes, bytes_eq, c_string, is_some,
}
use esp_usbip_bridge.Http.Stream.{crlf}
use esp_usbip_bridge.Http.Json.{◌>>=◌, strstr, strchr, skip_while, is_space, scan_int}

-- A result that is positive, zero, or negative with EAGAIN or EWOULDBLOCK or with another `errno`.
pub data ReadResult : Type 0 where
  got : List ℕ → ReadResult
  eof again failed : ReadResult

pub record Reader (W : Type 0) : Type 0 where
  -- Up to so many bytes.
  pub read : ℕ → W → ReadResult × W
  pub malloc : ℕ → W → Bool × W
  -- What the buffer of a request holds behind the bytes that were read, and the memory behind the buffer.
  pub leftover : W → List ℕ

abbrev pub http_buf_size : ℕ
http_buf_size = 2048

-- `http_request_t`; a negative length is one of 0 for the code.
pub record Request : Type 0 where
  pub method : List ℕ
  pub url : List ℕ
  pub content_length : ℕ

-- `%<n>s`: a word of that many characters at most, and what follows.
unfoldable pub take_word : ℕ → List ℕ → List ℕ × List ℕ
take_word zero text = ([], text)
take_word (suc n) [] = ([], [])
take_word (suc n) (c ∷ cs) =
    let (word, rest) = take_word n cs in if is_space c then ([], c ∷ cs) else (c ∷ word, rest)

unfoldable pub scan_word : ℕ → List ℕ → Option (List ℕ × List ℕ)
unfolding take_word skip_while
scan_word n text =
    let (word, rest) = take_word n (skip_while is_space text) in
    if length word == 0 then none else some (word, rest)

-- The number behind a header's name, if the text has both.
unfoldable pub header_int : List ℕ → List ℕ → Option ℕ
unfolding strstr scan_int
header_int name text = do
  at ← strstr name text
  (negative, n, rest) ← scan_int (drop (length name) at)
  some (if negative then 0 else min n 2_147_483_647)

unfoldable pub parse_request : List ℕ → List ℕ → Option Request
unfolding strchr scan_word header_int
parse_request bytes text = do
  eol ← strchr 10 bytes
  (method, rest) ← scan_word 15 text
  (url, rest') ← scan_word 255 rest
  let given : ℕ = elim (header_int (codes "Content-Length:") text) [ none ↦ 0 | some n ↦ n ]
  let len : ℕ = elim (header_int (codes "content-length:") text) [ none ↦ given | some n ↦ n ]
  some (record { method = method; url = url; content_length = len })

abbrev pub blank_line : List ℕ
blank_line = crlf ++ crlf

-- `memcmp(buf + total - 4, "\r\n\r\n", 4) == 0`.
abbrev ends_head : List ℕ → Bool
ends_head buf = leb 4 (length buf) && bytes_eq (drop (length buf - 4) buf) blank_line

module _ {W : Type 0} (r : Reader W) where
  -- The bytes up to a blank line, the end, a timeout, or the end of the buffer; nothing on an error.
  -- Every round but the last reads a byte.
  unfoldable pub read_head : ℕ → List ℕ → W → Option (List ℕ) × W
  read_head zero buf w = (some buf, w)
  read_head (suc rounds) buf w =
      let (result, w1) = r.read (http_buf_size - length buf) w in
      let more : Option (List ℕ) × W = elim result [
        | ReadResult.got bs ↦
            let grown = buf ++ bs in
            let rest = read_head rounds grown w1 in
            if ends_head grown then (some grown, w1) else rest
        | ReadResult.eof ↦ (some buf, w1)
        | ReadResult.again ↦ (some buf, w1)
        | ReadResult.failed ↦ (none, w1)
      ] in
      if ltb (length buf) http_buf_size then more else (some buf, w)

  -- The size of the body's buffer.
  unfoldable pub body_capacity : ℕ → ℕ
  body_capacity content_length = min (if ltb 512 content_length then content_length else 512) 8192

  -- `while (body_read < content_length && body_read < body_cap - 1)`.
  unfoldable pub read_body_loop : ℕ → ℕ → ℕ → List ℕ → W → List ℕ × W
  read_body_loop zero len cap body w = (body, w)
  read_body_loop (suc rounds) len cap body w =
      let (result, w1) = r.read (cap - 1 - length body) w in
      let more : List ℕ × W = elim result [
        | ReadResult.got bs ↦ read_body_loop rounds len cap (body ++ bs) w1
        | _ ↦ (body, w1)
      ] in
      if ltb (length body) len && ltb (length body) (cap - 1) then more else (body, w)

  -- The body behind the blank line of the head: what was read with it, and the rest. `strstr` may find the
  -- blank line in what the buffer held before. Then `buf + total - start` is negative, as a `size_t` it is
  -- larger than the body's buffer, which is filled with what lies there, and nothing is read.
  unfoldable pub read_body : List ℕ → List ℕ → ℕ → W → List ℕ × W
  unfolding body_capacity read_body_loop strstr
  read_body bytes behind len w =
      let cap = body_capacity len in
      let text = c_string (bytes ++ behind) in
      let found : List ℕ × W = elim (strstr blank_line text) [
        | none ↦ ([], w)
        | some at ↦
            let start = length text - length at + 4 in
            let copied = take (cap - 1) (drop start bytes) in
            if ltb (length bytes) start
            then (take (cap - 1) (drop start (bytes ++ behind)), w)
            else read_body_loop cap len cap copied w
      ] in
      if ltb 0 len then found else ([], w)
