-- ===== src/Http/Requests/Laws.antt =====
-- main/http_server.c: the loops over `read`, over a system whose reads return what they document.
use esp_usbip_bridge.Base.{
  ℕ, zero, suc, ◌-◌, ◌+◌, ◌≤◌, ◌<◌, ◌≡◌, refl, List, [], ◌++◌, ◌⊎◌, inl, inr, arith, length, take,
  drop, ltb, length-append, length-take, min, if◌then◌else◌, Option-cases, c_string,
}
use esp_usbip_bridge.Http.Json.{strstr}
use esp_usbip_bridge.Http.Requests.{
  ReadResult, Reader, http_buf_size, read_head, body_capacity, read_body_loop, read_body,
  blank_line,
}

-- A read that returns bytes returns one at least, and no more than it was asked for.
pub record IsReader {W : Type 0} (r : Reader W) : Type 0 where
  pub some_bytes :
      (n : ℕ) (w : W) (bs : List ℕ)
      → (r.read n w).0 ≡ ReadResult.got bs
      → (1 ≤ length bs) × (length bs ≤ n)

ReadResult-cases :
    (x : ReadResult)
    → ((bs : List ℕ) × (x ≡ ReadResult.got bs))
      ⊎ ((x ≡ ReadResult.eof) ⊎ ((x ≡ ReadResult.again) ⊎ (x ≡ ReadResult.failed)))
ReadResult-cases (ReadResult.got bs) = inl (bs, refl)
ReadResult-cases ReadResult.eof = inr (inl refl)
ReadResult-cases ReadResult.again = inr (inr (inl refl))
ReadResult-cases ReadResult.failed = inr (inr (inr refl))

module _ {W : Type 0} (r : Reader W) (law : IsReader r) where
  read_head_same :
      (r1 r2 : ℕ) (buf : List ℕ) (w : W)
      → http_buf_size < length buf + r1
      → http_buf_size < length buf + r2
      → read_head r r1 buf w ≡ read_head r r2 buf w
  unfolding read_head
  read_head_same zero zero buf w h1 h2 = refl
  read_head_same zero (suc r2) buf w h1 h2 = ground (arith, h1)
  read_head_same (suc r1) zero buf w h1 h2 = ground (arith, h2)
  read_head_same (suc r1) (suc r2) buf w h1 h2 =
      let n = http_buf_size - length buf in
      let w1 = (r.read n w).1 in
      elim (ReadResult-cases (r.read n w).0) [
        | inl (bs, e) ↦
            let (some_byte, _) = law.some_bytes n w bs e in
            let grown = length-append buf bs in
            let rest =
              read_head_same r1 r2 (buf ++ bs) w1 (omega (arith, grown)) (omega (arith, grown)) in
            rw (read_head, e, rest) refl
        | inr (inl e) ↦ rw (read_head, e) refl
        | inr (inr (inl e)) ↦ rw (read_head, e) refl
        | inr (inr (inr e)) ↦ rw (read_head, e) refl
      ]

  -- The loop of the head gives the same result for every number of rounds above the buffer's size.
  pub read_head_ends :
      (rounds : ℕ) (w : W)
      → http_buf_size < rounds
      → read_head r rounds [] w ≡ read_head r (http_buf_size + 1) [] w
  read_head_ends rounds w enough =
      read_head_same rounds (http_buf_size + 1) [] w (omega arith) (omega arith)

  read_body_loop_bounded :
      (rounds len cap : ℕ) (body : List ℕ) (w : W)
      → length body ≤ cap - 1
      → length (read_body_loop r rounds len cap body w).0 ≤ cap - 1
  unfolding read_body_loop
  read_body_loop_bounded zero len cap body w fits = fits
  read_body_loop_bounded (suc rounds) len cap body w fits =
      let n = cap - 1 - length body in
      let (x, w1) = r.read n w in
      elim (ReadResult-cases (r.read n w).0) [
        | inl (bs, e) ↦ ground (
          arith,
          e,
          law.some_bytes n w bs e,
          length-append body bs,
          read_body_loop_bounded rounds len cap (body ++ bs) w1,
        )
        | inr (inl e) ↦ ground (arith, e)
        | inr (inr (inl e)) ↦ ground (arith, e)
        | inr (inr (inr e)) ↦ ground (arith, e)
      ]

  -- A request that announces a body of 512 bytes or more is handed less of it than it announces,
  -- whatever the reads return.
  pub body_truncated :
      (bytes behind : List ℕ) (len : ℕ) (w : W)
      → 512 ≤ len
      → length (read_body r bytes behind len w).0 < len
  unfolding read_body body_capacity
  body_truncated bytes behind len w large =
      let cap = min (if ltb 512 len then len else 512) 8192 in
      let text = c_string (bytes ++ behind) in
      let small : cap ≤ len = ground (arith, large) in
      let some_room : 1 ≤ cap = ground (arith, large) in
      elim (Option-cases (strstr blank_line text)) [
        | inl e ↦ ground (arith, e, large)
        | inr (at, e) ↦
            let start = length text - length at + 4 in
            let copied = take (cap - 1) (drop start bytes) in
            ground (
              arith,
              e,
              large,
              small,
              some_room,
              length-take (cap - 1) (drop start bytes),
              length-take (cap - 1) (drop start (bytes ++ behind)),
              read_body_loop_bounded cap len cap copied w,
            )
      ]
