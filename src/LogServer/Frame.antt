-- ===== src/LogServer/Frame.antt =====
-- main/log_server.c: what a client reads, and what the hook leaves out.
use esp_usbip_bridge.Base.{
  ℕ, zero, suc, ◌<◌, ◌≤◌, ◌≡◌, refl, ◌∙◌, ap, List, [], ◌∷◌, ◌++◌, Option, none, some, true, false,
  ◌&&◌, length, take, drop, leb, ◌==◌, if◌then◌else◌, arith, decimal, decimal_digit, read_number,
  read_number-decimal, append_assoc, length-append, take-append_left, drop-append_left, byte_at,
  Bool-cases, inl, inr,
}
use esp_usbip_bridge.LogServer.{
  frame, log_message, raw_text, syslog_text, stripped_length, is_newline,
}

count_off : ℕ → List ℕ → Option (List ℕ × List ℕ)
count_off n [] = none
count_off n (c ∷ cs) = if c == 32 && leb n (length cs) then some (take n cs, drop n cs) else none

-- A client's reader by octet counts (RFC 6587): the length, a blank, and so many bytes.
unfoldable pub read_frame : List ℕ → Option (List ℕ × List ℕ)
unfolding count_off
read_frame bs = let (n, rest) = read_number 10 decimal_digit 0 bs in count_off n rest

frame-some :
    (text f : List ℕ)
    → frame text ≡ some f
    → (length text < 512) × (length f < 512) × (f ≡ (decimal (length text) ++ (32 ∷ [])) ++ text)
unfolding frame
frame-some text f e =
    let octets = decimal (length text) ++ (32 ∷ []) in ground (arith, e, length-append octets text)

read_frame-append :
    (text rest : List ℕ)
    → length text < 512
    → read_frame (decimal (length text) ++ (32 ∷ (text ++ rest))) ≡ some (text, rest)
unfolding read_frame decimal_digit count_off
read_frame-append text rest fits =
    let room : leb (length text) (length (text ++ rest)) ≡ true =
      ground (arith, length-append text rest) in
    ap (λ (r : ℕ × List ℕ). count_off r.0 r.1)
      (read_number-decimal (length text) 32 (text ++ rest) (omega arith) refl)
    ∙ rw
        (
          room,
          take-append_left text rest (length text) refl,
          drop-append_left text rest (length text) refl,
        )
        refl

-- A message that the hook makes of a line has less than 512 bytes; in front of whatever follows it
-- on the connection, it reads back, by its octet count, as the syslog text of the line, and leaves
-- what follows.
pub log_message-frame :
    (us : ℕ) (line msg rest : List ℕ)
    → log_message us line ≡ some msg
    → (length msg < 512) × (read_frame (msg ++ rest) ≡ some (syslog_text us (raw_text line), rest))
unfolding log_message
log_message-frame us line msg rest e =
    let text = syslog_text us (raw_text line) in
    let made : frame text ≡ some msg = ground (arith, e) in
    let (fits, small, shape) = frame-some text msg made in
    let flat : msg ++ rest ≡ decimal (length text) ++ (32 ∷ (text ++ rest)) =
      ap (λ m. m ++ rest) shape
      ∙ append_assoc (decimal (length text) ++ (32 ∷ [])) text rest
      ∙ append_assoc (decimal (length text)) (32 ∷ []) (text ++ rest) in
    (small, rw flat (read_frame-append text rest fits))

-- What is left of the line ends where only newlines follow, and not with a newline.
pub stripped_length_lem :
    (n : ℕ) (raw : List ℕ)
    → let k = stripped_length n raw in
      (k ≤ n)
      × ((i : ℕ) → k ≤ i → i < n → is_newline (byte_at raw i) ≡ true)
      × ((j : ℕ) → k ≡ suc j → is_newline (byte_at raw j) ≡ false)
unfolding stripped_length
stripped_length_lem zero raw =
    (omega arith, (λ i a b. absurd (omega arith)), λ j e. absurd (omega arith))
stripped_length_lem (suc n) raw =
    let (below, gone, last) = stripped_length_lem n raw in
    elim (Bool-cases (is_newline (byte_at raw n))) [
      | inl e ↦ rw e (
        omega arith,
        (λ i a b. elim (Bool-cases (i == n)) [
          | inl here ↦ let at : i ≡ n = ground (arith, here) in rw at e
          | inr other ↦ gone i a (ground (arith, other))
        ]),
        last,
      )
      | inr e ↦ rw e (
        omega arith,
        (λ i a b. absurd (omega arith)),
        λ j s. let at : j ≡ n = omega arith in rw at e,
      )
    ]
