-- ===== src/Http.antt =====
-- main/http_server.c: the web server. `send` is that of the TCP stack; `send_all` repeats it until the
-- bytes are gone. The children are the chunked writer (`Stream`), the escaping of the page (`Escape`), the
-- ad-hoc reading of JSON (`Json`), the pins (`Pins`), the replies (`Host`), the configuration (`Config`), the
-- reading of a request (`Requests`), the other handlers (`Handlers`) and the choice between them
-- (`Routes`).
pub mod Stream
pub mod Escape
pub mod Json
pub mod Pins
pub mod PinTable
pub mod Host
pub mod Config
pub mod Requests
pub mod Handlers
pub mod Lists
pub mod Routes
use esp_usbip_bridge.Base.{
  ℕ, zero, suc, ◌+◌, ◌≤◌, ◌≡◌, ◌≢◌, ◌⊎◌, inl, inr, refl, ap, ◌∙◌, List, [], ◌∷◌, ◌++◌, append-nil,
  append_assoc, length, take, drop, ◌==◌, if◌then◌else◌, arith, take-append-drop, sym, length-drop,
}

-- A result that is positive, zero, or negative, with its `errno`.
pub data SendResult : Type 0 where
  taken : ℕ → SendResult
  closed interrupted : SendResult
  failed : ℕ → SendResult

pub record HttpSocket (W : Type 0) : Type 0 where
  pub send : List ℕ → W → SendResult × W
  -- The bytes that the peer was sent.
  pub sent : W → List ℕ

abbrev pub econnreset : ℕ
econnreset = 104

abbrev pub eintr : ℕ
eintr = 4

SendResult-cases :
    (r : SendResult)
    → ((n : ℕ) × (r ≡ SendResult.taken n))
      ⊎ ((r ≡ SendResult.closed)
          ⊎ ((r ≡ SendResult.interrupted) ⊎ ((e : ℕ) × (r ≡ SendResult.failed e))))
SendResult-cases (SendResult.taken n) = inl (n, refl)
SendResult-cases SendResult.closed = inr (inl refl)
SendResult-cases SendResult.interrupted = inr (inr (inl refl))
SendResult-cases (SendResult.failed e) = inr (inr (inr (e, refl)))

module _ {W : Type 0} (h : HttpSocket W) where
  pub record IsHttpSocket : Type 0 where
    pub sent_taken :
        (bs : List ℕ) (w : W) (n : ℕ)
        → (h.send bs w).0 ≡ SendResult.taken n
        → (1 ≤ n) × (h.sent (h.send bs w).1 ≡ h.sent w ++ take n bs)
    pub sent_interrupted :
        (bs : List ℕ) (w : W)
        → (h.send bs w).0 ≡ SendResult.interrupted
        → h.sent (h.send bs w).1 ≡ h.sent w
    pub failed_errno : (bs : List ℕ) (w : W) → (h.send bs w).0 ≢ SendResult.failed 0

  -- A peer that takes a byte of every offer, with no signal in between.
  pub record IsLive : Type 0 where
    pub takes :
        (b : ℕ) (bs : List ℕ) (w : W) → (n : ℕ) × ((h.send (b ∷ bs) w).0 ≡ SendResult.taken n)

  -- `while (off < len)`, and `errno` where it fails. A round that is not interrupted takes a byte; the
  -- loop ends as if interrupted for good when its rounds are used up.
  unfoldable pub send_loop : ℕ → List ℕ → W → ℕ × W
  send_loop rounds [] w = (0, w)
  send_loop zero (b ∷ bs) w = (eintr, w)
  send_loop (suc rounds) (b ∷ bs) w =
      let (result, w1) = h.send (b ∷ bs) w in
      elim result [
        | SendResult.taken n ↦ send_loop rounds (drop n (b ∷ bs)) w1
        | SendResult.closed ↦ (econnreset, w1)
        | SendResult.interrupted ↦ send_loop rounds (b ∷ bs) w1
        | SendResult.failed e ↦ (e, w1)
      ]

  -- `send_all(fd, data, len, &err)`, with room for so many interruptions.
  unfoldable pub send_all : ℕ → List ℕ → ℕ → W → ℕ × W
  unfolding send_loop
  send_all interruptions bs err w =
      if err == 0 then send_loop (length bs + interruptions) bs w else (err, w)

  send_loop-ok :
      IsHttpSocket
      → (rounds : ℕ) (bs : List ℕ) (w : W) → (send_loop rounds bs w).0 ≡ 0
      → h.sent (send_loop rounds bs w).1 ≡ h.sent w ++ bs
  unfolding send_loop
  send_loop-ok law rounds [] w e = sym (append-nil (h.sent w))
  send_loop-ok law zero (b ∷ bs) w e = absurd (ground (arith, e))
  send_loop-ok law (suc rounds) (b ∷ bs) w e =
      let l = b ∷ bs in
      let w1 = (h.send l w).1 in
      elim (SendResult-cases (h.send l w).0) [
        | inl (n, q) ↦ ground (
          arith,
          q,
          e,
          send_loop-ok law rounds (drop n l) w1,
          law.sent_taken l w n q,
          append_assoc (h.sent w) (take n l) (drop n l),
          take-append-drop n l,
        )
        | inr (inl q) ↦ absurd (ground (arith, q, e))
        | inr (inr (inl q)) ↦
            ground (arith, q, e, send_loop-ok law rounds l w1, law.sent_interrupted l w q)
        | inr (inr (inr (k, q))) ↦
            absurd (law.failed_errno l w (q ∙ ap SendResult.failed (ground (arith, q, e))))
      ]

  -- After `send_all` without an error the peer was sent just its bytes, and there was none before.
  pub send_all-ok :
      IsHttpSocket
      → (n : ℕ) (bs : List ℕ) (err : ℕ) (w : W) → (send_all n bs err w).0 ≡ 0
      → (err ≡ 0) × (h.sent (send_all n bs err w).1 ≡ h.sent w ++ bs)
  unfolding send_all
  send_all-ok law n bs err w e = ground (arith, e, send_loop-ok law (length bs + n) bs w)

  send_loop-live :
      IsHttpSocket
      → IsLive
      → (rounds : ℕ) (bs : List ℕ) (w : W) → length bs ≤ rounds
      → (send_loop rounds bs w).0 ≡ 0
  unfolding send_loop
  send_loop-live law live rounds [] w fuel = refl
  send_loop-live law live zero (b ∷ bs) w fuel = absurd (omega arith)
  send_loop-live law live (suc rounds) (b ∷ bs) w fuel =
      let (n, q) = live.takes b bs w in
      ground (
        arith,
        q,
        law.sent_taken (b ∷ bs) w n q,
        length-drop n (b ∷ bs),
        send_loop-live law live rounds (drop n (b ∷ bs)) (h.send (b ∷ bs) w).1,
      )

  -- To a peer that takes what it is offered nothing fails.
  pub send_all-live :
      IsHttpSocket → IsLive → (n : ℕ) (bs : List ℕ) (w : W) → (send_all n bs 0 w).0 ≡ 0
  unfolding send_all
  send_all-live law live n bs w = send_loop-live law live (length bs + n) bs w (omega arith)
