-- ===== src/Socket.antt =====
-- main/usbip_server.c: `read_exact`, `write_all` and `discard_exact`. `recv` and `send` are those of
-- the TCP stack, which is not part of the repository: they are the operations of `Socket`, and
-- `IsStream` states what a connected stream socket documents.
pub mod Laws
use esp_usbip_bridge.Base.{
  ℕ, zero, suc, ◌-◌, ◌+◌, ◌≤◌, ◌<◌, ◌≡◌, ◌≢◌, min, List, [], ◌∷◌, ◌++◌, Option, none, some, Bool,
  true, false, length, take, drop,
}

-- A socket over the state `W` of the world. `recv n` returns the bytes that it put into a buffer of
-- `n` bytes and `send` the number of bytes that it took; `none` is a result that is 0 or negative.
-- `pending` and `sent` are the bytes that the peer has yet to have read and those written to it.
pub record Socket (W : Type 0) : Type 0 where
  pub recv : ℕ → W → Option (List ℕ) × W
  pub send : List ℕ → W → Option ℕ × W
  pub pending : W → List ℕ
  pub sent : W → List ℕ

module _ {W : Type 0} (s : Socket W) where
  pub record IsStream : Type 0 where
    pub recv_some :
        (n : ℕ) (w : W) (bs : List ℕ)
        → (s.recv n w).0 ≡ some bs
        → (1 ≤ length bs)
          × (length bs ≤ n)
          × (s.pending w ≡ bs ++ s.pending (s.recv n w).1)
          × (s.sent (s.recv n w).1 ≡ s.sent w)
    pub recv_none : (n : ℕ) (w : W) → (s.recv n w).0 ≡ none → s.sent (s.recv n w).1 ≡ s.sent w
    pub send_some :
        (bs : List ℕ) (w : W) (n : ℕ)
        → (s.send bs w).0 ≡ some n
        → (1 ≤ n)
          × (n ≤ length bs)
          × (s.sent (s.send bs w).1 ≡ s.sent w ++ take n bs)
          × (s.pending (s.send bs w).1 ≡ s.pending w)
    pub send_none :
        (bs : List ℕ) (w : W)
        → (s.send bs w).0 ≡ none
        → (s.sent (s.send bs w).1 ≡ s.sent w) × (s.pending (s.send bs w).1 ≡ s.pending w)

  -- A peer that is still connected: bytes that are pending arrive, and a byte that is offered goes out.
  pub record IsConnected : Type 0 where
    pub recv_ready : (n : ℕ) (w : W) → s.pending w ≢ [] → (s.recv (suc n) w).0 ≢ none
    pub send_ready : (b : ℕ) (bs : List ℕ) (w : W) → (s.send (b ∷ bs) w).0 ≢ none

  -- `while (remaining > 0)`. Each round takes a byte at least, so `len` rounds are enough.
  unfoldable pub read_loop : ℕ → ℕ → List ℕ → W → Option (List ℕ) × W
  read_loop fuel zero buf w = (some buf, w)
  read_loop zero (suc r) buf w = (none, w)
  read_loop (suc fuel) (suc r) buf w =
      let (got, w') = s.recv (suc r) w in
      elim got [ none ↦ (none, w') | some bs ↦ read_loop fuel (suc r - length bs) (buf ++ bs) w' ]

  -- The bytes read, or `none` for `false`.
  unfoldable pub read_exact : ℕ → W → Option (List ℕ) × W
  read_exact len w = read_loop len len [] w

  unfoldable pub write_loop : ℕ → List ℕ → W → Bool × W
  write_loop fuel [] w = (true, w)
  write_loop zero (b ∷ bs) w = (false, w)
  write_loop (suc fuel) (b ∷ bs) w =
      let (taken, w') = s.send (b ∷ bs) w in
      elim taken [ none ↦ (false, w') | some n ↦ write_loop fuel (drop n (b ∷ bs)) w' ]

  unfoldable pub write_all : List ℕ → W → Bool × W
  write_all bs w = write_loop (length bs) bs w

  abbrev scratch_size : ℕ
  scratch_size = 128

  unfoldable pub discard_loop : ℕ → ℕ → W → Bool × W
  discard_loop fuel zero w = (true, w)
  discard_loop zero (suc r) w = (false, w)
  discard_loop (suc fuel) (suc r) w =
      let chunk = min (suc r) scratch_size in
      let (got, w') = read_exact chunk w in
      elim got [ none ↦ (false, w') | some _ ↦ discard_loop fuel (suc r - chunk) w' ]

  unfoldable pub discard_exact : ℕ → W → Bool × W
  discard_exact len w = discard_loop len len w
