-- ===== src/Backend/Pipes/Completion.antt =====
-- main/usb_backend.c: the result of a transfer, and what the caller gets of it.
use esp_usbip_bridge.Base.{
  ℕ, ◌+◌, ◌-◌, ◌≤◌, ◌≡◌, refl, sym, ap, subst, List, ◌++◌, Option, none, some, true, ◌&&◌, ltb,
  if◌then◌else◌, take, drop, min, length, length-take, length-drop, length-append, take-append_left,
  arith, ◌⊎◌, if_ind, Option-cases, inl, inr,
}
use esp_usbip_bridge.Errno.{Status, success, failure, Errno, is_success}
use esp_usbip_bridge.Backend.Pipes.{TransferStatus, Transfer, Pipe, TransferHost, copy_to}

unfoldable pub map_transfer_status_to_errno : TransferStatus → Status
map_transfer_status_to_errno TransferStatus.completed = success
map_transfer_status_to_errno TransferStatus.timed_out = failure Errno.etimedout
map_transfer_status_to_errno TransferStatus.canceled = failure Errno.econnreset
map_transfer_status_to_errno TransferStatus.stall = failure Errno.epipe
map_transfer_status_to_errno TransferStatus.no_device = failure Errno.enodev
map_transfer_status_to_errno TransferStatus.other_status = failure Errno.eio

-- The bytes that are copied to the caller: none unless the transfer succeeded.
unfoldable pub copy_length : Pipe → Transfer → ℕ
copy_length p transfer =
    let bytes =
      if p.is_control
      then transfer.actual_num_bytes - 8
      else min transfer.actual_num_bytes p.payload_len in
    min bytes p.in_capacity

-- IN data is copied on success.
unfoldable pub store_result : Status → Transfer → Pipe → Pipe
unfolding copy_length
store_result status transfer p =
    let n = copy_length p transfer in
    let src = if p.is_control then drop 8 transfer.data_buffer else transfer.data_buffer in
    let empty = record p { received = 0; xfer = none } in
    let full : Pipe = elim p.in_data [
      | none ↦ empty
      | some buf ↦ record p { in_data = some (copy_to 0 n src buf); received = n; xfer = none }
    ] in
    if is_success status && p.is_in && ltb 0 p.in_capacity then full else empty

module _ {U : Type 0} (lib : TransferHost U) where
  -- `pipe->xfer` is not NULL for a pipe that was submitted.
  unfoldable pub complete_transfer : Pipe → U → Status × Pipe × U
  unfolding map_transfer_status_to_errno store_result
  complete_transfer p u = elim p.xfer [
    | none ↦ (failure Errno.etimedout, p, u)
    | some transfer ↦
        let status =
          if p.is_completed
          then map_transfer_status_to_errno transfer.transfer_status
          else failure Errno.etimedout in
        (status, store_result status transfer p, lib.transfer_free transfer u)
  ]

length-copy_to :
    (n : ℕ) (src buf : List ℕ)
    → n ≤ length src
    → n ≤ length buf
    → length (copy_to 0 n src buf) ≡ length buf
length-copy_to n src buf h h' =
    let e : copy_to 0 n src buf ≡ take n src ++ drop n buf =
      ap (λ k. take n src ++ drop k buf) (omega arith) in
    omega (
      arith,
      ap length e,
      length-append (take n src) (drop n buf),
      length-take n src,
      length-drop n buf,
    )

take-copy_to :
    (n : ℕ) (src buf : List ℕ) → n ≤ length src → take n (copy_to 0 n src buf) ≡ take n src
take-copy_to n src buf h =
    let size : length (take n src) ≡ n = omega (arith, length-take n src) in
    take-append_left (take n src) (drop (0 + n) buf) n size

-- The bytes of a transfer's buffer that are data.
abbrev pub payload : Pipe → Transfer → List ℕ
payload p transfer = if p.is_control then drop 8 transfer.data_buffer else transfer.data_buffer

-- What the caller sees afterwards: nothing new, or a prefix of the payload of an IN transfer that
-- succeeded.
pub record Seen (p : Pipe) (transfer : Transfer) (buf : List ℕ) (status : Status) (p' : Pipe)
    : Type 0 where
  pub buf' : List ℕ
  pub stored : p'.in_data ≡ some buf'
  pub size : length buf' ≡ length buf
  pub bound : p'.received ≤ p.in_capacity
  pub bytes :
      ((p'.received ≡ 0) × (buf' ≡ buf))
      ⊎ ((status ≡ success)
          × (p.is_in ≡ true)
          × (take p'.received buf' ≡ take p'.received (payload p transfer)))

copy_length_bound :
    (p : Pipe) (transfer : Transfer)
    → transfer.actual_num_bytes ≤ length transfer.data_buffer
    → (copy_length p transfer ≤ length (payload p transfer))
      × (copy_length p transfer ≤ p.in_capacity)
unfolding copy_length
copy_length_bound p transfer fits = ground (arith, length-drop 8 transfer.data_buffer)

status_success : (status : Status) → is_success status ≡ true → status ≡ success
status_success success h = refl
status_success (failure e) h = absurd (ground (arith, h))

store_result-Seen :
    (status : Status) (p : Pipe) (transfer : Transfer) (buf : List ℕ)
    → p.in_data ≡ some buf
    → length buf ≡ p.in_capacity
    → transfer.actual_num_bytes ≤ length transfer.data_buffer
    → Seen p transfer buf status (store_result status transfer p)
unfolding store_result
store_result-Seen status p transfer buf e size fits =
    let n = copy_length p transfer in
    let (inside, room) = copy_length_bound p transfer fits in
    if_ind (Seen p transfer buf status) (is_success status && p.is_in && ltb 0 p.in_capacity)
      (λ h. rw e (record {
        buf' = copy_to 0 n (payload p transfer) buf;
        stored = refl;
        size = length-copy_to n (payload p transfer) buf inside (omega (arith, room));
        bound = room;
        bytes = inr (
          status_success status (ground (arith, h)),
          ground (arith, h),
          take-copy_to n (payload p transfer) buf inside,
        );
      }))
      (λ _. record {
        buf' = buf;
        stored = e;
        size = refl;
        bound = omega arith;
        bytes = inl (refl, refl);
      })

store_result-xfer :
    (status : Status) (p : Pipe) (transfer : Transfer)
    → (store_result status transfer p).xfer ≡ none
unfolding store_result
store_result-xfer status p transfer =
    if_ind (λ (q : Pipe). q.xfer ≡ none) (is_success status && p.is_in && ltb 0 p.in_capacity)
      (λ _. elim (Option-cases p.in_data) [ inl e ↦ rw e refl | inr (buf, e) ↦ rw e refl ])
      (λ _. refl)

module _ {U : Type 0} (lib : TransferHost U) where
  -- For a pipe with a transfer, an IN buffer of `in_capacity` bytes, and a number of transferred
  -- bytes that fits the transfer's buffer, `complete_transfer` keeps the size of the IN buffer, and
  -- the length that it reports is within it; either that length is 0 and the buffer is as it was, or
  -- the transfer was an IN one that succeeded and the bytes up to the length are those of its
  -- payload. The pipe has no transfer any more.
  pub complete_transfer_lem :
      (p : Pipe) (u : U) (transfer : Transfer) (buf : List ℕ)
      → p.xfer ≡ some transfer
      → p.in_data ≡ some buf
      → length buf ≡ p.in_capacity
      → transfer.actual_num_bytes ≤ length transfer.data_buffer
      → let (status, p', _) = complete_transfer lib p u in
        Seen p transfer buf status p' × (p'.xfer ≡ none)
  unfolding complete_transfer
  complete_transfer_lem p u transfer buf e e' size fits =
      let status =
        if p.is_completed
        then map_transfer_status_to_errno transfer.transfer_status
        else failure Errno.etimedout in
      subst
        (λ (o : Option Transfer).
          let r : Status × Pipe × U = elim o [
            | none ↦ (failure Errno.etimedout, p, u)
            | some tr ↦
                let st =
                  if p.is_completed
                  then map_transfer_status_to_errno tr.transfer_status
                  else failure Errno.etimedout in
                (st, store_result st tr p, lib.transfer_free tr u)
          ] in
          Seen p transfer buf r.0 r.1 × (r.1.xfer ≡ none))
        (sym e)
        (store_result-Seen status p transfer buf e' size fits, store_result-xfer status p transfer)

  -- The completion answers nobody itself.
  pub complete_transfer-answers :
      (p : Pipe) (u : U) → (complete_transfer lib p u).1.answers ≡ p.answers
  unfolding complete_transfer store_result
  complete_transfer-answers p u = elim (Option-cases p.xfer) [
    | inl e ↦ rw (e, complete_transfer) refl
    | inr (transfer, e) ↦ rw (e, complete_transfer) (ground arith)
  ]
