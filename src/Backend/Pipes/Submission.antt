-- ===== src/Backend/Pipes/Submission.antt =====
-- main/usb_backend.c: what the submission of a pipe's transfer leaves behind.
use esp_usbip_bridge.Base.{
  ℕ, ◌≤◌, ◌≡◌, ◌≢◌, refl, none, some, true, false, ltb, ◌==◌, ==_iff, if◌then◌else◌, inl, inr, ◌⊎◌,
  arith, if_ind, not,
}
use esp_usbip_bridge.Errno.{Status, success, failure, Errno}
use esp_usbip_bridge.Esp.{EspErr, esp_ok, is_ok, is_invalid_state}
use esp_usbip_bridge.Backend.Devices.{UsbHost, Table, find_slot_by_busid, ensure_interfaces_claimed}
use esp_usbip_bridge.Backend.Pipes.{
  Transfer, Pipe, TransferHost, fill_buffer, submit_transfer, transfer_length, submit_prepared,
  with_direction, with_device, prepare_and_submit_transfer,
}

-- A transfer is in the hardware's hands, or the pipe is as idle as it was.
pub record Prepared (max_transfer : ℕ) (p : Pipe) (status : Status) (p' : Pipe) : Type 0 where
  pub active : p'.active ≡ p.active
  pub assigned : p'.assigned ≡ p.assigned
  pub cancel : p'.cancel ≡ p.cancel
  pub answers : p'.answers ≡ p.answers
  pub outcome :
      ((status ≡ success)
        × (p'.submitted ≡ true)
        × (p'.is_completed ≡ false)
        × (p'.aborted ≡ false)
        × (p'.xfer ≢ none)
        × (p'.dev_hdl ≢ 0)
        × (p'.payload_len ≤ max_transfer))
      ⊎ ((status ≢ success) × (p'.submitted ≡ p.submitted) × (p'.xfer ≡ p.xfer))

module _ {U : Type 0} (host : UsbHost U) (lib : TransferHost U) (max_transfer : ℕ) where
  idle : (p : Pipe) (e : Errno) → Prepared max_transfer p (failure e) p
  idle p e = record {
    active = refl;
    assigned = refl;
    cancel = refl;
    answers = refl;
    outcome = inr ((λ h. ground (arith, h)), refl, refl);
  }

  submit_transfer-Prepared :
      (p : Pipe) (xfer_len : ℕ) (transfer : Transfer) (u : U)
      → p.dev_hdl ≢ 0
      → p.payload_len ≤ max_transfer
      → let (status, p', _) = submit_transfer host lib max_transfer p xfer_len transfer u in
        Prepared max_transfer p status p'
  unfolding submit_transfer
  submit_transfer-Prepared p xfer_len transfer u h small =
      let transfer' : Transfer = record transfer {
        data_buffer = fill_buffer p transfer.data_buffer;
        device_handle = p.dev_hdl;
        b_endpoint_address = p.endpoint_addr;
        num_bytes = xfer_len;
        timeout_ms = 5000;
      } in
      let err =
        (if p.is_control
          then lib.transfer_submit_control transfer' u
          else lib.transfer_submit transfer' u).0 in
      if_ind (λ (r : Status × Pipe × U). Prepared max_transfer p r.0 r.1) (is_ok err)
        (λ _. record {
          active = refl;
          assigned = refl;
          cancel = refl;
          answers = refl;
          outcome = inl (refl, refl, refl, refl, (λ q. ground (arith, q)), h, small);
        })
        (λ _.
          if_ind (λ s. Prepared max_transfer p s p) (is_invalid_state err)
            (λ _. idle p Errno.enodev) (λ _. idle p Errno.eio))

  submit_prepared-Prepared :
      (p : Pipe) (xfer_len : ℕ) (u : U)
      → let (status, p', _) = submit_prepared host lib max_transfer p xfer_len u in
        Prepared max_transfer p status p'
  unfolding submit_prepared
  submit_prepared-Prepared p xfer_len u =
      let P : Status × Pipe × U → Type 0 = λ r. Prepared max_transfer p r.0 r.1 in
      let u1 = (lib.transfer_alloc xfer_len u).2 in
      if_ind P (p.dev_hdl == 0) (λ _. idle p Errno.enodev)
        (λ h.
          if_ind P (ltb max_transfer p.payload_len) (λ _. idle p Errno.emsgsize)
            (λ g.
              if_ind P (not (is_ok (lib.transfer_alloc xfer_len u).0)) (λ _. idle p Errno.enomem)
                (λ _.
                  elim (lib.transfer_alloc xfer_len u).1
                    as (λ o. P (elim o as (λ _. Status × Pipe × U) [
                      | none ↦ (failure Errno.enomem, p, u1)
                      | some transfer ↦ submit_transfer host lib max_transfer p xfer_len transfer u1
                    ])) [
                      | none ↦ idle p Errno.enomem
                      | some transfer ↦
                          submit_transfer-Prepared p xfer_len transfer u1
                            (λ q. ground (arith, q, h, ==_iff p.dev_hdl 0)) (ground (arith, g))
                    ])))

  -- Whatever the table holds and the libraries answer: if `prepare_and_submit_transfer` succeeds,
  -- the pipe holds a transfer that is in flight, neither completed nor aborted, to an opened device,
  -- with a payload within the limit; on any error its transfer and its being in flight are as they
  -- were. In both cases it is as active and as assigned as before, has the same cancel flag, and has
  -- answered its callers as often.
  pub prepare_and_submit_transfer-Prepared :
      (p : Pipe) (t : Table) (u : U)
      → let (status, p', _, _) = prepare_and_submit_transfer host lib max_transfer p t u in
        Prepared max_transfer p status p'
  unfolding prepare_and_submit_transfer
  prepare_and_submit_transfer-Prepared p t u =
      let q = with_direction host lib max_transfer p in
      let dev_slot = find_slot_by_busid q.busid t in
      let claim : EspErr × Table × U = elim dev_slot [
        | none ↦ (esp_ok, t, u)
        | some slot ↦
            if q.is_control then (esp_ok, t, u) else ensure_interfaces_claimed host slot t u
      ] in
      let p1 = with_device host lib max_transfer dev_slot claim.1 q in
      let r =
        submit_prepared-Prepared p1
          (transfer_length host lib max_transfer p1 dev_slot claim.1 claim.2) claim.2 in
      if_ind (λ (r : Status × Pipe × Table × U). Prepared max_transfer p r.0 r.1) (is_ok claim.0)
        (λ _. record {
          active = r.active;
          assigned = r.assigned;
          cancel = r.cancel;
          answers = r.answers;
          outcome = r.outcome;
        })
        (λ _. record {
          active = refl;
          assigned = refl;
          cancel = refl;
          answers = refl;
          outcome = inr ((λ h. ground (arith, h)), refl, refl);
        })
