-- ===== src/Backend/Pipes/Task/Submitted.antt =====
-- main/usb_backend.c: the first phase of a round of the backend task, with the other tasks between its steps.
use esp_usbip_bridge.Base.{
  true, ◌⊎◌, ℕ, zero, suc, ◌+◌, ◌≤◌, ◌<◌, ◌≡◌, ◌≢◌, subst, List, Bool, false, not, ◌||◌, get_elem?,
  Option-cases, Bool-cases, inl, inr, arith, if_ind, ◌==◌, ==_iff,
}
use esp_usbip_bridge.Errno.{Status, success, failure}
use esp_usbip_bridge.Backend.Devices.{UsbHost, Table}
use esp_usbip_bridge.Backend.Pipes.{Pipe, TransferHost}
use esp_usbip_bridge.Backend.Pipes.Submission.{Prepared, prepare_and_submit_transfer-Prepared}
use esp_usbip_bridge.Backend.Pipes.Task.{
  refuse_caller, EventHost, between, submit_pipe, submit_pipes,
}
use esp_usbip_bridge.Backend.Pipes.Task.Places.{At, IsStable, set-At, set-At_other, caller_steps-At}
use esp_usbip_bridge.Backend.Pipes.Task.Answers.{
  IsKept, IsWaiting, IsServed, IsSubmitted, IsKept-IsStable, IsWaiting-IsStable,
  IsSubmitted-IsStable,
}

module _ {U : Type 0} (host : UsbHost U) (lib : TransferHost U) (events : EventHost U)
    (max_transfer : ℕ) where
  pub between-At :
      (P : Pipe → Type 0) (k : ℕ) (pipes : List Pipe) (u : U)
      → IsStable P
      → At k P pipes
      → At k P (between host lib events max_transfer pipes u).0
  unfolding between
  between-At P k pipes u stable h = caller_steps-At P stable k (events.callers u).0 pipes h

  -- The first phase at another place, and at the pipe's own.
  submit_pipe-At_other :
      (P : Pipe → Type 0) (i k : ℕ) (pipes : List Pipe) (t : Table) (u : U)
      → k ≢ i
      → At k P pipes
      → At k P (submit_pipe host lib events max_transfer i pipes t u).0
  unfolding submit_pipe
  submit_pipe-At_other P i k pipes t u ne h = elim (Option-cases (get_elem? pipes i)) [
    | inl e ↦ rw (e, submit_pipe) h
    | inr (p, e) ↦
        rw (e, submit_pipe)
          (if_ind (λ (r : List Pipe × Table × U). At k P r.0) (not p.active || p.submitted) (λ _. h)
            (λ _. set-At_other P i k pipes _ ne h))
  ]

  served :
      (b : Bool) (g : ℕ) (p : Pipe) (status : Status) (p' : Pipe)
      → Prepared max_transfer p status p'
      → p.submitted ≡ false
      → (b ≡ false) ⊎ (p.answers ≡ g)
      → IsServed b g (elim status as (λ _. Pipe) [ success ↦ p' | failure e ↦ refuse_caller e p' ])
  served b g p success p' r idle (inl free) = inl free
  served b g p success p' r idle (inr same) = inr (ground (arith, r, same))
  served b g p (failure e) p' r idle (inl free) = inl free
  served b g p (failure e) p' r idle (inr same) = inr (ground (arith, r, idle, same))

  -- A pipe that the phase leaves alone.
  waiting_served :
      (b : Bool) (g : ℕ) (p : Pipe)
      → IsWaiting b g p
      → (not p.active || p.submitted) ≡ true
      → IsServed b g p
  waiting_served b g p h skip = ground (arith, h, skip)

  submit_pipe-At_here :
      (b c : Bool) (g k : ℕ) (pipes : List Pipe) (t : Table) (u : U)
      → At k (IsKept c) pipes
      → At k (IsWaiting b g) pipes
      → At k (IsSubmitted b c g) (submit_pipe host lib events max_transfer k pipes t u).0
  unfolding submit_pipe
  submit_pipe-At_here b c g k pipes t u kept waiting = elim (Option-cases (get_elem? pipes k)) [
    | inl e ↦ rw (e, submit_pipe) (λ q g. absurd (ground (arith, e, g)))
    | inr (p, e) ↦
        let r = prepare_and_submit_transfer-Prepared host lib max_transfer p t u in
        rw (e, submit_pipe)
          (if_ind (λ (x : List Pipe × Table × U). At k (IsSubmitted b c g) x.0)
            (not p.active || p.submitted)
            (λ h q at. (kept q at, waiting_served b g q (waiting q at) (ground (arith, h, e, at))))
            (λ h. set-At (IsSubmitted b c g) k pipes _ (
              elim (kept p e) [ inl free ↦ inl free | inr (s, _) ↦ absurd (ground (arith, h, s)) ],
              served b g p _ _ r (ground (arith, h)) (ground (arith, waiting p e)),
            )))
  ]

  -- Pipes `i`, ..., `i + n - 1` are submitted: a pipe of another place keeps a property.
  submit_pipes-At_other :
      (P : Pipe → Type 0) (n i k : ℕ) (pipes : List Pipe) (t : Table) (u : U)
      → IsStable P
      → k < i
      → At k P pipes
      → At k P (submit_pipes host lib events max_transfer n i pipes t u).0
  unfolding submit_pipes
  submit_pipes-At_other P zero i k pipes t u stable below h = h
  submit_pipes-At_other P (suc n) i k pipes t u stable below h =
      let (pipes0, u0) = between host lib events max_transfer pipes u in
      let (pipes', t', u') = submit_pipe host lib events max_transfer i pipes0 t u0 in
      submit_pipes-At_other P n (suc i) k pipes' t' u' stable (omega (arith, below)) (
        submit_pipe-At_other P i k pipes0 t u0 (omega (arith, below))
          (between-At P k pipes u stable h))

  pub submit_pipes-At :
      (b c : Bool) (g n i k : ℕ) (pipes : List Pipe) (t : Table) (u : U)
      → i ≤ k
      → k < i + n
      → At k (IsKept c) pipes
      → At k (IsWaiting b g) pipes
      → At k (IsSubmitted b c g) (submit_pipes host lib events max_transfer n i pipes t u).0
  unfolding submit_pipes
  submit_pipes-At b c g zero i k pipes t u from to kept waiting = absurd (omega (arith, from, to))
  submit_pipes-At b c g (suc n) i k pipes t u from to kept waiting =
      let (pipes0, u0) = between host lib events max_transfer pipes u in
      let (pipes', t', u') = submit_pipe host lib events max_transfer i pipes0 t u0 in
      let kept0 = between-At (IsKept c) k pipes u (IsKept-IsStable c) kept in
      let waiting0 = between-At (IsWaiting b g) k pipes u (IsWaiting-IsStable b g) waiting in
      elim (Bool-cases (i == k)) [
        | inl e ↦
            let same : k ≡ i = ground (arith, e, ==_iff i k) in
            submit_pipes-At_other (IsSubmitted b c g) n (suc i) k pipes' t' u'
              (IsSubmitted-IsStable b c g) (omega (arith, same))
              (subst
                (λ j.
                  At k (IsSubmitted b c g)
                    (submit_pipe host lib events max_transfer j pipes0 t u0).0)
                same (submit_pipe-At_here b c g k pipes0 t u0 kept0 waiting0))
        | inr e ↦
            let ne : k ≢ i = λ x. ground (arith, e, x, ==_iff i k) in
            submit_pipes-At b c g n (suc i) k pipes' t' u' (ground (arith, from, e, ==_iff i k))
              (omega (arith, to)) (submit_pipe-At_other (IsKept c) i k pipes0 t u0 ne kept0)
              (submit_pipe-At_other (IsWaiting b g) i k pipes0 t u0 ne waiting0)
      ]
