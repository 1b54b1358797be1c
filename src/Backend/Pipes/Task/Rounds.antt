-- ===== src/Backend/Pipes/Task/Rounds.antt =====
-- main/usb_backend.c: what a round of the backend task brings about, with the other tasks between its steps.
use esp_usbip_bridge.Base.{
  ℕ, zero, suc, ◌+◌, ◌≤◌, ◌<◌, ◌≡◌, ◌≢◌, refl, subst, List, some, Bool, true, false, not, ◌&&◌,
  ◌||◌, set, get_elem?, Option-cases, Bool-cases, inl, inr, ◌⊎◌, arith, if_ind, ◌==◌, ==_iff,
  if◌then◌else◌,
}
use esp_usbip_bridge.Errno.{failure, Errno}
use esp_usbip_bridge.Backend.Devices.{UsbHost, Table, process_backend_events}
use esp_usbip_bridge.Backend.Pipes.{Pipe, TransferHost}
use esp_usbip_bridge.Backend.Pipes.Completion.{complete_transfer, complete_transfer-answers}
use esp_usbip_bridge.Backend.Pipes.Task.{
  EventHost, deliver, answer_caller, mark_aborted, between, submit_pipes, pump_events, flush_pipe,
  finish_pipe, check_pipe, check_pipes, task_round,
}
use esp_usbip_bridge.Backend.Pipes.Task.Submitted.{between-At, submit_pipes-At}
use esp_usbip_bridge.Backend.Pipes.Task.Places.{At, IsStable, set-At, set-At_other, deliver-At}
use esp_usbip_bridge.Backend.Pipes.Task.Answers.{
  is_busy, IsKept, IsWaiting, IsSubmitted, IsMarked, IsSettled, IsKept-IsStable, IsWaiting-IsStable,
  IsSubmitted-IsStable, IsMarked-IsStable, IsSettled-IsStable, mark_aborted-IsMarked,
}

module _ {U : Type 0} (host : UsbHost U) (lib : TransferHost U) (events : EventHost U)
    (max_transfer : ℕ) where
  pump_events-At :
      (P : Pipe → Type 0) (k n i : ℕ) (pipes : List Pipe) (u : U)
      → IsStable P
      → At k P pipes
      → At k P (pump_events host lib events max_transfer n i pipes u).0
  unfolding pump_events
  pump_events-At P k zero i pipes u stable h = h
  pump_events-At P k (suc n) i pipes u stable h =
      let (reports, u') = events.handle_events u in
      let rest =
        pump_events-At P k n i (deliver reports pipes) u' stable
          (deliver-At P stable k reports pipes h) in
      elim (Option-cases (get_elem? pipes i)) [
        | inl e ↦ rw (e, pump_events) h
        | inr (p, e) ↦
            rw (e, pump_events)
              (if_ind (λ (r : List Pipe × U). At k P r.0) p.is_completed (λ _. h) (λ _. rest))
      ]

  flush_pipe-At :
      (P : Pipe → Type 0) (k i : ℕ) (p : Pipe) (pipes : List Pipe) (u : U)
      → IsStable P
      → At k P pipes
      → At k P (flush_pipe host lib events max_transfer i p pipes u).0
  unfolding flush_pipe
  flush_pipe-At P k i p pipes u stable h =
      if_ind (λ (r : List Pipe × U). At k P r.0)
        (p.aborted && not p.is_completed && not p.is_control && not (p.dev_hdl == 0))
        (λ _. pump_events-At P k 50 i pipes _ stable h) (λ _. h)

  finish_pipe-At_other :
      (P : Pipe → Type 0) (i k : ℕ) (pipes : List Pipe) (u : U)
      → k ≢ i
      → At k P pipes
      → At k P (finish_pipe host lib events max_transfer i pipes u).0
  unfolding finish_pipe
  finish_pipe-At_other P i k pipes u ne h = elim (Option-cases (get_elem? pipes i)) [
    | inl e ↦ rw (e, finish_pipe) h
    | inr (p, e) ↦
        rw (e, finish_pipe)
          (if_ind (λ (r : List Pipe × U). At k P r.0) (p.is_completed || p.aborted)
            (λ _. set-At_other P i k pipes _ ne h) (λ _. h))
  ]

  answered_once :
      (b : Bool) (g : ℕ) (p p' : Pipe)
      → (b ≡ false) ⊎ (p.answers ≡ g)
      → p'.answers ≡ p.answers
      → (b ≡ false) ⊎ (p'.answers + 1 ≡ suc g)
  answered_once b g p p' (inl free) counted = inl free
  answered_once b g p p' (inr same) counted = inr (omega (arith, same, counted))

  finish_pipe-At_here :
      (b c : Bool) (g now k : ℕ) (pipes : List Pipe) (u : U)
      → At k (IsMarked b c g now) pipes
      → At k (IsSettled b c g now) (finish_pipe host lib events max_transfer k pipes u).0
  unfolding finish_pipe
  finish_pipe-At_here b c g now k pipes u marked = elim (Option-cases (get_elem? pipes k)) [
    | inl e ↦ rw (e, finish_pipe) (λ q g. absurd (ground (arith, e, g)))
    | inr (p, e) ↦
        rw (e, finish_pipe)
          (if_ind (λ (r : List Pipe × U). At k (IsSettled b c g now) r.0)
            (p.is_completed || p.aborted)
            (λ _.
              let (status, p', _) = complete_transfer lib p u in
              let reported =
                if p.aborted
                then (if p.cancel then failure Errno.econnreset else failure Errno.etimedout)
                else status in
              let counted = complete_transfer-answers lib p u in
              set-At (IsSettled b c g now) k pipes (answer_caller reported p')
                (inr refl, answered_once b g p p' (marked p e).2 counted))
            (λ h q at.
              let (s, how, same) = marked q at in
              (
                elim how [
                  | inl a ↦ absurd (ground (arith, h, a, e, at))
                  | inr (_, early, kept) ↦ inl (s, early, kept)
                ],
                rw s same,
              )))
  ]

  -- The second phase at another place, and at the pipe's own.
  check_pipe-At_other :
      (P : Pipe → Type 0) (now i k : ℕ) (pipes : List Pipe) (u : U)
      → IsStable P
      → k ≢ i
      → At k P pipes
      → At k P (check_pipe host lib events max_transfer now i pipes u).0
  unfolding check_pipe
  check_pipe-At_other P now i k pipes u stable ne h = elim (Option-cases (get_elem? pipes i)) [
    | inl e ↦ rw (e, check_pipe) h
    | inr (p, e) ↦
        let p1 = mark_aborted now p in
        let pipes1 = set pipes i p1 in
        let (pipes2, u2) = flush_pipe host lib events max_transfer i p1 pipes1 u in
        let (pipes3, u3) = between host lib events max_transfer pipes2 u2 in
        rw (e, check_pipe)
          (if_ind (λ (r : List Pipe × U). At k P r.0) p.submitted
            (λ _. finish_pipe-At_other P i k pipes3 u3 ne (
              between-At host lib events max_transfer P k pipes2 u2 stable
                (flush_pipe-At P k i p1 pipes1 u stable (set-At_other P i k pipes p1 ne h))))
            (λ _. h))
  ]

  IsSettled-idle :
      (b c : Bool) (g now : ℕ) (p : Pipe)
      → p.submitted ≡ false
      → IsSubmitted b c g p
      → IsSettled b c g now p
  IsSettled-idle b c g now p s (_, served) = (inr s, served)

  check_pipe-At_here :
      (b c : Bool) (g now k : ℕ) (pipes : List Pipe) (u : U)
      → At k (IsSubmitted b c g) pipes
      → At k (IsSettled b c g now) (check_pipe host lib events max_transfer now k pipes u).0
  unfolding check_pipe
  check_pipe-At_here b c g now k pipes u here = elim (Option-cases (get_elem? pipes k)) [
    | inl e ↦ rw (e, check_pipe) (λ q g. absurd (ground (arith, e, g)))
    | inr (p, e) ↦
        let p1 = mark_aborted now p in
        let pipes1 = set pipes k p1 in
        let (pipes2, u2) = flush_pipe host lib events max_transfer k p1 pipes1 u in
        let (pipes3, u3) = between host lib events max_transfer pipes2 u2 in
        let stable = IsMarked-IsStable b c g now in
        rw (e, check_pipe)
          (if_ind (λ (r : List Pipe × U). At k (IsSettled b c g now) r.0) p.submitted
            (λ s. finish_pipe-At_here b c g now k pipes3 u3 (
              between-At host lib events max_transfer (IsMarked b c g now) k pipes2 u2 stable (
                flush_pipe-At (IsMarked b c g now) k k p1 pipes1 u stable (
                  set-At (IsMarked b c g now) k pipes p1
                    (mark_aborted-IsMarked b c g now p s (here p e))))))
            (λ s q at. IsSettled-idle b c g now q (ground (arith, s, e, at)) (here q at)))
  ]

  check_pipes-At_other :
      (P : Pipe → Type 0) (now n i k : ℕ) (pipes : List Pipe) (u : U)
      → IsStable P
      → k < i
      → At k P pipes
      → At k P (check_pipes host lib events max_transfer now n i pipes u).0
  unfolding check_pipes
  check_pipes-At_other P now zero i k pipes u stable below h = h
  check_pipes-At_other P now (suc n) i k pipes u stable below h =
      let (pipes0, u0) = between host lib events max_transfer pipes u in
      let (pipes', u') = check_pipe host lib events max_transfer now i pipes0 u0 in
      check_pipes-At_other P now n (suc i) k pipes' u' stable (omega (arith, below)) (
        check_pipe-At_other P now i k pipes0 u0 stable (omega (arith, below))
          (between-At host lib events max_transfer P k pipes u stable h))

  check_pipes-At :
      (b c : Bool) (g now n i k : ℕ) (pipes : List Pipe) (u : U)
      → i ≤ k
      → k < i + n
      → At k (IsSubmitted b c g) pipes
      → At k (IsSettled b c g now) (check_pipes host lib events max_transfer now n i pipes u).0
  unfolding check_pipes
  check_pipes-At b c g now zero i k pipes u from to here = absurd (omega (arith, from, to))
  check_pipes-At b c g now (suc n) i k pipes u from to here =
      let (pipes0, u0) = between host lib events max_transfer pipes u in
      let (pipes', u') = check_pipe host lib events max_transfer now i pipes0 u0 in
      let stable = IsSubmitted-IsStable b c g in
      let here0 =
        between-At host lib events max_transfer (IsSubmitted b c g) k pipes u stable here in
      elim (Bool-cases (i == k)) [
        | inl e ↦
            let same : k ≡ i = ground (arith, e, ==_iff i k) in
            check_pipes-At_other (IsSettled b c g now) now n (suc i) k pipes' u'
              (IsSettled-IsStable b c g now) (omega (arith, same))
              (subst
                (λ j.
                  At k (IsSettled b c g now)
                    (check_pipe host lib events max_transfer now j pipes0 u0).0)
                same (check_pipe-At_here b c g now k pipes0 u0 here0))
        | inr e ↦
            let ne : k ≢ i = λ x. ground (arith, e, x, ==_iff i k) in
            check_pipes-At b c g now n (suc i) k pipes' u' (ground (arith, from, e, ==_iff i k))
              (omega (arith, to))
              (check_pipe-At_other (IsSubmitted b c g) now i k pipes0 u0 stable ne here0)
      ]

  IsKept-first : (q : Pipe) → IsKept (q.submitted && q.cancel) q
  IsKept-first q = ground arith

  IsWaiting-first : (q : Pipe) → IsWaiting (is_busy q) q.answers q
  unfolding is_busy
  IsWaiting-first q = ground arith

  -- A round of the backend task over `n` pipes, whatever the hardware reports, the libraries answer,
  -- and the other tasks do between its steps (take pipes, fill in requests, give pipes back, set
  -- cancel flags): a pipe that is marked as submitted behind the round has a deadline, as a 32-bit
  -- number of ticks, above the time that the round read, and was not both submitted and cancelled
  -- when the round began; and if a caller waited on the pipe when the round began, it has been
  -- answered exactly once in the round if the pipe is not marked as submitted behind it, and not at
  -- all if it is.
  pub task_round_lem :
      (n : ℕ) (pipes : List Pipe) (t : Table) (u : U) (i : ℕ) (q p : Pipe)
      → i < n
      → get_elem? pipes i ≡ some q
      → get_elem? (task_round host lib events max_transfer n pipes t u).0 i ≡ some p
      → let (es, u2) = events.queued_events (events.handle_events u).1 in
        let now = lib.tick_count (process_backend_events host es t u2).1 in
        (((p.submitted ≡ true) × (now < p.deadline) × ((q.submitted && q.cancel) ≡ false))
          ⊎ (p.submitted ≡ false))
        × ((is_busy q ≡ false) ⊎ (p.answers ≡ (if p.submitted then q.answers else suc q.answers)))
  unfolding task_round
  task_round_lem n pipes t u i q p below before after =
      let (reports, u1) = events.handle_events u in
      let (es, u2) = events.queued_events u1 in
      let (t1, u3) = process_backend_events host es t u2 in
      let now = lib.tick_count u3 in
      let b = is_busy q in
      let g = q.answers in
      let c = q.submitted && q.cancel in
      let start = deliver reports pipes in
      let same : (x : Pipe) → get_elem? pipes i ≡ some x → q ≡ x =
        λ x e. ground (arith, before, e) in
      let kept : At i (IsKept c) start =
        deliver-At (IsKept c) (IsKept-IsStable c) i reports pipes
          (λ x e. subst (IsKept c) (same x e) (IsKept-first q)) in
      let waiting : At i (IsWaiting b g) start =
        deliver-At (IsWaiting b g) (IsWaiting-IsStable b g) i reports pipes
          (λ x e. subst (IsWaiting b g) (same x e) (IsWaiting-first q)) in
      let (pipes2, t2, u4) = submit_pipes host lib events max_transfer n 0 start t1 u3 in
      let submitted =
        submit_pipes-At host lib events max_transfer b c g n 0 i start t1 u3 (omega arith)
          (omega (arith, below)) kept waiting in
      check_pipes-At b c g now n 0 i pipes2 u4 (omega arith) (omega (arith, below)) submitted p
        after
