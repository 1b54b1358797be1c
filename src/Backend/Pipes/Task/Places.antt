-- ===== src/Backend/Pipes/Task/Places.antt =====
-- Properties of the pipe at a place, and what the callbacks and the other tasks keep of them.
use esp_usbip_bridge.Base.{
  ℕ, ◌≡◌, ◌≢◌, sym, ap, ◌∙◌, subst, List, [], ◌∷◌, some, false, not, set, length-set, get_elem?,
  get_elem?-set_self, get_elem?-set_ne, get_elem?-length, Option-cases, Bool-cases, inl, inr, arith,
  ◌==◌, ==_iff, find_from, find_from-some,
}
use esp_usbip_bridge.Backend.Pipes.{Pipe}
use esp_usbip_bridge.Backend.Pipes.Pool.{Request, alloc_pipe}
use esp_usbip_bridge.Backend.Pipes.Callers.{
  CallerStep, start_idle, give_answered, raise_cancel, take_free, change_pipe, caller_step,
  caller_steps,
}
use esp_usbip_bridge.Backend.Pipes.Task.{Report, pipe_transfer_done_cb, deliver}

-- A property of the pipe at a place.
abbrev pub At : ℕ → (Pipe → Type 0) → List Pipe → Type 0
At i P pipes = (p : Pipe) → get_elem? pipes i ≡ some p → P p

pub set-At :
    (P : Pipe → Type 0) (n : ℕ) (pipes : List Pipe) (p : Pipe) → P p → At n P (set pipes n p)
set-At P n pipes p h q g =
    let inside = get_elem?-length (set pipes n p) n q g in
    subst P
      (ground
        (arith, g, get_elem?-set_self pipes n p (omega (arith, inside, length-set pipes n p))))
      h

pub set-At_other :
    (P : Pipe → Type 0) (n i : ℕ) (pipes : List Pipe) (p : Pipe)
    → i ≢ n
    → At i P pipes
    → At i P (set pipes n p)
set-At_other P n i pipes p ne h q g = h q (sym (get_elem?-set_ne pipes p (λ x. ne (sym x))) ∙ g)

-- The pipe at one place is changed in a way that keeps the property.
pub set-At_kept :
    (P : Pipe → Type 0) (n i : ℕ) (pipes : List Pipe) (p p' : Pipe)
    → get_elem? pipes n ≡ some p
    → (P p → P p')
    → At i P pipes
    → At i P (set pipes n p')
set-At_kept P n i pipes p p' e keeps h = elim (Bool-cases (i == n)) [
  | inl q ↦
      let same : i ≡ n = ground (arith, q, ==_iff i n) in
      subst (λ k. At k P (set pipes n p')) (sym same)
        (set-At P n pipes p' (keeps (h p (ap (get_elem? pipes) same ∙ e))))
  | inr q ↦ set-At_other P n i pipes p' (λ x. ground (arith, q, x, ==_iff i n)) h
]

-- The callbacks and the other tasks leave such a property alone.
pub record IsStable (P : Pipe → Type 0) : Type 0 where
  pub reported : (r : Report) (p : Pipe) → P p → P (pipe_transfer_done_cb r p)
  pub taken_then : (p : Pipe) → p.assigned ≡ false → P p → P (take_free p)
  pub started_then : (r : Request) (p : Pipe) → P p → P (start_idle r p)
  pub given_then : (p : Pipe) → P p → P (give_answered p)
  pub cancelled_then : (p : Pipe) → P p → P (raise_cancel p)

module _ (P : Pipe → Type 0) (stable : IsStable P) (i : ℕ) where
  pub deliver-At : (rs : List Report) (pipes : List Pipe) → At i P pipes → At i P (deliver rs pipes)
  unfolding deliver
  deliver-At [] pipes h = h
  deliver-At (r ∷ rs) pipes h = elim (Option-cases (get_elem? pipes r.pipe)) [
    | inl e ↦ rw (e, deliver) (deliver-At rs pipes h)
    | inr (p, e) ↦
        let p' = pipe_transfer_done_cb r p in
        rw (e, deliver)
          (deliver-At rs (set pipes r.pipe p')
            (set-At_kept P r.pipe i pipes p p' e (stable.reported r p) h))
  ]

  change_pipe-At :
      (f : Pipe → Pipe) (n : ℕ) (pipes : List Pipe)
      → ((p : Pipe) → P p → P (f p))
      → At i P pipes
      → At i P (change_pipe f n pipes)
  unfolding change_pipe
  change_pipe-At f n pipes keeps h = elim (Option-cases (get_elem? pipes n)) [
    | inl e ↦ rw (e, change_pipe) h
    | inr (p, e) ↦ rw (e, change_pipe) (set-At_kept P n i pipes p (f p) e (keeps p) h)
  ]

  alloc_pipe-At : (pipes : List Pipe) → At i P pipes → At i P (alloc_pipe pipes).1
  unfolding alloc_pipe
  alloc_pipe-At pipes h = elim (Option-cases (find_from (λ p. not p.assigned) pipes 0)) [
    | inl e ↦ rw (e, alloc_pipe) h
    | inr (k, e) ↦
        let (j, p, at, g, free) = find_from-some (λ p. not p.assigned) pipes 0 k e in
        let same : k ≡ j = omega (arith, at) in
        let g' : get_elem? pipes k ≡ some p = ap (get_elem? pipes) same ∙ g in
        rw (e, alloc_pipe)
          (rw (g', alloc_pipe)
            (set-At_kept P k i pipes p (take_free p) g' (stable.taken_then p (ground (arith, free)))
              h))
  ]

  caller_step-At :
      (s : CallerStep) (pipes : List Pipe) → At i P pipes → At i P (caller_step s pipes)
  unfolding caller_step
  caller_step-At CallerStep.take_pipe pipes h = alloc_pipe-At pipes h
  caller_step-At (CallerStep.start_request r n) pipes h =
      change_pipe-At (start_idle r) n pipes (stable.started_then r) h
  caller_step-At (CallerStep.give_pipe n) pipes h =
      change_pipe-At give_answered n pipes stable.given_then h
  caller_step-At (CallerStep.set_cancel n) pipes h =
      change_pipe-At raise_cancel n pipes stable.cancelled_then h

  pub caller_steps-At :
      (ss : List CallerStep) (pipes : List Pipe) → At i P pipes → At i P (caller_steps ss pipes)
  unfolding caller_steps
  caller_steps-At [] pipes h = h
  caller_steps-At (s ∷ ss) pipes h =
      caller_steps-At ss (caller_step s pipes) (caller_step-At s pipes h)
