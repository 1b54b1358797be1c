-- ===== src/Backend/Pipes/Pool/Accounting.antt =====
-- main/usb_backend.c: how the semaphore and the pipes of the pool add up.
use esp_usbip_bridge.Base.{
  ℕ, zero, suc, ◌+◌, ◌<◌, ◌≡◌, refl, sym, ap, ◌∙◌, List, [], ◌∷◌, Option, none, some, Bool, true,
  false, not, if◌then◌else◌, length, set, get_elem?, find_from, find_from-some, Option-cases,
  Bool-cases, inl, inr, arith, length-set,
}
use esp_usbip_bridge.Backend.Devices.{Table}
use esp_usbip_bridge.Backend.Pipes.{Pipe}
use esp_usbip_bridge.Backend.Pipes.Pool.{
  alloc_pipe, fill_request, Pool, assigned_count, Step, Reachable, take_sem, refuse, get_pipe, busy,
  start, give_pipe, give_sem, work, started, then_step,
}

assigned_at : (o : Option Pipe) → Bool
assigned_at none = false
assigned_at (some p) = p.assigned

set-assigned_count :
    (pipes : List Pipe) (i : ℕ) (p p' : Pipe)
    → get_elem? pipes i ≡ some p
    → assigned_count (set pipes i p') + (if p.assigned then 1 else 0)
      ≡ assigned_count pipes + (if p'.assigned then 1 else 0)
unfolding assigned_at
set-assigned_count [] i p p' e = absurd (ground (arith, e))
set-assigned_count (q ∷ qs) zero p p' e =
    let same : q.assigned ≡ p.assigned = ap assigned_at e in ground (arith, same)
set-assigned_count (q ∷ qs) (suc i) p p' e = ground (arith, set-assigned_count qs i p p' e)

alloc_pipe-some :
    (pipes : List Pipe) (i : ℕ)
    → (alloc_pipe pipes).0 ≡ some i
    → (p : Pipe) × (get_elem? pipes i ≡ some p)
      × (p.assigned ≡ false)
      × ((alloc_pipe pipes).1 ≡ set pipes i (record p { assigned = true; active = false }))
unfolding alloc_pipe
alloc_pipe-some pipes i h = elim (Option-cases (find_from (λ p. not p.assigned) pipes 0)) [
  | inl e ↦ absurd (ground (arith, rw (e, alloc_pipe) at h))
  | inr (k, e) ↦
      let (j, p, at, g, free) = find_from-some (λ p. not p.assigned) pipes 0 k e in
      let same : k ≡ j = omega (arith, at) in
      let g' : get_elem? pipes k ≡ some p = ap (get_elem? pipes) same ∙ g in
      let r : alloc_pipe pipes
          ≡ (some k, set pipes k (record p { assigned = true; active = false })) =
        rw (e, alloc_pipe) (rw (g', alloc_pipe) refl) in
      let index : i ≡ k = ground (arith, h, ap (λ (x : Option ℕ × List Pipe). x.0) r) in
      (
        p,
        ap (get_elem? pipes) index ∙ g',
        ground (arith, free),
        ap (λ (x : Option ℕ × List Pipe). x.1) r
            ∙ ap (λ n. set pipes n (record p { assigned = true; active = false })) (sym index),
      )
]

all_assigned :
    (pipes : List Pipe) (i : ℕ)
    → find_from (λ p. not p.assigned) pipes i ≡ none
    → assigned_count pipes ≡ length pipes
unfolding find_from
all_assigned [] i h = refl
all_assigned (p ∷ ps) i h = elim (Bool-cases p.assigned) [
  | inl e ↦ ground (arith, e, h, all_assigned ps (suc i))
  | inr e ↦ absurd (ground (arith, e, h))
]

alloc_pipe-none :
    (pipes : List Pipe) → (alloc_pipe pipes).0 ≡ none → assigned_count pipes ≡ length pipes
unfolding alloc_pipe
alloc_pipe-none pipes h = elim (Option-cases (find_from (λ p. not p.assigned) pipes 0)) [
  | inl e ↦ all_assigned pipes 0 e
  | inr (k, e) ↦
      let (j, p, at, g, free) = find_from-some (λ p. not p.assigned) pipes 0 k e in
      let g' : get_elem? pipes k ≡ some p = ap (get_elem? pipes) (omega (arith, at)) ∙ g in
      let r : alloc_pipe pipes
          ≡ (some k, set pipes k (record p { assigned = true; active = false })) =
        rw (e, alloc_pipe) (rw (g', alloc_pipe) refl) in
      absurd (ground (arith, h, ap (λ (x : Option ℕ × List Pipe). x.0) r))
]

-- Every pipe is accounted for once.
pub record IsBalanced (n : ℕ) (s : Pool) : Type 0 where
  pub size : length s.pipes ≡ n
  pub total : s.avail + s.holding + s.leaving + assigned_count s.pipes ≡ n

Step-IsBalanced : (n : ℕ) (t : Table) (s s' : Pool) → Step t s s' → IsBalanced n s → IsBalanced n s'
unfolding fill_request
Step-IsBalanced n t s _ (take_sem a e) b = record {
  size = b.size;
  total = omega (arith, b.total, e);
}
Step-IsBalanced n t s _ (refuse r w e c) b = record {
  size = b.size;
  total = omega (arith, b.total, e);
}
Step-IsBalanced n t s _ (get_pipe r w i e c g) b =
    let (p, at, free, after) = alloc_pipe-some s.pipes i g in
    let count = set-assigned_count s.pipes i p (record p { assigned = true; active = false }) at in
    record {
      size =
          ap length after
          ∙ length-set s.pipes i (record p { assigned = true; active = false })
          ∙ b.size;
      total = ground (arith, b.total, e, count, free, ap assigned_count after);
    }
Step-IsBalanced n t s _ (busy r w e c g) b = record {
  size = b.size;
  total = omega (arith, b.total, e);
}
Step-IsBalanced n t s _ (start r i p g a) b = record {
  size = length-set s.pipes i (fill_request r p) ∙ b.size;
  total = omega (arith, b.total, set-assigned_count s.pipes i p (fill_request r p) g);
}
Step-IsBalanced n t s _ (give_pipe i p g a) b = record {
  size = length-set s.pipes i (record p { assigned = false }) ∙ b.size;
  total =
      ground (arith, b.total, a, set-assigned_count s.pipes i p (record p { assigned = false }) g);
}
Step-IsBalanced n t s _ (give_sem l e) b = record {
  size = b.size;
  total = omega (arith, b.total, e);
}
Step-IsBalanced n t s _ (work i p p' g a) b = record {
  size = length-set s.pipes i p' ∙ b.size;
  total = ground (arith, b.total, a, set-assigned_count s.pipes i p p' g);
}

-- In every state of the pool that callers and the backend task reach from its start, in any
-- interleaving, the number of pipes is that of the start, and the semaphore's count, the callers
-- between taking it and getting a pipe, those between giving back the pipe and the semaphore, and
-- the assigned pipes add up to it.
pub Reachable-IsBalanced :
    (pipes : List Pipe) (s : Pool) → Reachable pipes s → IsBalanced (length pipes) s
Reachable-IsBalanced pipes _ (started e) = record { size = refl; total = omega (arith, e) }
Reachable-IsBalanced pipes s' (then_step t r step) =
    Step-IsBalanced (length pipes) t _ s' step (Reachable-IsBalanced pipes _ r)

-- In every state of the pool that callers and the backend task reach from its start, in any
-- interleaving, and in which a caller has taken the semaphore and has no pipe yet,
-- `alloc_pipe_locked` finds a pipe, and one that is not assigned.
pub alloc_pipe_succeeds :
    (pipes : List Pipe) (s : Pool)
    → Reachable pipes s
    → 0 < s.holding
    → (i : ℕ) × (p : Pipe) × ((alloc_pipe s.pipes).0 ≡ some i)
      × (get_elem? s.pipes i ≡ some p)
      × (p.assigned ≡ false)
alloc_pipe_succeeds pipes s r h = elim (Option-cases (alloc_pipe s.pipes).0) [
  | inl e ↦
      let b = Reachable-IsBalanced pipes s r in
      absurd (omega (arith, h, b.total, b.size, alloc_pipe-none s.pipes e))
  | inr (i, e) ↦ let (p, g, free, _) = alloc_pipe-some s.pipes i e in (i, p, e, g, free)
]
