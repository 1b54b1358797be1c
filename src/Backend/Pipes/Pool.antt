-- ===== src/Backend/Pipes/Pool.antt =====
-- main/usb_backend.c: the pool of the host pipes. `alloc_pipe_locked` and `submit_pipe_request`, as the
-- steps of any number of callers with the backend task between them.
pub mod Accounting
use esp_usbip_bridge.Base.{
  ℕ, zero, suc, ◌+◌, ◌≤◌, ◌<◌, ◌≡◌, ◌≢◌, refl, sym, ap, ◌∙◌, List, [], ◌∷◌, Option, none, some,
  Bool, true, false, not, ◌==◌, if◌then◌else◌, length, set, get_elem?, find_from, find_from-some,
  find_from-none, is_some, Option-cases, Bool-cases, inl, inr, ◌⊎◌, arith, if_ind, length-set,
}
use esp_usbip_bridge.Errno.{Status, success, failure, Errno}
use esp_usbip_bridge.Backend.Devices.{Table, find_slot_by_busid}
use esp_usbip_bridge.Backend.Devices.Lookup.{find_endpoint}
use esp_usbip_bridge.Backend.Pipes.{Pipe}

-- The first pipe that is not assigned, and the pipes with it assigned.
unfoldable pub alloc_pipe : List Pipe → Option ℕ × List Pipe
unfolding find_from
alloc_pipe pipes = elim (find_from (λ p. not p.assigned) pipes 0) [
  | none ↦ (none, pipes)
  | some i ↦ elim (get_elem? pipes i) [
    | none ↦ (none, pipes)
    | some p ↦ (some i, set pipes i (record p { assigned = true; active = false }))
  ]
]

-- What a caller asks for.
pub record Request : Type 0 where
  pub busid : List ℕ
  pub endpoint_addr : ℕ
  pub setup : Option (List ℕ)
  pub out_data : Option (List ℕ)
  pub out_len : ℕ
  pub in_data : Option (List ℕ)
  pub in_capacity : ℕ
  pub cancel : Bool

-- The device has to be there, and the endpoint too unless it is EP0.
unfoldable pub check_request : Request → Table → Status
unfolding find_slot_by_busid find_endpoint
check_request r t = elim (find_slot_by_busid r.busid t) [
  | none ↦ failure Errno.enodev
  | some slot ↦ elim (get_elem? t slot) [
    | none ↦ failure Errno.enodev
    | some s ↦
        if r.endpoint_addr == 0
        then success
        else if is_some (find_endpoint s.device.num_endpoints 0 r.endpoint_addr s.device.endpoints)
        then success
        else failure Errno.enodev
  ]
]

-- The caller's parameters go into its pipe, which becomes active.
unfoldable pub fill_request : Request → Pipe → Pipe
fill_request r p = record p {
  busid = r.busid;
  endpoint_addr = r.endpoint_addr;
  setup = elim r.setup [ none ↦ p.setup | some packet ↦ packet ];
  out_data = r.out_data;
  out_len = r.out_len;
  in_data = r.in_data;
  in_capacity = r.in_capacity;
  received = 0;
  status_out = failure Errno.eio;
  cancel = r.cancel;
  active = true;
}

-- The pipes, the counting semaphore, the callers that have taken it and have no pipe yet, and those
-- that have given their pipe back and not yet the semaphore.
pub record Pool : Type 0 where
  pub pipes : List Pipe
  pub avail : ℕ
  pub holding : ℕ
  pub leaving : ℕ

abbrev pub assigned_count : List Pipe → ℕ
assigned_count [] = 0
assigned_count (p ∷ ps) = if p.assigned then suc (assigned_count ps) else assigned_count ps

-- One step of one caller, or of the backend task.
pub data Step (t : Table) : Pool → Pool → Type 0 where
  -- `xSemaphoreTake(pipe_avail_sem)` blocks until there is one to take.
  take_sem :
      {s : Pool} (a : ℕ)
      → s.avail ≡ suc a
      → Step t s (record s { avail = a; holding = suc s.holding })
  -- No such device or endpoint.
  refuse :
      {s : Pool} (r : Request) (w : ℕ)
      → s.holding ≡ suc w
      → check_request r t ≢ success
      → Step t s (record s { holding = w; avail = suc s.avail })
  -- A pipe is allocated under the mutex; its caller alone fills it.
  get_pipe :
      {s : Pool} (r : Request) (w i : ℕ)
      → s.holding ≡ suc w
      → check_request r t ≡ success
      → (alloc_pipe s.pipes).0 ≡ some i
      → Step t s (record s { holding = w; pipes = (alloc_pipe s.pipes).1 })
  -- `-EBUSY`: "semaphore accounting error".
  busy :
      {s : Pool} (r : Request) (w : ℕ)
      → s.holding ≡ suc w
      → check_request r t ≡ success
      → (alloc_pipe s.pipes).0 ≡ none
      → Step t s (record s { holding = w; avail = suc s.avail })
  start :
      {s : Pool} (r : Request) (i : ℕ) (p : Pipe)
      → get_elem? s.pipes i ≡ some p
      → p.assigned ≡ true
      → Step t s (record s { pipes = set s.pipes i (fill_request r p) })
  -- After `done_sem`, the caller gives its pipe back, and then the semaphore.
  give_pipe :
      {s : Pool} (i : ℕ) (p : Pipe)
      → get_elem? s.pipes i ≡ some p
      → p.assigned ≡ true
      → Step t s (record s {
        pipes = set s.pipes i (record p { assigned = false });
        leaving = suc s.leaving;
      })
  give_sem :
      {s : Pool} (l : ℕ)
      → s.leaving ≡ suc l
      → Step t s (record s { leaving = l; avail = suc s.avail })
  -- The task changes anything of a pipe but whether it is assigned.
  work :
      {s : Pool} (i : ℕ) (p p' : Pipe)
      → get_elem? s.pipes i ≡ some p
      → p'.assigned ≡ p.assigned
      → Step t s (record s { pipes = set s.pipes i p' })

-- Any number of steps from the pool that `usb_backend_start` sets up.
pub data Reachable : List Pipe → Pool → Type 0 where
  started :
      {pipes : List Pipe}
      → assigned_count pipes ≡ 0
      → Reachable pipes (record { pipes = pipes; avail = length pipes; holding = 0; leaving = 0 })
  then_step :
      {pipes : List Pipe} {s s' : Pool} (t : Table)
      → Reachable pipes s
      → Step t s s'
      → Reachable pipes s'
