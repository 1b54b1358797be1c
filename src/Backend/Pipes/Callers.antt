-- ===== src/Backend/Pipes/Callers.antt =====
-- main/usb_backend.c, main/usbip_server.c: what the other tasks do to the pipes while the backend task is
-- between two of its steps. Callers take a pipe, fill in their request, and give the pipe back after the
-- answer (`submit_pipe_request`); a cancel flag is set by an unlink or the end of a connection.
use esp_usbip_bridge.Base.{
  ℕ, List, [], ◌∷◌, none, some, true, false, not, ◌&&◌, ◌==◌, set, get_elem?, if◌then◌else◌,
}
use esp_usbip_bridge.Backend.Pipes.{Pipe}
use esp_usbip_bridge.Backend.Pipes.Pool.{Request, alloc_pipe, fill_request}

pub data CallerStep : Type 0 where
  take_pipe : CallerStep
  start_request : Request → ℕ → CallerStep
  give_pipe : ℕ → CallerStep
  set_cancel : ℕ → CallerStep

-- The caller of an assigned pipe has no request in it.
unfoldable pub start_idle : Request → Pipe → Pipe
unfolding fill_request
start_idle r p = if p.assigned && (not p.active && not p.submitted) then fill_request r p else p

-- `done_sem` is taken first.
unfoldable pub give_answered : Pipe → Pipe
give_answered p =
    if p.assigned && (not p.active && p.done == 1)
    then record p { assigned = false; done = 0 }
    else p

abbrev pub raise_cancel : Pipe → Pipe
raise_cancel p = record p { cancel = true }

abbrev pub take_free : Pipe → Pipe
take_free p = record p { assigned = true; active = false }

unfoldable pub change_pipe : (Pipe → Pipe) → ℕ → List Pipe → List Pipe
change_pipe f i pipes = elim (get_elem? pipes i) [ none ↦ pipes | some p ↦ set pipes i (f p) ]

unfoldable pub caller_step : CallerStep → List Pipe → List Pipe
unfolding alloc_pipe change_pipe start_idle give_answered
caller_step CallerStep.take_pipe pipes = (alloc_pipe pipes).1
caller_step (CallerStep.start_request r i) pipes = change_pipe (start_idle r) i pipes
caller_step (CallerStep.give_pipe i) pipes = change_pipe give_answered i pipes
caller_step (CallerStep.set_cancel i) pipes = change_pipe raise_cancel i pipes

unfoldable pub caller_steps : List CallerStep → List Pipe → List Pipe
unfolding caller_step
caller_steps [] pipes = pipes
caller_steps (s ∷ ss) pipes = caller_steps ss (caller_step s pipes)
