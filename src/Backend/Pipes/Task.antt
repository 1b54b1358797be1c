-- ===== src/Backend/Pipes/Task.antt =====
-- main/usb_backend.c: the backend task, which hands the pipes' transfers to the hardware, and ends
-- them. The hardware's callbacks run inside `usb_host_client_handle_events` only. The other tasks run at
-- any time: they write an active pipe's cancel flag only, which each of the steps here reads once at most,
-- so that what they do during a step comes before it or behind it.
pub mod Places
pub mod Answers
pub mod Submitted
pub mod Rounds
use esp_usbip_bridge.Base.{
  ℕ, zero, suc, ◌+◌, List, [], ◌∷◌, Option, none, some, Bool, true, false, ◌&&◌, ◌||◌, not, set,
  get_elem?, ltb, leb, ◌==◌, if◌then◌else◌,
}
use esp_usbip_bridge.Errno.{Status, success, failure, Errno}
use esp_usbip_bridge.Backend.Devices.{UsbHost, Table, BackendEvent, process_backend_events}
use esp_usbip_bridge.Backend.Pipes.{
  TransferStatus, Transfer, Pipe, TransferHost, prepare_and_submit_transfer,
}
use esp_usbip_bridge.Backend.Pipes.Callers.{CallerStep, caller_steps}
use esp_usbip_bridge.Backend.Pipes.Completion.{complete_transfer}

-- What the hardware says of the transfer of a pipe when its callback runs.
pub record Report : Type 0 where
  pub pipe : ℕ
  pub report_status : TransferStatus
  pub report_actual : ℕ
  pub report_buffer : List ℕ

pub record EventHost (U : Type 0) : Type 0 where
  -- `usb_host_client_handle_events`, with the callbacks that it runs.
  pub handle_events : U → List Report × U
  -- What the other tasks do from one step of the backend task to the next.
  pub callers : U → List CallerStep × U
  pub queued_events : U → List BackendEvent × U
  pub endpoint_halt : ℕ → ℕ → U → U
  pub endpoint_flush : ℕ → ℕ → U → U
  pub endpoint_clear : ℕ → ℕ → U → U

-- `pipe_transfer_done_cb`, for the result that stands in the transfer then.
unfoldable pub pipe_transfer_done_cb : Report → Pipe → Pipe
pipe_transfer_done_cb r p =
    let reported : Option Transfer = elim p.xfer [
      | none ↦ none
      | some transfer ↦ some (record transfer {
        data_buffer = r.report_buffer;
        transfer_status = r.report_status;
        actual_num_bytes = r.report_actual;
      })
    ] in
    record p { is_completed = true; xfer = reported }

unfoldable pub deliver : List Report → List Pipe → List Pipe
unfolding pipe_transfer_done_cb
deliver [] pipes = pipes
deliver (r ∷ rs) pipes = elim (get_elem? pipes r.pipe) [
  | none ↦ deliver rs pipes
  | some p ↦ deliver rs (set pipes r.pipe (pipe_transfer_done_cb r p))
]

-- A request is answered: the caller's status is written and its semaphore given.
abbrev pub answer_caller : Status → Pipe → Pipe
answer_caller status p = record p {
  active = false;
  submitted = false;
  status_out = status;
  done = 1;
  answers = p.answers + 1;
}

-- A request that cannot be submitted is answered at once.
abbrev pub refuse_caller : Errno → Pipe → Pipe
refuse_caller e p = record p {
  active = false;
  status_out = failure e;
  done = 1;
  answers = p.answers + 1;
}

-- The tests for a cancelled and for a timed-out request.
unfoldable pub mark_aborted : ℕ → Pipe → Pipe
mark_aborted now p =
    if not p.aborted && p.cancel
    then record p { aborted = true }
    else if not p.aborted && leb p.deadline now
    then record p { aborted = true }
    else p

module _ {U : Type 0} (host : UsbHost U) (lib : TransferHost U) (events : EventHost U)
    (max_transfer : ℕ) where
  -- The other tasks run.
  unfoldable pub between : List Pipe → U → List Pipe × U
  unfolding caller_steps
  between pipes u = let (steps, u') = events.callers u in (caller_steps steps pipes, u')

  -- Phase 1, for one pipe.
  unfoldable pub submit_pipe : ℕ → List Pipe → Table → U → List Pipe × Table × U
  unfolding prepare_and_submit_transfer
  submit_pipe i pipes t u = elim (get_elem? pipes i) [
    | none ↦ (pipes, t, u)
    | some p ↦
        let (status, p', t', u') = prepare_and_submit_transfer host lib max_transfer p t u in
        let p'' : Pipe = elim status [ success ↦ p' | failure e ↦ refuse_caller e p' ] in
        if not p.active || p.submitted then (pipes, t, u) else (set pipes i p'', t', u')
  ]

  -- Pipes `i`, ..., `i + n - 1`.
  unfoldable pub submit_pipes : ℕ → ℕ → List Pipe → Table → U → List Pipe × Table × U
  unfolding between submit_pipe
  submit_pipes zero i pipes t u = (pipes, t, u)
  submit_pipes (suc n) i pipes t u =
      let (pipes0, u0) = between pipes u in
      let (pipes', t', u') = submit_pipe i pipes0 t u0 in submit_pipes n (suc i) pipes' t' u'

  -- Events are handled until the callback of the pipe has run, so many times at most.
  unfoldable pub pump_events : ℕ → ℕ → List Pipe → U → List Pipe × U
  unfolding deliver
  pump_events zero i pipes u = (pipes, u)
  pump_events (suc n) i pipes u =
      let (reports, u') = events.handle_events u in
      let rest = pump_events n i (deliver reports pipes) u' in
      elim (get_elem? pipes i) [
        | none ↦ (pipes, u)
        | some p ↦ if p.is_completed then (pipes, u) else rest
      ]

  -- Halting and flushing the endpoint forces the hardware to end the transfer.
  unfoldable pub flush_pipe : ℕ → Pipe → List Pipe → U → List Pipe × U
  unfolding pump_events
  flush_pipe i p pipes u =
      let u1 =
        events.endpoint_flush p.dev_hdl p.endpoint_addr
          (events.endpoint_halt p.dev_hdl p.endpoint_addr u) in
      let (pipes', u2) = pump_events 50 i pipes u1 in
      if p.aborted && not p.is_completed && not p.is_control && not (p.dev_hdl == 0)
      then (pipes', events.endpoint_clear p.dev_hdl p.endpoint_addr u2)
      else (pipes, u)

  unfoldable pub finish_pipe : ℕ → List Pipe → U → List Pipe × U
  unfolding complete_transfer
  finish_pipe i pipes u = elim (get_elem? pipes i) [
    | none ↦ (pipes, u)
    | some p ↦
        let (status, p', u') = complete_transfer lib p u in
        let reported =
          if p.aborted
          then (if p.cancel then failure Errno.econnreset else failure Errno.etimedout)
          else status in
        if p.is_completed || p.aborted
        then (set pipes i (answer_caller reported p'), u')
        else (pipes, u)
  ]

  -- Phase 2, for one pipe. The cancel flag may be set between the test and the answer.
  unfoldable pub check_pipe : ℕ → ℕ → List Pipe → U → List Pipe × U
  unfolding mark_aborted flush_pipe between finish_pipe
  check_pipe now i pipes u = elim (get_elem? pipes i) [
    | none ↦ (pipes, u)
    | some p ↦
        let p1 = mark_aborted now p in
        let (pipes2, u2) = flush_pipe i p1 (set pipes i p1) u in
        let (pipes3, u3) = between pipes2 u2 in
        let finished = finish_pipe i pipes3 u3 in if p.submitted then finished else (pipes, u)
  ]

  unfoldable pub check_pipes : ℕ → ℕ → ℕ → List Pipe → U → List Pipe × U
  unfolding between check_pipe
  check_pipes now zero i pipes u = (pipes, u)
  check_pipes now (suc n) i pipes u =
      let (pipes0, u0) = between pipes u in
      let (pipes', u') = check_pipe now i pipes0 u0 in check_pipes now n (suc i) pipes' u'

  -- One round of the task over `n` pipes.
  unfoldable pub task_round : ℕ → List Pipe → Table → U → List Pipe × Table × U
  unfolding deliver process_backend_events submit_pipes check_pipes
  task_round n pipes t u =
      let (reports, u1) = events.handle_events u in
      let (es, u2) = events.queued_events u1 in
      let (t1, u3) = process_backend_events host es t u2 in
      let now = lib.tick_count u3 in
      let (pipes2, t2, u4) = submit_pipes n 0 (deliver reports pipes) t1 u3 in
      let (pipes3, u5) = check_pipes now n 0 pipes2 u4 in (pipes3, t2, u5)
