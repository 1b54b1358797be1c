-- ===== src/Start.antt =====
-- main/usb_backend.c: the start of the backend, with the power of its bus on one of the boards, and how
-- its callers ask for transfers. `Power` joins the backend's start and the pins' set-up of main/http_server.c.
pub mod Power
use esp_usbip_bridge.Base.{
  ℕ, zero, suc, ◌+◌, ◌≡◌, refl, ap, sym, List, [], ◌∷◌, Option, none, some, Bool, true, false, not,
  length, replicate, if◌then◌else◌, if_ind, arith, subst, length-replicate,
}
use esp_usbip_bridge.Esp.{EspErr, esp_ok, esp_fail, esp_err_no_mem, esp_err_invalid_state, is_ok}
use esp_usbip_bridge.Errno.{Status, success, failure, Errno}
use esp_usbip_bridge.Backend.Pipes.{Pipe}
use esp_usbip_bridge.Backend.Pipes.Pool.{Pool, Request, assigned_count, Reachable, started}
use esp_usbip_bridge.Http.Pins.{PinHost, output}

-- `usb_backend_p4hil_usb_power_init`, for the configured pin of the expanders.
unfoldable pub p4hil_usb_power_init : {W : Type 0} → PinHost W → ℕ → ℕ → W → EspErr × W
p4hil_usb_power_init h exp pin w =
    let (err1, w1) = h.expander_set_dir exp pin output w in
    let (err2, w2) = h.expander_write_pin exp pin true w1 in
    if not (h.expander_is_initialized w)
    then (esp_err_invalid_state, w)
    else if not (is_ok err1)
    then (err1, w1)
    else (err2, w2)

-- What `usb_backend_control_transfer` asks the pool for, or nothing for `-EINVAL`.
unfoldable pub control_request :
    List ℕ → Option (List ℕ) → Option (List ℕ) → ℕ → Option (List ℕ) → ℕ → Bool → Option Request
control_request busid none out_data out_len in_data in_capacity cancel = none
control_request busid (some setup) out_data out_len in_data in_capacity cancel = some (record {
  busid = busid;
  endpoint_addr = 0;
  setup = some setup;
  out_data = out_data;
  out_len = out_len;
  in_data = in_data;
  in_capacity = in_capacity;
  cancel = cancel;
})

-- `usb_backend_bulk_transfer` and `usb_backend_interrupt_transfer`.
unfoldable pub data_request :
    List ℕ → ℕ → Option (List ℕ) → ℕ → Option (List ℕ) → ℕ → Bool → Request
data_request busid endpoint_addr out_data out_len in_data in_capacity cancel = record {
  busid = busid;
  endpoint_addr = endpoint_addr;
  setup = none;
  out_data = out_data;
  out_len = out_len;
  in_data = in_data;
  in_capacity = in_capacity;
  cancel = cancel;
}

-- What the start calls; a creation succeeds or not.
pub record StartHost (W : Type 0) : Type 0 where
  pub board_power_init : W → EspErr × W
  pub create_mutex : W → Bool × W
  pub create_counting : W → Bool × W
  pub create_binary : W → Bool × W
  pub create_queue : W → Bool × W
  pub usb_host_install : W → EspErr × W
  pub create_daemon_task : W → Bool × W
  pub create_backend_task : W → Bool × W

-- A pipe after `memset(&s_state, 0, sizeof(s_state))`.
abbrev pub zero_pipe : Pipe
zero_pipe = record {
  assigned = false;
  active = false;
  submitted = false;
  is_completed = false;
  aborted = false;
  busid = replicate 32 0;
  endpoint_addr = 0;
  setup = replicate 8 0;
  out_data = none;
  out_len = 0;
  in_data = none;
  in_capacity = 0;
  received = 0;
  status_out = success;
  cancel = false;
  done = 0;
  answers = 0;
  xfer = none;
  dev_hdl = 0;
  deadline = 0;
  is_control = false;
  is_in = false;
  payload_len = 0;
}

module _ {W : Type 0} (h : StartHost W) where
  -- The loop over the pipes, with the count of the semaphore: whether all have a semaphore.
  unfoldable pub release_pipes : ℕ → ℕ → W → Bool × ℕ × W
  release_pipes zero avail w = (true, avail, w)
  release_pipes (suc n) avail w =
      let (created, w1) = h.create_binary w in
      let rest = release_pipes n (avail + 1) w1 in if created then rest else (false, avail, w1)

  -- With the number of pipes; the pool that is set up.
  unfoldable pub usb_backend_start : ℕ → W → EspErr × Pool × W
  unfolding release_pipes
  usb_backend_start num_pipes w =
      let (err0, w0) = h.board_power_init w in
      let (mutex, w1) = h.create_mutex w0 in
      let (counting, w2) = h.create_counting w1 in
      let (released, avail, w3) = release_pipes num_pipes 0 w2 in
      let (queue, w4) = h.create_queue w3 in
      let (err5, w5) = h.usb_host_install w4 in
      let (daemon, w6) = h.create_daemon_task w5 in
      let (task, w7) = h.create_backend_task w6 in
      let pool : ℕ → Pool = λ a. record {
        pipes = replicate num_pipes zero_pipe;
        avail = a;
        holding = 0;
        leaving = 0;
      } in
      if not (is_ok err0)
      then (err0, pool 0, w0)
      else if not mutex
      then (esp_err_no_mem, pool 0, w1)
      else if not counting
      then (esp_err_no_mem, pool 0, w2)
      else if not released
      then (esp_err_no_mem, pool avail, w3)
      else if not queue
      then (esp_err_no_mem, pool avail, w4)
      else if not (is_ok err5)
      then (err5, pool avail, w5)
      else if not daemon
      then (esp_fail, pool avail, w6)
      else if not task
      then (esp_fail, pool avail, w7)
      else (esp_ok, pool avail, w7)

  release_pipes-true :
      (n avail : ℕ) (w : W)
      → (release_pipes n avail w).0 ≡ true
      → (release_pipes n avail w).1 ≡ avail + n
  unfolding release_pipes
  release_pipes-true zero avail w ok = omega arith
  release_pipes-true (suc n) avail w ok =
      ground (arith, ok, release_pipes-true n (avail + 1) (h.create_binary w).1)

  zero_pipes_free : (n : ℕ) → assigned_count (replicate n zero_pipe) ≡ 0
  zero_pipes_free zero = refl
  zero_pipes_free (suc n) = zero_pipes_free n

  -- A start that succeeds leaves the pool from which the callers' steps begin: all pipes are free, and the
  -- semaphore counts them.
  pub usb_backend_start-Reachable :
      (n : ℕ) (w : W)
      → (usb_backend_start n w).0 ≡ esp_ok
      → Reachable (replicate n zero_pipe) (usb_backend_start n w).1
  unfolding usb_backend_start
  usb_backend_start-Reachable n w ok =
      let pipes = replicate n zero_pipe in
      let P : EspErr × Pool × W → Type 0 = λ r. r.0 ≡ esp_ok → Reachable pipes r.1 in
      let (err0, w0) = h.board_power_init w in
      let (mutex, w1) = h.create_mutex w0 in
      let (counting, w2) = h.create_counting w1 in
      let (released, avail, w3) = release_pipes n 0 w2 in
      let (queue, w4) = h.create_queue w3 in
      let (err5, w5) = h.usb_host_install w4 in
      let (daemon, w6) = h.create_daemon_task w5 in
      let (task, w7) = h.create_backend_task w6 in
      let pool : ℕ → Pool = λ a. record { pipes = pipes; avail = a; holding = 0; leaving = 0 } in
      let all : released ≡ true → avail ≡ length pipes =
        λ q. omega (arith, release_pipes-true n 0 w2 q, length-replicate n zero_pipe) in
      let begun : Reachable pipes (pool (length pipes)) = started (zero_pipes_free n) in
      if_ind P (not (is_ok err0)) (λ q g. absurd (ground (arith, q, g)))
        (λ _.
          if_ind P (not mutex) (λ q g. absurd (ground (arith, q, g)))
            (λ _.
              if_ind P (not counting) (λ q g. absurd (ground (arith, q, g)))
                (λ _.
                  if_ind P (not released) (λ q g. absurd (ground (arith, q, g)))
                    (λ got.
                      if_ind P (not queue) (λ q g. absurd (ground (arith, q, g)))
                        (λ _.
                          if_ind P (not (is_ok err5)) (λ q g. absurd (ground (arith, q, g)))
                            (λ _.
                              if_ind P (not daemon) (λ q g. absurd (ground (arith, q, g)))
                                (λ _.
                                  if_ind P (not task) (λ q g. absurd (ground (arith, q, g)))
                                    (λ _ _.
                                      subst (λ a. Reachable pipes (pool a))
                                        (sym (all (ground (arith, got)))) begun))))))))
        ok
