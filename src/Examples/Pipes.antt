-- ===== src/Examples/Pipes.antt =====
-- The theorems on the host pipes at a backend with one device and two pipes.
use esp_usbip_bridge.Base.{
  ℕ, suc, ◌+◌, ◌≤◌, ◌<◌, ◌≡◌, ◌≢◌, refl, List, [], ◌∷◌, ◌++◌, Option, none, some, Bool, true, false,
  arith, inl, inr, ◌⊎◌, if◌then◌else◌, ◌&&◌, length, take, replicate, get_elem?, busid_text, padded,
}
use esp_usbip_bridge.Errno.{success}
use esp_usbip_bridge.Esp.{esp_ok}
use esp_usbip_bridge.Device.{zero_device}
use esp_usbip_bridge.Registry.Laws.{busid_key}
use esp_usbip_bridge.Backend.Descriptors.{UsbSpeed}
use esp_usbip_bridge.Backend.Devices.{UsbHost, Table}
use esp_usbip_bridge.Backend.Pipes.{
  TransferStatus, TransferHost, Transfer, Pipe, prepare_and_submit_transfer,
}
use esp_usbip_bridge.Backend.Pipes.Submission.{Prepared, prepare_and_submit_transfer-Prepared}
use esp_usbip_bridge.Backend.Pipes.Completion.{Seen, complete_transfer, complete_transfer_lem}
use esp_usbip_bridge.Backend.Pipes.Task.{EventHost, task_round}
use esp_usbip_bridge.Backend.Pipes.Callers.{CallerStep}
use esp_usbip_bridge.Backend.Pipes.Task.Answers.{is_busy}
use esp_usbip_bridge.Backend.Pipes.Task.Rounds.{task_round_lem}
use esp_usbip_bridge.Backend.Pipes.Pool.{alloc_pipe, Pool, Reachable, take_sem, started, then_step}
use esp_usbip_bridge.Backend.Pipes.Pool.Accounting.{alloc_pipe_succeeds}

abbrev test_usb : UsbHost Unit
test_usb = record {
  device_open = λ a u. (esp_ok, 100 + a, u);
  device_close = λ d u. (esp_ok, u);
  get_device_descriptor = λ d u. (esp_ok, none);
  device_info =
      λ d u. (esp_ok, record { dev_addr = 5; link_speed = UsbSpeed.speed_full; config_value = 1 });
  get_active_config_descriptor = λ d u. (esp_ok, none);
  interface_claim = λ d i u. (esp_ok, u);
  interface_release = λ d i u. (esp_ok, u);
}

abbrev fresh_transfer : Transfer
fresh_transfer = record {
  data_buffer = replicate 64 0;
  device_handle = 0;
  b_endpoint_address = 0;
  num_bytes = 0;
  timeout_ms = 0;
  transfer_status = TransferStatus.other_status;
  actual_num_bytes = 0;
}

abbrev test_lib : TransferHost Unit
test_lib = record {
  parse_interface = λ c i o. (none, o);
  parse_endpoint = λ d i n o. (none, o);
  transfer_alloc = λ n u. (esp_ok, some fresh_transfer, u);
  transfer_submit = λ tr u. (esp_ok, u);
  transfer_submit_control = λ tr u. (esp_ok, u);
  transfer_free = λ tr u. u;
  tick_count = λ u. 100;
  ms_to_ticks = λ ms. ms;
}

-- Every round, the hardware says that the transfer of the first pipe is done, and the first pipe is
-- cancelled between the steps.
abbrev test_events : EventHost Unit
test_events = record {
  handle_events = λ u. (
    record {
      pipe = 0;
      report_status = TransferStatus.completed;
      report_actual = 3;
      report_buffer = 7 ∷ 8 ∷ 9 ∷ [];
    }
        ∷ [],
    u,
  );
  callers = λ u. (CallerStep.set_cancel 0 ∷ CallerStep.take_pipe ∷ [], u);
  queued_events = λ u. ([], u);
  endpoint_halt = λ d e u. u;
  endpoint_flush = λ d e u. u;
  endpoint_clear = λ d e u. u;
}

abbrev table : Table
table =
    record {
      in_use = true;
      interfaces_claimed = false;
      dev_hdl = 101;
      device = record zero_device { busnum = 1; devnum = 5; busid = padded 32 (busid_text 1 5) };
    }
    ∷ []

abbrev idle_pipe : Pipe
idle_pipe = record {
  assigned = false;
  active = false;
  submitted = false;
  is_completed = false;
  aborted = false;
  busid = [];
  endpoint_addr = 0;
  setup = [];
  out_data = none;
  out_len = 0;
  in_data = none;
  in_capacity = 0;
  received = 0;
  status_out = success;
  cancel = false;
  done = 0;
  answers = 0;
  xfer = none;
  dev_hdl = 0;
  deadline = 0;
  is_control = false;
  is_in = false;
  payload_len = 0;
}

-- A read of eight bytes from endpoint 1, which waits for its submission.
abbrev waiting_pipe : Pipe
waiting_pipe = record idle_pipe {
  assigned = true;
  active = true;
  busid = busid_key 1 5;
  endpoint_addr = 129;
  in_data = some (replicate 8 0);
  in_capacity = 8;
}

-- The same read, of which three bytes have arrived.
abbrev read_transfer : Transfer
read_transfer = record fresh_transfer {
  data_buffer = 7 ∷ 8 ∷ 9 ∷ [];
  transfer_status = TransferStatus.completed;
  actual_num_bytes = 3;
}

abbrev read_pipe : Pipe
read_pipe = record waiting_pipe {
  submitted = true;
  is_completed = true;
  is_in = true;
  payload_len = 8;
  xfer = some read_transfer;
}

prepare_and_submit_transfer_example :
    let (status, p', _, _) =
      prepare_and_submit_transfer test_usb test_lib 4096 waiting_pipe table tt in
    Prepared 4096 waiting_pipe status p'
prepare_and_submit_transfer_example =
    prepare_and_submit_transfer-Prepared test_usb test_lib 4096 waiting_pipe table tt

complete_transfer_example :
    let (status, p', _) = complete_transfer test_lib read_pipe tt in
    Seen read_pipe read_transfer (replicate 8 0) status p' × (p'.xfer ≡ none)
complete_transfer_example =
    complete_transfer_lem test_lib read_pipe tt read_transfer (replicate 8 0) refl refl refl
      (omega arith)

abbrev pipes : List Pipe
pipes = read_pipe ∷ waiting_pipe ∷ []

-- The second pipe after a round.
abbrev started_pipe : Pipe
started_pipe =
    elim (get_elem? (task_round test_usb test_lib test_events 4096 2 pipes table tt).0 1) [
      | none ↦ idle_pipe
      | some p ↦ p
    ]

task_round_example :
    (((started_pipe.submitted ≡ true)
        × (100 < started_pipe.deadline)
        × ((waiting_pipe.submitted && waiting_pipe.cancel) ≡ false))
      ⊎ (started_pipe.submitted ≡ false))
    × ((is_busy waiting_pipe ≡ false)
        ⊎ (started_pipe.answers ≡ (if started_pipe.submitted then 0 else 1)))
unfolding task_round esp_usbip_bridge.Registry.busid_matches_key esp_usbip_bridge.Base.bytes_eq
    padded busid_text esp_usbip_bridge.Base.decimal esp_usbip_bridge.Base.c_string
task_round_example =
    task_round_lem test_usb test_lib test_events 4096 2 pipes table tt 1 waiting_pipe started_pipe
      (omega arith) refl refl

abbrev free_pipes : List Pipe
free_pipes = idle_pipe ∷ idle_pipe ∷ []

-- The pool after one caller took the semaphore.
abbrev one_caller : Pool
one_caller = record { pipes = free_pipes; avail = 1; holding = 1; leaving = 0 }

one_caller-Reachable : Reachable free_pipes one_caller
one_caller-Reachable = then_step table (started refl) (take_sem 1 refl)

alloc_pipe_succeeds_example :
    (i : ℕ) × (p : Pipe) × ((alloc_pipe free_pipes).0 ≡ some i)
    × (get_elem? free_pipes i ≡ some p)
    × (p.assigned ≡ false)
alloc_pipe_succeeds_example =
    alloc_pipe_succeeds free_pipes one_caller one_caller-Reachable (omega arith)
