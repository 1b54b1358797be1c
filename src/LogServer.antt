-- ===== src/LogServer.antt =====
-- main/log_server.c: the server that sends every log line to the connected clients as a syslog message.
-- `Frame` is what the hook puts into the queue, `Clients` what the task does with it.
pub mod Frame
pub mod Clients
use esp_usbip_bridge.Base.{
  ℕ, zero, suc, ◌-◌, ◌+◌, ◌/◌, ◌%◌, ◌*◌, List, [], ◌∷◌, ◌++◌, Option, none, some, Bool, true, false,
  not, ◌&&◌, ◌||◌, length, take, set, get_or, ltb, leb, ◌==◌, if◌then◌else◌, codes, c_string,
  decimal, zero_padded, byte_at, is_some,
}
use esp_usbip_bridge.Esp.{EspErr, esp_ok, esp_fail, esp_err_no_mem}

abbrev pub log_server_max_clients : ℕ
log_server_max_clients = 4

abbrev pub log_server_queue_depth : ℕ
log_server_queue_depth = 64

abbrev pub log_server_msg_size : ℕ
log_server_msg_size = 512

unfoldable pub esp_level_to_syslog_severity : ℕ → ℕ
esp_level_to_syslog_severity c =
    if c == b'E'
    then 3
    else if c == b'W'
    then 4
    else if c == b'I'
    then 6
    else if c == b'D'
    then 7
    else if c == b'V'
    then 7
    else 6

abbrev pub is_newline : ℕ → Bool
is_newline c = c == 10 || c == 13

-- `while (raw_len > 0 && ...) raw[--raw_len] = '\0'`: the length that is left.
unfoldable pub stripped_length : ℕ → List ℕ → ℕ
stripped_length zero raw = zero
stripped_length (suc n) raw =
    let shorter = stripped_length n raw in if is_newline (byte_at raw n) then shorter else suc n

unfoldable pub strip_newlines : List ℕ → List ℕ
unfolding stripped_length
strip_newlines raw = take (stripped_length (length raw) raw) raw

-- The RFC 5424 message of a text, with a timestamp from the uptime in microseconds, which is below
-- 2^31 seconds.
unfoldable pub syslog_text : ℕ → List ℕ → List ℕ
unfolding esp_level_to_syslog_severity
syslog_text us raw =
    let secs = us / 1_000_000 in
    let frac = us % 1_000_000 / 1000 in
    codes "<"
    ++ (decimal (8 + esp_level_to_syslog_severity (byte_at raw 0))
        ++ (codes ">1 2000-01-01T"
            ++ (zero_padded 2 (secs / 3600 % 24)
                ++ (codes ":"
                    ++ (zero_padded 2 (secs / 60 % 60)
                        ++ (codes ":"
                            ++ (zero_padded 2 (secs % 60)
                                ++ (codes "."
                                    ++ (zero_padded 3 frac
                                        ++ (codes "Z esp32 esp - - - "
                                            ++ (c_string raw ++ (10 ∷ []))))))))))))

-- The octet count and the message, where the two fit into a message of the queue.
unfoldable pub frame : List ℕ → Option (List ℕ)
frame text =
    let octets = decimal (length text) ++ (32 ∷ []) in
    if leb log_server_msg_size (length text)
    then none
    else if leb log_server_msg_size (length octets + length text)
    then none
    else some (octets ++ text)

-- What `vsnprintf` left of the formatted line in `raw`, without its newlines.
unfoldable pub raw_text : List ℕ → List ℕ
unfolding strip_newlines
raw_text line = strip_newlines (take (log_server_msg_size - 1) line)

-- The message for a formatted line, or `none` where the hook returns without one.
unfoldable pub log_message : ℕ → List ℕ → Option (List ℕ)
unfolding frame raw_text syslog_text
log_message us line =
    let raw = raw_text line in if length raw == 0 then none else frame (syslog_text us raw)

-- `s_log_queue`, which is NULL before the start, and the clients, `s_clients` up to `s_client_count`.
pub record LogServer : Type 0 where
  pub queue : Option (List (List ℕ))
  pub clients : List ℕ

-- `xQueueSend` without a wait: a message that finds the queue full is dropped.
unfoldable pub queue_send : List ℕ → List (List ℕ) → List (List ℕ)
queue_send msg q = if ltb (length q) log_server_queue_depth then q ++ (msg ∷ []) else q

-- What the rest of the system does for the log server.
pub record LogHost (W : Type 0) : Type 0 where
  -- `s_orig_vprintf`, on the formatted line.
  pub print : List ℕ → W → W
  pub esp_timer_get_time : W → ℕ
  pub accept : W → Option ℕ × W
  -- `send` of a message to a client: whether the result was not negative.
  pub send : ℕ → List ℕ → W → Bool × W
  pub close : ℕ → W → W
  pub queue_create : W → Bool × W
  pub set_vprintf : Bool → W → W
  pub task_create : W → Bool × W
  pub queue_delete : W → W

module _ {W : Type 0} (h : LogHost W) where
  unfoldable pub log_vprintf_hook : List ℕ → LogServer → W → LogServer × W
  unfolding log_message queue_send
  log_vprintf_hook line s w =
      let w1 = h.print line w in
      elim s.queue [
        | none ↦ (s, w1)
        | some q ↦ elim (log_message (h.esp_timer_get_time w1) line) [
          | none ↦ (s, w1)
          | some msg ↦ (record s { queue = some (queue_send msg q) }, w1)
        ]
      ]

  -- The last client takes the place of the one that is removed.
  unfoldable pub remove_client : ℕ → List ℕ → W → List ℕ × W
  remove_client index clients w =
      let count = length clients - 1 in
      (take count (set clients index (get_or clients count 0)), h.close (get_or clients index 0) w)

  -- `for (int i = s_client_count - 1; i >= 0; i--)`, at `i + 1`.
  unfoldable pub send_to_clients : ℕ → List ℕ → List ℕ → W → List ℕ × W
  unfolding remove_client
  send_to_clients zero msg clients w = (clients, w)
  send_to_clients (suc i) msg clients w =
      let (sent, w1) = h.send (get_or clients i 0) msg w in
      let (clients', w2) = if sent then (clients, w1) else remove_client i clients w1 in
      send_to_clients i msg clients' w2

  -- The messages that `xQueueReceive` hands out until it times out.
  unfoldable pub drain : List (List ℕ) → List ℕ → W → List ℕ × W
  unfolding send_to_clients
  drain [] clients w = (clients, w)
  drain (msg ∷ msgs) clients w =
      let (clients', w1) = send_to_clients (length clients) msg clients w in drain msgs clients' w1

  unfoldable pub accept_client : List ℕ → W → List ℕ × W
  accept_client clients w =
      let (fd, w1) = h.accept w in
      if ltb (length clients) log_server_max_clients
      then elim fd [ none ↦ (clients, w1) | some c ↦ (clients ++ (c ∷ []), w1) ]
      else (clients, w)

  -- One round of the task's `while (true)`, which takes the given messages off the queue.
  unfoldable pub log_server_round : List (List ℕ) → List ℕ → W → List ℕ × W
  unfolding accept_client drain
  log_server_round msgs clients w =
      let (clients', w1) = accept_client clients w in drain msgs clients' w1

  -- `set_vprintf true` puts the hook in, `set_vprintf false` the original back.
  unfoldable pub log_server_start : LogServer → W → EspErr × LogServer × W
  log_server_start s w =
      let (created, w1) = h.queue_create w in
      let w2 = h.set_vprintf true w1 in
      let (started, w3) = h.task_create w2 in
      if not created
      then (esp_err_no_mem, record { queue = none; clients = [] }, w1)
      else if not started
      then (
        esp_fail,
        record { queue = none; clients = [] },
        h.queue_delete (h.set_vprintf false w3),
      )
      else (esp_ok, record { queue = some []; clients = [] }, w3)
