-- ===== src/Examples/LogServer.antt =====
-- The theorems on the log server at a short line, and at three clients of which one is gone; and the
-- theorem on the connections of the server at a connection that ends.
use mathlib.Core.List.{Perm}
use esp_usbip_bridge.Base.{
  ℕ, zero, suc, ◌+◌, ◌≡◌, ◌<◌, ◌==◌, not, refl, List, [], ◌∷◌, ◌++◌, Option, none, some, Bool, true,
  false, arith, codes, length,
}
use esp_usbip_bridge.LogServer.{LogHost, log_message, syslog_text, raw_text, send_to_clients}
use esp_usbip_bridge.LogServer.Frame.{read_frame, log_message-frame}
use esp_usbip_bridge.LogServer.Clients.{reversed, offer, send_to_clients_lem}
use esp_usbip_bridge.Server.Connections.{
  Connections, no_connections, accept_connection, launch_client, close_client, Step, Reachable,
  IsCounted, Reachable-IsCounted,
}

abbrev test_line : List ℕ
test_line = codes "I (1) up" ++ (10 ∷ [])

abbrev test_msg : List ℕ
test_msg = codes "56 <14>1 2000-01-01T00:00:00.000Z esp32 esp - - - I (1) up" ++ (10 ∷ [])

log_message-frame_example :
    (length test_msg < 512)
    × (read_frame (test_msg ++ test_msg) ≡ some (syslog_text 0 (raw_text test_line), test_msg))
unfolding log_message esp_usbip_bridge.Base.decimal esp_usbip_bridge.Base.zero_padded
    esp_usbip_bridge.Base.c_string
log_message-frame_example = log_message-frame 0 test_line test_msg test_msg refl

-- Client 5 is gone. What was done is a list of the clients that were sent to.
abbrev test_clients : LogHost (List ℕ)
test_clients = record {
  print = λ line w. w;
  esp_timer_get_time = λ w. 0;
  accept = λ w. (none, w);
  send = λ c msg w. (not (c == 5), c ∷ w);
  close = λ c w. w;
  queue_create = λ w. (true, w);
  set_vprintf = λ b w. w;
  task_create = λ w. (true, w);
  queue_delete = λ w. w;
}

send_to_clients_example :
    let (left, w') = send_to_clients test_clients 3 (codes "x") (4 ∷ 5 ∷ 6 ∷ []) [] in
    let (kept, w'') = offer test_clients (codes "x") (6 ∷ 5 ∷ 4 ∷ []) [] in
    (w' ≡ w'') × Perm left kept
unfolding reversed
send_to_clients_example = send_to_clients_lem test_clients (4 ∷ 5 ∷ 6 ∷ []) (codes "x") []

abbrev served : Connections
served = launch_client true true (accept_connection no_connections)

served-Reachable : Reachable (close_client served)
unfolding accept_connection launch_client
served-Reachable =
    Reachable.then_step
      (Reachable.then_step (Reachable.then_step Reachable.started (Step.accepted refl))
        (Step.launched true true refl))
      (Step.closed (omega arith))

Reachable-IsCounted_example : IsCounted (close_client served)
Reachable-IsCounted_example = Reachable-IsCounted served-Reachable
