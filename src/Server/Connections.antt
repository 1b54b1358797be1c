-- ===== src/Server/Connections.antt =====
-- main/usbip_server.c: the task that accepts connections, `client_task`, and the number of connections
-- that they count, as the steps of any number of clients. What is tested for logging only is left out.
use esp_usbip_bridge.Base.{ℕ, ◌-◌, ◌+◌, ◌≤◌, ◌≡◌, Bool, arith, if◌then◌else◌}

-- `active_connections`, and the connections by what is happening to them.
pub record Connections : Type 0 where
  pub active : ℕ
  -- The accepting task holds a connection that no task serves yet.
  pub accepting : ℕ
  -- Tasks in `handle_client`.
  pub serving : ℕ
  -- Tasks that have closed their socket, and are about to count down.
  pub leaving : ℕ
  -- Connections whose task was deleted inside `handle_client`.
  pub lost : ℕ
  pub open_sockets : ℕ

abbrev pub no_connections : Connections
no_connections = record {
  active = 0;
  accepting = 0;
  serving = 0;
  leaving = 0;
  lost = 0;
  open_sockets = 0;
}

-- `accept` has returned a socket: `atomic_fetch_add(&active_connections, 1)`.
unfoldable pub accept_connection : Connections → Connections
accept_connection c = record c {
  active = c.active + 1;
  accepting = 1;
  open_sockets = c.open_sockets + 1;
}

-- The context of the client and its task: without one of them the connection is dropped.
unfoldable pub launch_client : Bool → Bool → Connections → Connections
launch_client allocated created c =
    let dropped = record c {
      active = c.active - 1;
      accepting = 0;
      open_sockets = c.open_sockets - 1;
    } in
    let served = record c { accepting = 0; serving = c.serving + 1 } in
    if allocated then (if created then served else dropped) else dropped

-- `handle_client` has returned: `close(fd)`.
unfoldable pub close_client : Connections → Connections
close_client c = record c {
  serving = c.serving - 1;
  leaving = c.leaving + 1;
  open_sockets = c.open_sockets - 1;
}

-- `atomic_fetch_sub(&active_connections, 1)`, and the end of the task.
unfoldable pub leave_client : Connections → Connections
leave_client c = record c { active = c.active - 1; leaving = c.leaving - 1 }

-- The task is deleted by the worker of a virtual device, which it runs itself.
unfoldable pub lose_client : Connections → Connections
lose_client c = record c { serving = c.serving - 1; lost = c.lost + 1 }

pub data Step (c : Connections) : Connections → Type 0 where
  accepted : c.accepting ≡ 0 → Step c (accept_connection c)
  launched :
      (allocated created : Bool) → c.accepting ≡ 1 → Step c (launch_client allocated created c)
  closed : 1 ≤ c.serving → Step c (close_client c)
  left : 1 ≤ c.leaving → Step c (leave_client c)
  deleted : 1 ≤ c.serving → Step c (lose_client c)

pub data Reachable : Connections → Type 0 where
  started : Reachable no_connections
  then_step : {c d : Connections} → Reachable c → Step c d → Reachable d

-- Each connection is counted, and those whose task was deleted for good.
pub record IsCounted (c : Connections) : Type 0 where
  pub counted : c.active ≡ c.accepting + c.serving + c.leaving + c.lost
  pub sockets : c.open_sockets ≡ c.accepting + c.serving + c.lost
  pub one : c.accepting ≤ 1

Step-IsCounted : {c d : Connections} → Step c d → IsCounted c → IsCounted d
unfolding accept_connection launch_client close_client leave_client lose_client
Step-IsCounted (accepted idle) v = ground arith
Step-IsCounted (launched allocated created held) v = ground arith
Step-IsCounted (closed some_task) v = ground arith
Step-IsCounted (left some_task) v = ground arith
Step-IsCounted (deleted some_task) v = ground arith

-- In whatever order clients connect, their tasks start, fail to start, end or are deleted:
-- `active_connections` is the number of connections that are being accepted, are served, are closed
-- but still to be counted down, or have lost their task; the open sockets are those of all but the
-- closed ones.
pub Reachable-IsCounted : {c : Connections} → Reachable c → IsCounted c
Reachable-IsCounted started = ground arith
Reachable-IsCounted (then_step r s) = Step-IsCounted s (Reachable-IsCounted r)
