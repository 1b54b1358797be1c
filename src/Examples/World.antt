-- ===== src/Examples/World.antt =====
-- A socket over two byte lists that delivers at most seven bytes at a time and takes at most nine,
-- with an allocator and a scheduler that never fail, and a backend with no device.
use esp_usbip_bridge.Base.{
  ℕ, zero, suc, ◌≤◌, ◌≡◌, ◌≢◌, refl, min, List, [], ◌∷◌, ◌++◌, Option, none, some, true, false,
  length, take, drop, take-append-drop, length-take, arith,
}
use esp_usbip_bridge.Errno.{success}
use esp_usbip_bridge.Socket.{Socket, IsStream, IsConnected}
use esp_usbip_bridge.Server.Host.{Host, Backend, IsQuiet, VirtualOps}
use esp_usbip_bridge.Registry.{Registry}

pub record World : Type 0 where
  pub inbox : List ℕ
  pub outbox : List ℕ

abbrev pub deliver : ℕ → List ℕ → Option (List ℕ) × List ℕ
deliver zero bs = (none, bs)
deliver (suc n) [] = (none, [])
deliver (suc n) (b ∷ bs) = (some (b ∷ take (min n 6) bs), drop (min n 6) bs)

abbrev pub test_recv : ℕ → World → Option (List ℕ) × World
test_recv n w = let (got, rest) = deliver n w.inbox in (got, record w { inbox = rest })

abbrev pub test_send : List ℕ → World → Option ℕ × World
test_send [] w = (none, w)
test_send (b ∷ bs) w = (
  some (suc (min 8 (length bs))),
  record w { outbox = w.outbox ++ (b ∷ take (min 8 (length bs)) bs) },
)

abbrev pub test_socket : Socket World
test_socket = record {
  recv = test_recv;
  send = test_send;
  pending = λ w. w.inbox;
  sent = λ w. w.outbox;
}

deliver-some :
    (n : ℕ) (xs bs : List ℕ)
    → (deliver n xs).0 ≡ some bs
    → (1 ≤ length bs) × (length bs ≤ n) × (xs ≡ bs ++ (deliver n xs).1)
deliver-some zero xs bs h = ground arith
deliver-some (suc n) [] bs h = ground arith
deliver-some (suc n) (x ∷ xs) bs h =
    ground (arith, take-append-drop (min n 6) xs, length-take (min n 6) xs)

test_send-some :
    (bs : List ℕ) (w : World) (n : ℕ)
    → (test_send bs w).0 ≡ some n
    → (1 ≤ n)
      × (n ≤ length bs)
      × ((test_send bs w).1.outbox ≡ w.outbox ++ take n bs)
      × ((test_send bs w).1.inbox ≡ w.inbox)
test_send-some [] w n h = ground arith
test_send-some (b ∷ bs) w n h = ground arith

test_send-none :
    (bs : List ℕ) (w : World)
    → (test_send bs w).0 ≡ none
    → ((test_send bs w).1.outbox ≡ w.outbox) × ((test_send bs w).1.inbox ≡ w.inbox)
test_send-none [] w h = (refl, refl)
test_send-none (b ∷ bs) w h = ground arith

pub test_socket-IsStream : IsStream test_socket
test_socket-IsStream = record {
  recv_some = λ n w bs h. let got = deliver-some n w.inbox bs h in (got.0, got.1, got.2, refl);
  recv_none = λ n w h. refl;
  send_some = test_send-some;
  send_none = test_send-none;
}

deliver_ready : (n : ℕ) (xs : List ℕ) → xs ≢ [] → (deliver (suc n) xs).0 ≢ none
deliver_ready n [] h = absurd (h refl)
deliver_ready n (x ∷ xs) h = ground arith

pub test_socket-IsConnected : IsConnected test_socket
test_socket-IsConnected = record {
  recv_ready = λ n w h. deliver_ready n w.inbox h;
  send_ready = λ b bs w. ground arith;
}

abbrev pub test_ops : VirtualOps World
test_ops = record {
  control_transfer = λ s out cap w. (success, take cap (1 ∷ 2 ∷ 3 ∷ []), w);
  data_transfer = λ a out cap w. (success, [], w);
}

abbrev pub test_backend : Backend World
test_backend = record {
  control_transfer = λ b s o cap i w. (success, take cap (9 ∷ 8 ∷ 7 ∷ []), w);
  bulk_transfer = λ b a o cap i w. (success, [], w);
  interrupt_transfer = λ b a o cap i w. (success, [], w);
  is_interrupt_endpoint = λ b e d w. false;
  get_devices = λ n w. [];
  get_device_by_busid = λ b w. none;
}

-- The host with the given virtual devices.
abbrev pub test_host : Registry (VirtualOps World) → Host World
test_host r = record {
  sock = test_socket;
  malloc = λ n w. (true, w);
  calloc_item = λ w. (true, w);
  calloc_stream = λ w. (true, w);
  task_create = λ i w. (true, w);
  delay = λ w. ([], w);
  registry = λ w. r;
  backend = test_backend;
}

pub test_host-IsQuiet : (r : Registry (VirtualOps World)) → IsQuiet (test_host r)
test_host-IsQuiet r = record {
  malloc_pending = λ n w. refl;
  malloc_sent = λ n w. refl;
  calloc_pending = λ w. refl;
  calloc_sent = λ w. refl;
  stream_pending = λ w. refl;
  stream_sent = λ w. refl;
  task_pending = λ i w. refl;
  delay_pending = λ w. refl;
}
