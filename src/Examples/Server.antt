-- ===== src/Examples/Server.antt =====
-- The server's theorems at concrete inputs: streams of a client that asks for transfers.
use esp_usbip_bridge.Base.{
  ℕ, ◌≡◌, refl, List, [], ◌∷◌, ◌++◌, some, true, false, arith, inl, be32, drop, take, read32,
}
use esp_usbip_bridge.Errno.{failure, Errno}
use esp_usbip_bridge.Protocol.{Header, transfer_buffer_length, number_of_packets}
use esp_usbip_bridge.Socket.{
  read_exact, write_all, discard_exact, read_loop, write_loop, discard_loop,
}
use esp_usbip_bridge.Socket.Laws.{read_exact_total}
use esp_usbip_bridge.Server.Reader.{keep_going, out_len, task_deleted, validate, refuse}
use esp_usbip_bridge.Server.Reply.{ret_submit_header}
use esp_usbip_bridge.Server.Slots.{StreamCtx, fresh_ctx}
use esp_usbip_bridge.Server.Slots.Laws.{fresh_ctx-IsValid}
use esp_usbip_bridge.Server.Stream.{StreamConfig, serve_submit, serve_one, stream_loop}
use esp_usbip_bridge.Server.Stream.Framing.{
  serve_one-framing, serve_submit_refused, forgotten_payload,
}
use esp_usbip_bridge.Server.Stream.Virtual.{virtual_ends_reader}
use esp_usbip_bridge.Examples.World.{
  World, test_socket, test_socket-IsStream, test_socket-IsConnected, test_host, test_host-IsQuiet,
}

-- A submit for device 1-2.
abbrev submit : ℕ → ℕ → ℕ → ℕ → ℕ → Header
submit dir endpoint len packets request_type =
    be32 1
    ++ be32 7
    ++ be32 65538
    ++ be32 dir
    ++ be32 endpoint
    ++ be32 0
    ++ be32 len
    ++ be32 0
    ++ be32 packets
    ++ be32 0
    ++ (request_type ∷ 6 ∷ 0 ∷ 1 ∷ 0 ∷ 0 ∷ 18 ∷ 0 ∷ [])

abbrev config : StreamConfig
config = record {
  max_transfer = 4096;
  imported_busid = [];
  expected_devid = 65538;
  is_virtual = false;
  rounds = 1;
}

abbrev client : List ℕ → World
client bs = record { inbox = bs; outbox = [] }

-- Three bytes for endpoint 2, and the start of the next request.
abbrev bulk_client : World
bulk_client = client (submit 0 2 3 0 0 ++ (1 ∷ 2 ∷ 3 ∷ 9 ∷ []))

serve_one-framing_example :
    (bulk_client.inbox ≡ submit 0 2 3 0 0 ++ drop 48 bulk_client.inbox)
    × ((serve_one (test_host []) config fresh_ctx bulk_client).2.inbox
        ≡ drop 3 (drop 48 bulk_client.inbox))
unfolding read_exact read_loop be32 read32 serve_one esp_usbip_bridge.Server.Stream.serve_request
    serve_submit validate esp_usbip_bridge.Server.Stream.accept_submit
    esp_usbip_bridge.Server.Reader.acquire_slot esp_usbip_bridge.Server.Slots.urb_stream_alloc_slot
    esp_usbip_bridge.Server.Reader.dispatch
serve_one-framing_example =
    serve_one-framing (test_host []) test_socket-IsStream (test_host-IsQuiet []) config fresh_ctx
      bulk_client (submit 0 2 3 0 0) refl (omega arith) (λ f. ground (arith, f)) refl

-- An isochronous OUT request, whose payload is left.
abbrev iso_request : Header
iso_request = submit 0 2 3 5 0

abbrev iso_client : World
iso_client = client (1 ∷ 2 ∷ 3 ∷ [])

iso_packets : number_of_packets iso_request ≡ 5
unfolding read32 be32
iso_packets = refl

serve_submit_refused_example :
    ((serve_submit (test_host []) config iso_request fresh_ctx iso_client).1 ≡ fresh_ctx)
    × ((serve_submit (test_host []) config iso_request fresh_ctx iso_client).2.inbox
        ≡ drop 0 iso_client.inbox)
    × ((serve_submit (test_host []) config iso_request fresh_ctx iso_client).2.outbox
        ≡ [] ++ ret_submit_header iso_request (failure Errno.eopnotsupp) 0)
unfolding validate read32 be32 serve_submit esp_usbip_bridge.Server.Reader.refuse_submit
    discard_exact discard_loop esp_usbip_bridge.Server.Reply.send_ret_submit write_all write_loop
    ret_submit_header
serve_submit_refused_example =
    serve_submit_refused (test_host []) test_socket-IsStream (test_host-IsQuiet []) config
      iso_request Errno.eopnotsupp 0 fresh_ctx iso_client refl refl

forgotten_payload_example :
    (out_len iso_request ≡ transfer_buffer_length iso_request)
    × ((serve_submit (test_host []) config iso_request fresh_ctx iso_client).2.inbox
        ≡ iso_client.inbox)
unfolding read32 be32 serve_submit validate esp_usbip_bridge.Server.Reader.refuse_submit
    discard_exact discard_loop esp_usbip_bridge.Server.Reply.send_ret_submit write_all write_loop
    ret_submit_header
forgotten_payload_example =
    forgotten_payload (test_host []) test_socket-IsStream (test_host-IsQuiet []) config iso_request
      fresh_ctx iso_client
      (inl ((λ e. ground (arith, e, iso_packets)), λ e. ground (arith, e, iso_packets))) refl
      (omega arith) (omega arith) refl refl

abbrev virtual_config : StreamConfig
virtual_config = record config { is_virtual = true }

-- GET_DESCRIPTOR to a virtual device.
abbrev virtual_client : World
virtual_client = client (submit 1 0 18 0 128)

virtual_ends_reader_example :
    (stream_loop (test_host []) virtual_config 4 fresh_ctx virtual_client
      ≡ serve_one (test_host []) virtual_config fresh_ctx virtual_client)
    × ((serve_one (test_host []) virtual_config fresh_ctx virtual_client).0 ≡ task_deleted)
unfolding read_exact read_loop be32 read32 validate
virtual_ends_reader_example =
    virtual_ends_reader (test_host []) virtual_config refl (λ n w. refl) (λ w. refl) 3 fresh_ctx
      virtual_client (submit 1 0 18 0 128) refl refl refl refl fresh_ctx-IsValid (omega arith)

read_exact_total_example :
    ((read_exact test_socket 20 bulk_client).0 ≡ some (take 20 bulk_client.inbox))
    × ((read_exact test_socket 20 bulk_client).1.inbox ≡ drop 20 bulk_client.inbox)
unfolding be32
read_exact_total_example =
    read_exact_total test_socket test_socket-IsStream test_socket-IsConnected 20 bulk_client
      (omega arith)
