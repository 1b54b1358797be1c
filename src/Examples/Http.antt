-- ===== src/Examples/Http.antt =====
-- The theorems on the web server at a small site.
use esp_usbip_bridge.Base.{
  ℕ, zero, suc, ◌+◌, ◌-◌, ◌≤◌, ◌<◌, ◌≡◌, ◌≢◌, ◌↔◌, ◌⊎◌, refl, ap, List, [], ◌∷◌, ◌++◌, Option, none,
  some, Bool, true, false, arith, codes, length, take, drop, min, if◌then◌else◌, bytes_eq,
  append_assoc, replicate, NoNul, ltb, ◌&&◌, ◌==◌, if_ind, ap₂, take-append-drop, length-take,
}
use esp_usbip_bridge.Esp.{esp_ok, is_ok}
use esp_usbip_bridge.Http.Host.{HttpHost, send_text, http_500}
use esp_usbip_bridge.Naming.{Nvs}
use esp_usbip_bridge.Naming.{set_hostname}
use esp_usbip_bridge.Http.{SendResult, HttpSocket, IsHttpSocket, IsLive}
use esp_usbip_bridge.Http.Stream.{stream_header}
use esp_usbip_bridge.Http.Stream.Chunks.{decode}
use esp_usbip_bridge.Http.Stream.Response.{Piece, text, bytes, respond, respond_lem, respond-live}
use esp_usbip_bridge.Http.Escape.{html_escape_attr, unescape, AllSafe, html_escape_attr-AllSafe}
use esp_usbip_bridge.Http.Pins.{Pins, native, output}
use esp_usbip_bridge.Http.PinTable.{init_pins}
use esp_usbip_bridge.Http.PinTable.Power.{init_pins_power}
use esp_usbip_bridge.Http.Config.{
  head_text, wire_text, json_type, handle_get_config, handle_post_config,
}
use esp_usbip_bridge.Http.Config.Document.{Wire, document}
use esp_usbip_bridge.Http.Config.Export.{Fits, AllFit, exported_wires, handle_get_config-document}
use esp_usbip_bridge.Http.Config.Restore.{restored, handle_post_config-document}
use esp_usbip_bridge.Http.Lists.{build_pins_json, pin_rows}
use esp_usbip_bridge.Http.Lists.Written.{
  Holds, pins_document, build_pins_json-Holds, build_pins_json-take,
}
use esp_usbip_bridge.Http.Requests.{Reader, ReadResult, blank_line, read_body}
use esp_usbip_bridge.Http.Requests.Laws.{IsReader, body_truncated}
use esp_usbip_bridge.Http.Handlers.{drive_pin, post_hostname}
use esp_usbip_bridge.Http.Handlers.Drive.{drive_pin_lem}
use esp_usbip_bridge.Http.Handlers.Names.{hostname_body, set_text, post_hostname-value}
use esp_usbip_bridge.Naming.{key_hostname}
use esp_usbip_bridge.Naming.Stored.{held}
use esp_usbip_bridge.Discovery.{discovery_service_notify_config_changed}
use esp_usbip_bridge.Examples.Naming.{Flash, test_nvs, test_nvs-IsStore, blank}
use esp_usbip_bridge.Examples.Site.{
  Site, site, site_socket, site_socket-IsHttpSocket, site_socket-IsLive, site_pins, sizes,
  site_pins-IsGpio, site_pins-IsPowerLine, site_host, site_config, pin_t1, site_state,
}

abbrev sample_pieces : List Piece
sample_pieces = text (codes "<p>") ∷ bytes (codes "hello") ∷ []

respond_example :
    let (s, w') = respond site_socket 0 (codes "text/html") sample_pieces site in
    (body : List ℕ) × (w'.out ≡ stream_header (codes "text/html") ++ body)
    × (decode body ≡ some (codes "<p>hello", []))
unfolding esp_usbip_bridge.Http.Stream.printed esp_usbip_bridge.Base.c_string respond
    esp_usbip_bridge.Http.Stream.stream_end esp_usbip_bridge.Http.send_all
    esp_usbip_bridge.Http.Stream.stream_write esp_usbip_bridge.Http.Stream.stream_printf
    esp_usbip_bridge.Http.Stream.stream_begin esp_usbip_bridge.Base.hex_number
respond_example =
    respond_lem site_socket site_socket-IsHttpSocket 0 (codes "text/html") sample_pieces site
      (omega arith, (omega arith, tt)) refl

respond-live_example : (respond site_socket 0 (codes "text/html") sample_pieces site).0.err ≡ 0
respond-live_example =
    respond-live site_socket site_socket-IsHttpSocket site_socket-IsLive 0 (codes "text/html")
      sample_pieces site

html_escape_attr-AllSafe_example :
    let out = html_escape_attr (codes "a<b") 9 in
    (length out < 9) × AllSafe out × ((k : ℕ) × (unescape 0 out ≡ take k (codes "a<b")))
html_escape_attr-AllSafe_example = html_escape_attr-AllSafe (codes "a<b") 9 (omega arith)

init_pins_power_example :
    (init_pins site_pins sizes ((codes "T1", native 7) ∷ []) site).1.power ≡ output
init_pins_power_example =
    init_pins_power site_pins (λ w. w.power) site_pins-IsPowerLine sizes
      ((codes "T1", native 7) ∷ []) site

drive_pin_example :
    let (pin', w') = drive_pin site_host site_config false (codes "out") (some 1) pin_t1 site in
    (pin'.dir ≡ output) × (w'.mode 7 ≡ output) × (w'.latch 7 ≡ 1)
unfolding bytes_eq
drive_pin_example =
    drive_pin_lem site_host site_config (λ n w. w.mode n) (λ n w. w.latch n) site_pins-IsGpio false
      (codes "out") 7 1 pin_t1 site refl (λ d u. refl)

-- A server over a storage that keeps what it is given, with a peer that takes everything.
abbrev flash_host : HttpHost Flash
flash_host = record {
  sock = record { send = λ bs u. (SendResult.taken (length bs), u); sent = λ u. [] };
  pin_host = record {
    gpio_get_level = λ n u. 0;
    gpio_config = λ n d u. (esp_ok, u);
    gpio_set_level = λ n v u. u;
    expander_is_initialized = λ u. false;
    expander_read_pin = λ e p u. none;
    expander_set_dir = λ e p d u. (esp_ok, u);
    expander_write_pin = λ e p v u. (esp_ok, u);
    expander_get_dir_all = λ e u. none;
  };
  nvs = test_nvs;
  mdns = record {
    init = λ u. (esp_ok, u);
    hostname_set = λ s u. (esp_ok, u);
    instance_name_set = λ s u. (esp_ok, u);
    service_add = λ items u. (esp_ok, u);
    service_txt_set = λ items u. (esp_ok, u);
    task_create = λ u. (true, u);
  };
  dut_get_wire = λ label u. none;
  dut_set_wire = λ label wire u. (esp_ok, u);
  neopixel_show_white_10s = λ u. u;
}

post_hostname-value_example :
    let (err, w1) = set_hostname test_nvs (some (codes "bench")) blank in
    let (_, discovery, w2) =
      discovery_service_notify_config_changed flash_host.mdns test_nvs
        (codes "esp32s3")
        site_state.discovery
        w1 in
    let result =
      post_hostname flash_host site_config (hostname_body (codes "bench")) site_state blank in
    ((is_ok err ≡ true)
      × (w1 key_hostname ≡ held (codes "bench"))
      × (result ≡ (
        record site_state { discovery = discovery },
        send_text flash_host site_config (set_text (codes "bench")) w2,
      )))
    ⊎ ((is_ok err ≡ false) × (result ≡ (site_state, http_500 flash_host site_config w1)))
post_hostname-value_example =
    post_hostname-value flash_host site_config (λ u. u) test_nvs-IsStore (codes "bench") site_state
      blank (refl, (refl, (refl, (refl, (refl, tt)))))

-- `{"pin":"T1","wire":"clk"}`.
abbrev one_wire : List ℕ
one_wire = codes "{\"pin\":\"T1\",\"wire\":\"clk\"}"

-- A connection whose bytes are there already.
abbrev sent_already : Reader (List ℕ)
sent_already = record {
  read = λ n bytes.
      if ltb 0 (length (take n bytes))
      then (ReadResult.got (take n bytes), drop n bytes)
      else (ReadResult.eof, bytes);
  malloc = λ n bytes. (true, bytes);
  leftover = λ bytes. [];
}

got_lem : (xs ys : List ℕ) → ReadResult.got xs ≡ ReadResult.got ys → xs ≡ ys
got_lem xs ys e = ground (arith, e)

sent_already-IsReader : IsReader sent_already
sent_already-IsReader = record {
  some_bytes = λ n bytes bs e.
      if_ind
        (λ (r : ReadResult × List ℕ). r.0 ≡ ReadResult.got bs → (1 ≤ length bs) × (length bs ≤ n))
        (ltb 0 (length (take n bytes)))
        (λ some_byte q.
          rw (← got_lem (take n bytes) bs q) (ground (arith, some_byte, length-take n bytes)))
        (λ _ q. absurd (ground (arith, q))) e;
}

body_truncated_example :
    length (read_body sent_already (codes "GET" ++ blank_line) [] 600 (replicate 600 65)).0 < 600
body_truncated_example =
    body_truncated sent_already sent_already-IsReader (codes "GET" ++ blank_line) [] 600
      (replicate 600 65) (omega arith)

abbrev wires : List Wire
wires = (codes "T1", codes "clk") ∷ []

handle_post_config-document_example :
    handle_post_config site_host site_config
      (document (codes "bench") [] (codes "devkit") wires)
      site_state
      site
    ≡ restored site_host site_config (codes "bench") [] wires site_state site
handle_post_config-document_example =
    handle_post_config-document site_host site_config (codes "bench") [] (codes "devkit") wires
      site_state site (refl, (refl, (refl, (refl, (refl, tt))))) tt
      (refl, (refl, (refl, (refl, (refl, (refl, tt)))))) (omega arith) (omega arith) (omega arith)
      (λ e. ground (arith, e)) (λ e. ground (arith, e)) (λ e. ground (arith, e))
      (λ e. ground (arith, e))
      ((refl, (refl, tt)), ((refl, (refl, (refl, tt))), (λ e. ground (arith, e), tt)))

quiet_send :
    (bs l : List ℕ) (w : Site)
    → site_host.dut_get_wire l (site_socket.send bs w).1 ≡ site_host.dut_get_wire l w
quiet_send bs l w = refl

no_nul : List ℕ → Bool
no_nul [] = true
no_nul (x ∷ xs) = ltb 0 x && no_nul xs

no_nul-NoNul : (s : List ℕ) → no_nul s ≡ true → NoNul s
unfolding no_nul
no_nul-NoNul [] e = tt
no_nul-NoNul (x ∷ xs) e = (ground (arith, e), no_nul-NoNul xs (ground (arith, e)))

head-Fits : Fits (head_text (codes "bench") [] (codes "devkit"))
unfolding no_nul head_text esp_usbip_bridge.Base.decimal
head-Fits = (
  no_nul-NoNul (head_text (codes "bench") [] (codes "devkit")) refl,
  unfold head_text in omega arith,
)

wire_fits : AllFit true wires
unfolding no_nul wire_text
wire_fits = (
  (no_nul-NoNul (wire_text true (codes "T1") (codes "clk")) refl, unfold wire_text in omega arith),
  tt,
)

config_sent : (handle_get_config site_host site_config site_state site).0.err ≡ 0
unfolding handle_get_config esp_usbip_bridge.Http.Stream.stream_end esp_usbip_bridge.Http.send_all
    esp_usbip_bridge.Http.Stream.stream_write bytes_eq esp_usbip_bridge.Http.Stream.stream_printf
    esp_usbip_bridge.Base.c_string esp_usbip_bridge.Base.decimal
    esp_usbip_bridge.Naming.get_hostname esp_usbip_bridge.Naming.get_board_id
    esp_usbip_bridge.Http.Stream.stream_begin esp_usbip_bridge.Base.hex_number
config_sent = refl

handle_get_config-document_example :
    (body : List ℕ) × ((handle_get_config site_host site_config site_state site).1.out
      ≡ stream_header json_type ++ body)
    × (decode body ≡ some (document (codes "bench") [] (codes "devkit") wires, []))
unfolding exported_wires esp_usbip_bridge.Naming.get_hostname esp_usbip_bridge.Naming.get_board_id
    bytes_eq
handle_get_config-document_example =
    handle_get_config-document site_host site_config site_socket-IsHttpSocket quiet_send
      (codes "bench") [] wires site_state site site refl refl head-Fits wire_fits config_sent

-- The one pin, in a buffer of 100 bytes, and in one of 20.
abbrev one_pin : Pins
one_pin = record { entries = pin_t1 ∷ []; expander_inited = false }

build_pins_json-Holds_example :
    Holds 200
      (build_pins_json site_host site_config 200 one_pin site)
      (pins_document site_host site_config one_pin site)
unfolding pin_rows esp_usbip_bridge.Base.decimal esp_usbip_bridge.Http.Lists.pull_state_rows
build_pins_json-Holds_example =
    build_pins_json-Holds site_host site_config 200 one_pin site
      (unfold pins_document in omega arith)

build_pins_json-take_example :
    let b = build_pins_json site_host site_config 20 one_pin site in
    (b.json ≡ take 19 (pins_document site_host site_config one_pin site))
    × (length b.json < 20)
    × ((b.off < 20) ↔ (length (pins_document site_host site_config one_pin site) < 20))
build_pins_json-take_example =
    build_pins_json-take site_host site_config 20 one_pin site (omega arith)
