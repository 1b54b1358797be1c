-- ===== src/Http/Host.antt =====
-- main/http_server.c: what the handlers call, and the replies that fit into one send.
use esp_usbip_bridge.Base.{
  ℕ, ◌-◌, List, ◌++◌, Option, length, take, ltb, if◌then◌else◌, codes, decimal,
}
use esp_usbip_bridge.Esp.{EspErr}
use esp_usbip_bridge.Naming.{Nvs}
use esp_usbip_bridge.Discovery.{Mdns, Discovery}
use esp_usbip_bridge.Http.{HttpSocket, send_all}
use esp_usbip_bridge.Http.Stream.{crlf}
use esp_usbip_bridge.Http.Json.{in_quotes}
use esp_usbip_bridge.Http.Pins.{PinHost, ExpanderSize, Pins}

-- The libraries, and the names of the wires on the pins, which `harness_dut_*` keeps.
pub record HttpHost (W : Type 0) : Type 0 where
  pub sock : HttpSocket W
  pub pin_host : PinHost W
  pub nvs : Nvs W
  pub mdns : Mdns W
  -- The name of the wire on a pin, if it has one.
  pub dut_get_wire : List ℕ → W → Option (List ℕ)
  pub dut_set_wire : List ℕ → List ℕ → W → EspErr × W
  -- `neopixel_set_rgb(255, 255, 255)` and the timer that turns it off.
  pub neopixel_show_white_10s : W → W

-- `CONFIG_IDF_TARGET`, `board_get_name()`, `HARNESS_DUT_MAX_LABEL_LEN`, the expanders, the room for
-- interruptions of a send, and `USBIP_MAX_DEVICES`.
pub record HttpConfig : Type 0 where
  pub target : List ℕ
  pub board_name : List ℕ
  pub max_label_len : ℕ
  pub expanders : ExpanderSize
  pub interruptions : ℕ

-- The table of the pins, and the state of the discovery.
pub record HttpState : Type 0 where
  pub pins : Pins
  pub discovery : Discovery

unfoldable pub json_header : ℕ → List ℕ
json_header len =
    codes "HTTP/1.1 200 OK"
    ++ (crlf
        ++ (codes "Content-Type: application/json; charset=utf-8"
            ++ (crlf
                ++ (codes "Content-Length: "
                    ++ (decimal len
                        ++ (crlf
                            ++ (codes "Connection: close"
                                ++ (crlf
                                    ++ (codes "Access-Control-Allow-Origin: *"
                                        ++ (crlf ++ crlf))))))))))

-- `"{\"error\":\"%s\"}"`.
unfoldable pub error_text : List ℕ → List ℕ
error_text msg =
    codes "{" ++ (in_quotes (codes "error") ++ (codes ":" ++ (in_quotes msg ++ codes "}")))

-- `"%d"` of an `int`, given as its word.
unfoldable pub int_text : ℕ → List ℕ
int_text n = if ltb n 2_147_483_648 then decimal n else codes "-" ++ decimal (4_294_967_296 - n)

module _ {W : Type 0} (h : HttpHost W) (cfg : HttpConfig) where
  -- The first `len` bytes of the body.
  unfoldable pub send_json_ok : List ℕ → ℕ → W → W
  unfolding json_header
  send_json_ok body len w =
      let (err, w1) = send_all h.sock cfg.interruptions (json_header len) 0 w in
      (send_all h.sock cfg.interruptions (take len body) err w1).1

  unfoldable pub http_404 : W → W
  unfolding send_json_ok error_text
  http_404 w = send_json_ok (error_text (codes "Not Found")) 20 w

  unfoldable pub http_400 : List ℕ → W → W
  unfolding send_json_ok error_text
  http_400 msg w = send_json_ok (error_text msg) (length (error_text msg)) w

  unfoldable pub http_405 : W → W
  unfolding send_json_ok error_text
  http_405 w = send_json_ok (error_text (codes "Method Not Allowed")) 28 w

  unfoldable pub http_500 : W → W
  unfolding send_json_ok error_text
  http_500 w = send_json_ok (error_text (codes "Internal Server Error")) 30 w

  -- `snprintf` of a text that fits, and `send_json_ok`.
  unfoldable pub send_text : List ℕ → W → W
  unfolding send_json_ok
  send_text text w = send_json_ok text (length text) w
