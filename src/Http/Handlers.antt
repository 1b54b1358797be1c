-- ===== src/Http/Handlers.antt =====
-- main/http_server.c: the handlers of the pins and of the names. `Drive` is about a pin that is written.
pub mod Drive
pub mod Names
use esp_usbip_bridge.Base.{
  ℕ, zero, suc, ◌-◌, ◌+◌, List, [], ◌∷◌, ◌++◌, Option, none, some, Bool, true, false, not, ◌&&◌,
  ◌||◌, length, take, drop, ◌==◌, ltb, if◌then◌else◌, codes, decimal, bytes_eq, set, starts,
}
use esp_usbip_bridge.Esp.{EspErr, is_ok}
use esp_usbip_bridge.Naming.{
  get_hostname, set_hostname, get_board_id, set_board_id, set_device_name,
}
use esp_usbip_bridge.Discovery.{device_name_max_len, discovery_service_notify_config_changed}
use esp_usbip_bridge.Http.Json.{◌>>=◌, in_quotes, strstr, strchr, skip_while, posted_value}
use esp_usbip_bridge.Http.Pins.{
  Gpio, native, expander, pull_only, Dir, input, output, PinEntry, Pins, Found, row, transient,
  find_pin_by_label, read_gpio_safe, config_pin, set_pin_level,
}
use esp_usbip_bridge.Http.Host.{
  HttpHost, HttpConfig, HttpState, int_text, send_text, http_404, http_500,
}
use esp_usbip_bridge.Http.Config.{field, clear_wires}

-- `%d` of a pin's GPIO.
abbrev pub gpio_text : Gpio → List ℕ
gpio_text (native n) = decimal n
gpio_text expander = codes "-1"
gpio_text pull_only = codes "-2"

abbrev pub found_pin : Found → PinEntry
found_pin (row i pin) = pin
found_pin (transient pin) = pin

-- The table after a change of a pin that was found.
abbrev store_pin : Found → PinEntry → List PinEntry → List PinEntry
store_pin (row i _) pin entries = set entries i pin
store_pin (transient _) pin entries = entries

-- `"key":number` and what follows.
abbrev pub number_field : List ℕ → List ℕ → List ℕ → List ℕ
number_field key number rest = in_quotes key ++ (codes ":" ++ (number ++ rest))

-- `"{\"status\":\"ok\",\"<key>\":\"<value>\"}"`.
unfoldable pub ok_text : List ℕ → List ℕ → List ℕ
ok_text key value =
    codes "{"
    ++ field (in_quotes (codes "status")) (codes "ok")
        (codes "," ++ field (in_quotes key) value (codes "}"))

unfoldable pub value_text : List ℕ → List ℕ → List ℕ
value_text key value = codes "{" ++ field (in_quotes key) value (codes "}")

-- The value that a post asks for, 0 or 1.
unfoldable pub posted_level : List ℕ → Option ℕ
unfolding strstr strchr skip_while
posted_level body = do
  vk ← strstr (in_quotes (codes "value")) body
  c ← strchr b':' vk
  let digit = skip_while (λ x. x == b':' || x == 32) c
  if starts (codes "0") digit then some 0 else if starts (codes "1") digit then some 1 else none

module _ {W : Type 0} (h : HttpHost W) (cfg : HttpConfig) where
  -- A level for the reply; an error reads as 0.
  abbrev level_of : Pins → PinEntry → W → ℕ
  level_of pins pin w =
      elim (read_gpio_safe h.pin_host cfg.expanders pins.expander_inited pin.gpio pin.label w) [
        | none ↦ 0
        | some v ↦ v
      ]

  unfoldable pub pin_text : Pins → PinEntry → W → List ℕ
  unfolding read_gpio_safe
  pin_text pins pin w =
      let wire : List ℕ = elim (h.dut_get_wire pin.label w) [ none ↦ [] | some name ↦ name ] in
      codes "{"
      ++ field (in_quotes (codes "name")) pin.label (
          codes ","
          ++ number_field (codes "gpio") (gpio_text pin.gpio) (
              codes ","
              ++ number_field (codes "value") (decimal (level_of pins pin w))
                  (codes "," ++ field (in_quotes (codes "wire")) wire (codes "}"))))

  unfoldable pub handle_get_pin : List ℕ → HttpState → W → W
  unfolding pin_text find_pin_by_label
  handle_get_pin pin_name st w = elim (find_pin_by_label cfg.expanders pin_name st.pins) [
    | none ↦ http_404 h cfg w
    | some found ↦ send_text h cfg (pin_text st.pins (found_pin found) w) w
  ]

  -- The direction that was posted, and then the level, which makes the pin an output unless the direction
  -- says otherwise.
  unfoldable pub drive_pin : Bool → List ℕ → Option ℕ → PinEntry → W → PinEntry × W
  unfolding config_pin set_pin_level
  drive_pin inited direction level pin w =
      let to =
        λ (d : Dir) (p : PinEntry) (v : W). config_pin h.pin_host cfg.expanders inited d p v in
      let is_in = bytes_eq direction (codes "in") in
      let (_, pin1, w1) =
        if is_in
        then to input pin w
        else if bytes_eq direction (codes "out")
        then to output pin w
        else (false, pin, w) in
      let (_, pin2, w2) = if is_in then (false, pin1, w1) else to output pin1 w1 in
      elim level [
        | none ↦ (pin1, w1)
        | some v ↦ (pin2, (set_pin_level h.pin_host cfg.expanders inited pin2 v w2).1)
      ]

  unfoldable pub handle_post_pin : List ℕ → List ℕ → HttpState → W → HttpState × W
  unfolding drive_pin pin_text posted_level posted_value find_pin_by_label
  handle_post_pin pin_name body st w =
      let pins = st.pins in
      elim (find_pin_by_label cfg.expanders pin_name pins) [
        | none ↦ (st, http_404 h cfg w)
        | some found ↦
            let direction : List ℕ = elim (posted_value body (in_quotes (codes "direction")) 8) [
              | none ↦ []
              | some d ↦ d
            ] in
            let (pin, w1) =
              drive_pin pins.expander_inited direction (posted_level body) (found_pin found) w in
            let w2 : W =
              elim (posted_value body (in_quotes (codes "wire")) (cfg.max_label_len + 1)) [
                | none ↦ w1
                | some wire ↦ (h.dut_set_wire pin.label wire w1).1
              ] in
            let pins' = record pins { entries = store_pin found pin pins.entries } in
            (record st { pins = pins' }, send_text h cfg (pin_text pins' pin w2) w2)
      ]

  -- `POST /api/pins/<name>/toggle`.
  unfoldable pub toggle_pin : List ℕ → HttpState → W → HttpState × W
  unfolding config_pin set_pin_level find_pin_by_label read_gpio_safe
  toggle_pin pin_name st w =
      let pins = st.pins in
      elim (find_pin_by_label cfg.expanders pin_name pins) [
        | none ↦ (st, http_404 h cfg w)
        | some found ↦
            let before = level_of pins (found_pin found) w in
            let (_, pin, w1) =
              config_pin h.pin_host cfg.expanders pins.expander_inited output (found_pin found) w in
            let level = if before == 0 then 1 else 0 in
            let w2 = (set_pin_level h.pin_host cfg.expanders pins.expander_inited pin level w1).1 in
            let pins' = record pins { entries = store_pin found pin pins.entries } in
            let text =
              codes "{"
              ++ field (in_quotes (codes "name")) pin_name (
                  codes ","
                  ++ number_field (codes "value") (decimal (level_of pins' pin w2)) (codes "}")) in
            (record st { pins = pins' }, send_text h cfg text w2)
      ]

  unfoldable pub get_hostname_page : W → W
  unfolding value_text
  get_hostname_page w =
      let (_, hostname, w1) = get_hostname h.nvs device_name_max_len w in
      send_text h cfg (value_text (codes "hostname") hostname) w1

  unfoldable pub get_board_id_page : W → W
  unfolding value_text
  get_board_id_page w =
      let (_, board_id, w1) = get_board_id h.nvs device_name_max_len w in
      send_text h cfg (value_text (codes "board_id") board_id) w1

  -- The value of a key in the body, or the empty text.
  unfoldable pub posted_name : List ℕ → List ℕ → List ℕ
  unfolding posted_value
  posted_name body key = elim (posted_value body (in_quotes key) device_name_max_len) [
    | none ↦ []
    | some v ↦ v
  ]

  -- The end of a post that has changed a name: the announcement, and the reply.
  unfoldable pub name_set : List ℕ → List ℕ → EspErr → HttpState → W → HttpState × W
  unfolding ok_text
  name_set key value err st w =
      let (_, discovery, w1) =
        discovery_service_notify_config_changed h.mdns h.nvs cfg.target st.discovery w in
      if is_ok err
      then (record st { discovery = discovery }, send_text h cfg (ok_text key value) w1)
      else (st, http_500 h cfg w)

  unfoldable pub post_hostname : List ℕ → HttpState → W → HttpState × W
  unfolding posted_name name_set
  post_hostname body st w =
      let hostname = posted_name body (codes "hostname") in
      let (err, w1) = set_hostname h.nvs (some hostname) w in
      name_set (codes "hostname") hostname err st w1

  unfoldable pub post_board_id : List ℕ → HttpState → W → HttpState × W
  unfolding posted_name name_set
  post_board_id body st w =
      let board_id = posted_name body (codes "board_id") in
      let (err, w1) = set_board_id h.nvs (some board_id) w in
      name_set (codes "board_id") board_id err st w1

  unfoldable pub post_device_name : List ℕ → List ℕ → HttpState → W → HttpState × W
  unfolding posted_name
  post_device_name busid body st w =
      let name = posted_name body (codes "name") in
      let (err, w1) = set_device_name h.nvs (some busid) (some name) w in
      let text =
        codes "{"
        ++ field (in_quotes (codes "status")) (codes "ok") (
            codes ","
            ++ field (in_quotes (codes "busid")) busid
                (codes "," ++ field (in_quotes (codes "name")) name (codes "}"))) in
      (st, if is_ok err then send_text h cfg text w1 else http_500 h cfg w1)

  -- `POST /api/config/clear`.
  unfoldable pub clear_config : HttpState → W → HttpState × W
  unfolding ok_text
  clear_config st w =
      let w1 = clear_wires h cfg st.pins.entries (h.neopixel_show_white_10s w) in
      let w2 = (set_hostname h.nvs (some []) w1).1 in
      let w3 = (set_board_id h.nvs (some []) w2).1 in
      let (_, discovery, w4) =
        discovery_service_notify_config_changed h.mdns h.nvs cfg.target st.discovery w3 in
      (
        record st { discovery = discovery },
        send_text h cfg (ok_text (codes "message") (codes "Configuration cleared")) w4,
      )
