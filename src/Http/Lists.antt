-- ===== src/Http/Lists.antt =====
-- main/http_server.c: `build_pins_json` and `build_devices_json`, which write into a buffer of a given size with
-- `snprintf` at an offset that may grow beyond it. `Written` is about what they leave in the buffer.
pub mod Written
use esp_usbip_bridge.Base.{
  ℕ, zero, suc, ◌-◌, ◌+◌, List, [], ◌∷◌, ◌++◌, Option, none, some, Bool, true, false, ◌||◌, length,
  take, map, leb, ltb, if◌then◌else◌, codes, decimal, c_string,
}
use esp_usbip_bridge.Esp.{EspErr, is_ok}
use esp_usbip_bridge.Device.{Device}
use esp_usbip_bridge.Naming.{hex_byte, get_device_name}
use esp_usbip_bridge.Discovery.{device_name_max_len, hex_word}
use esp_usbip_bridge.Http.Json.{in_quotes}
use esp_usbip_bridge.Http.Pins.{
  Dir, input, output, PinEntry, Pins, Pull, no_pull, pull_up, pull_down, PullMap, k_pull_map,
  read_gpio_safe, pin_direction, expander_pull_state,
}
use esp_usbip_bridge.Http.Host.{HttpHost, HttpConfig}
use esp_usbip_bridge.Http.Config.{field}
use esp_usbip_bridge.Http.Handlers.{gpio_text, number_field}

-- The text in the buffer up to its NUL, and `off`.
pub record JsonBuf : Type 0 where
  pub json : List ℕ
  pub off : ℕ

abbrev pub empty_buf : JsonBuf
empty_buf = record { json = []; off = 0 }

-- `off += snprintf(buf + off, buf_size - off, ...)`, where `snprintf` writes what fits and returns the length
-- of the text. With an offset beyond the size, `buf_size - off` wraps around to more than INT_MAX, for which
-- `snprintf` fails: it writes nothing and returns -1.
unfoldable pub append_text : ℕ → List ℕ → JsonBuf → JsonBuf
append_text size t b = record {
  json = if ltb b.off size then b.json ++ take (size - 1 - b.off) t else b.json;
  off = if ltb size b.off then b.off - 1 else b.off + length t;
}

-- `(i > 0) ? ',' : ' '`.
abbrev pub separator : Bool → ℕ
separator first = if first then 32 else b','

-- A row for each text, until the offset reaches the size.
unfoldable pub append_rows : ℕ → Bool → List (List ℕ) → JsonBuf → JsonBuf
unfolding append_text
append_rows size first [] b = b
append_rows size first (t ∷ ts) b =
    let b1 = append_text size (separator first ∷ t) b in
    let rest = append_rows size false ts b1 in if leb size b1.off then b1 else rest

abbrev dir_text : Dir → List ℕ
dir_text input = codes "in"
dir_text output = codes "out"

abbrev pull_text : Pull → List ℕ
pull_text no_pull = codes "none"
pull_text pull_up = codes "up"
pull_text pull_down = codes "down"

module _ {W : Type 0} (h : HttpHost W) (cfg : HttpConfig) where
  -- A level that cannot be read is -1.
  unfoldable pub pin_row : Bool → W → PinEntry → List ℕ
  unfolding read_gpio_safe pin_direction
  pin_row inited w pin =
      let wire : List ℕ = elim (h.dut_get_wire pin.label w) [ none ↦ [] | some name ↦ name ] in
      let value : List ℕ =
        elim (read_gpio_safe h.pin_host cfg.expanders inited pin.gpio pin.label w) [
          | none ↦ codes "-1"
          | some v ↦ decimal v
        ] in
      let dir = dir_text (pin_direction h.pin_host cfg.expanders inited pin w) in
      codes "{"
      ++ field (in_quotes (codes "name")) pin.label (
          codes ","
          ++ number_field (codes "gpio") (gpio_text pin.gpio) (
              codes ","
              ++ number_field (codes "value") value (
                  codes ","
                  ++ field (in_quotes (codes "dir")) dir
                      (codes "," ++ field (in_quotes (codes "wire")) wire (codes "}")))))

  unfoldable pub pull_row : Bool → W → List ℕ × List ℕ → List ℕ
  unfolding expander_pull_state
  pull_row inited w (hdr, exp) =
      let state = pull_text (expander_pull_state h.pin_host cfg.expanders inited (some exp) w) in
      codes "{"
      ++ field (in_quotes (codes "header")) hdr
          (codes "," ++ field (in_quotes (codes "state")) state (codes "}"))

  unfoldable pub pin_rows : Pins → W → List (List ℕ)
  unfolding pin_row
  pin_rows pins w = map (pin_row pins.expander_inited w) pins.entries

  unfoldable pub pull_state_rows : Pins → W → List (List ℕ)
  unfolding pull_row
  pull_state_rows pins w =
      if pins.expander_inited then map (pull_row pins.expander_inited w) k_pull_map else []

  unfoldable pub build_pins_json : ℕ → Pins → W → JsonBuf
  unfolding append_rows append_text pin_rows pull_state_rows
  build_pins_json size pins w =
      let b1 = append_text size (codes "{\"pins\":[") empty_buf in
      let b2 = append_rows size true (pin_rows pins w) b1 in
      let b3 = append_text size (codes "],\"pulls\":[") b2 in
      let b4 = append_rows size true (pull_state_rows pins w) b3 in append_text size (codes "]}") b4

  unfoldable pub device_row : Device → List ℕ → List ℕ
  device_row d name =
      let hex = λ (key digits rest : List ℕ). field (in_quotes key) (codes "0x" ++ digits) rest in
      codes "{"
      ++ field (in_quotes (codes "busid")) (c_string d.busid) (
          codes ","
          ++ hex (codes "vendor") (hex_word d.id_vendor) (
              codes ","
              ++ hex (codes "product") (hex_word d.id_product) (
                  codes ","
                  ++ hex (codes "bcdDevice") (hex_word d.bcd_device) (
                      codes ","
                      ++ number_field (codes "speed") (decimal d.speed) (
                          codes ","
                          ++ hex (codes "class") (hex_byte d.device_class)
                              (codes "," ++ field (in_quotes (codes "name")) name (codes "}")))))))

  -- The devices, with their names, until the offset reaches the size.
  unfoldable pub append_devices : ℕ → Bool → List Device → JsonBuf → W → JsonBuf × W
  unfolding append_text device_row
  append_devices size first [] b w = (b, w)
  append_devices size first (d ∷ ds) b w =
      let (err, text, w1) = get_device_name h.nvs (some (c_string d.busid)) device_name_max_len w in
      let name = if is_ok err then text else [] in
      let b1 = append_text size (separator first ∷ device_row d name) b in
      let rest = append_devices size false ds b1 w1 in if leb size b1.off then (b1, w1) else rest

  -- With the devices of `usb_backend_get_devices`, and whether the array for them was allocated.
  unfoldable pub build_devices_json : ℕ → Bool → List Device → W → JsonBuf × W
  unfolding append_devices append_text
  build_devices_json size allocated devs w =
      let b1 = append_text size (codes "{\"devices\":[") empty_buf in
      let (b2, w1) = append_devices size true devs b1 w in
      if allocated
      then (append_text size (codes "]}") b2, w1)
      else (append_text size (codes "]}") b1, w)
