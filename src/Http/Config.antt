-- ===== src/Http/Config.antt =====
-- main/http_server.c: the configuration as a document, its export (`handle_get_config`) and its import
-- (`handle_post_config`). `Ends` is about the import's loop, `Document` about what is exported, `Export`
-- about how it is written, and `Wires` and `Restore` about the import of what was exported.
pub mod Ends
pub mod Document
pub mod Wires
pub mod Restore
pub mod Export
use esp_usbip_bridge.Base.{
  ℕ, zero, suc, ◌+◌, ◌*◌, List, [], ◌∷◌, ◌++◌, Option, none, some, Bool, true, false, not, ◌&&◌,
  length, drop, ◌==◌, ltb, if◌then◌else◌, codes, decimal, is_some,
}
use esp_usbip_bridge.Esp.{EspErr, is_ok}
use esp_usbip_bridge.Naming.{get_hostname, set_hostname, get_board_id, set_board_id}
use esp_usbip_bridge.Discovery.{
  Discovery, device_name_max_len, discovery_service_notify_config_changed,
}
use esp_usbip_bridge.Http.Stream.{Stream, stream_begin, stream_printf, stream_write, stream_end}
use esp_usbip_bridge.Http.Json.{◌>>=◌, in_quotes, strstr, strchr, json_str_after, json_int_after}
use esp_usbip_bridge.Http.Pins.{PinEntry, Pins, dut_pin_index_with_label}
use esp_usbip_bridge.Http.Host.{HttpHost, HttpConfig, HttpState, int_text, send_text}

abbrev pub config_export_version : ℕ
config_export_version = 1

abbrev pub json_type : List ℕ
json_type = codes "application/json; charset=utf-8"

abbrev pub key_pin : List ℕ
key_pin = in_quotes (codes "pin")

abbrev pub key_wire : List ℕ
key_wire = in_quotes (codes "wire")

abbrev pub key_wires : List ℕ
key_wires = in_quotes (codes "wires")

abbrev pub key_hostname_field : List ℕ
key_hostname_field = in_quotes (codes "hostname")

abbrev pub key_board_id_field : List ℕ
key_board_id_field = in_quotes (codes "board_id")

abbrev pub key_version : List ℕ
key_version = in_quotes (codes "version")

-- `"key":"value"` and what follows.
abbrev pub field : List ℕ → List ℕ → List ℕ → List ℕ
field key value rest = key ++ (b':' ∷ b'"' ∷ (value ++ (b'"' ∷ rest)))

-- The document up to the wires.
unfoldable pub head_text : List ℕ → List ℕ → List ℕ → List ℕ
head_text hostname board_id board =
    codes "{"
    ++ (key_version
        ++ (codes ":"
            ++ (decimal config_export_version
                ++ (codes ","
                    ++ field key_hostname_field hostname (
                        codes ","
                        ++ field key_board_id_field board_id (
                            codes ","
                            ++ field (in_quotes (codes "board")) board
                                (codes "," ++ (key_wires ++ codes ":["))))))))

unfoldable pub wire_text : Bool → List ℕ → List ℕ → List ℕ
wire_text first pin wire =
    (if first then [] else codes ",")
    ++ (codes "{" ++ field key_pin pin (codes "," ++ field key_wire wire (codes "}")))

module _ {W : Type 0} (h : HttpHost W) (cfg : HttpConfig) where
  abbrev clear_name : List ℕ
  clear_name = []

  -- The rows that have a wire.
  unfoldable pub stream_wires : List PinEntry → Bool → Stream → W → Stream × W
  unfolding wire_text
  stream_wires [] first s w = (s, w)
  stream_wires (pin ∷ pins) first s w =
      let name : List ℕ = elim (h.dut_get_wire pin.label w) [ none ↦ [] | some wire ↦ wire ] in
      let skipped = length name == 0 in
      let (s1, w1) =
        if skipped
        then (s, w)
        else stream_printf h.sock cfg.interruptions (wire_text first pin.label name) s w in
      stream_wires pins (if skipped then first else false) s1 w1

  unfoldable pub handle_get_config : HttpState → W → Stream × W
  unfolding head_text stream_wires
  handle_get_config st w =
      let (_, hostname, w1) = get_hostname h.nvs device_name_max_len w in
      let (_, board_id, w2) = get_board_id h.nvs device_name_max_len w1 in
      let n = cfg.interruptions in
      let (s3, w3) = stream_begin h.sock n json_type w2 in
      let (s4, w4) = stream_printf h.sock n (head_text hostname board_id cfg.board_name) s3 w3 in
      let (s5, w5) = stream_wires st.pins.entries true s4 w4 in
      let (s6, w6) = stream_write h.sock n (codes "]}") s5 w5 in stream_end h.sock n s6 w6

  -- `for (...) harness_dut_set_wire(s_dut_pins[i].label, "")`.
  unfoldable pub clear_wires : List PinEntry → W → W
  clear_wires [] w = w
  clear_wires (pin ∷ pins) w = clear_wires pins (h.dut_set_wire pin.label clear_name w).1

-- The wire of a pin, unless another pin stands before it.
wire_of :
    List ℕ → Option (List ℕ) → List ℕ → Option (List ℕ × List ℕ) → Option (List ℕ × List ℕ) × List ℕ
wire_of pin none after none = (none, after)
wire_of pin (some next) after none = (none, next)
wire_of pin none after (some (wire, at_wire)) = (some (pin, wire), drop (length wire + 1) at_wire)
wire_of pin (some next) after (some (wire, at_wire)) =
    if ltb (length at_wire) (length next)
    then (none, next)
    else (some (pin, wire), drop (length wire + 1) at_wire)

-- The pin and the wire that stand next, or no wire for the next pin, and where the search goes on;
-- nothing if there is no pin any more. Of two places in the string the later one has less behind it.
unfoldable pub next_wire : List ℕ → Option (Option (List ℕ × List ℕ) × List ℕ)
unfolding json_str_after strstr wire_of
next_wire p = do
  (pin, at_pin) ← json_str_after p key_pin
  let next_pin = strstr key_pin (drop (length pin) at_pin)
  let after = drop (length pin + 1) at_pin
  some (wire_of pin next_pin after (json_str_after after key_wire))

module _ {W : Type 0} (h : HttpHost W) (cfg : HttpConfig) where
  -- Whether the wire was set.
  unfoldable pub apply_wire : List PinEntry → List ℕ → List ℕ → W → Bool × W
  unfolding dut_pin_index_with_label
  apply_wire entries pin wire w =
      let (err, w1) = h.dut_set_wire pin wire w in
      if not (ltb (length pin) cfg.max_label_len && ltb (length wire) cfg.max_label_len)
      then (false, w)
      else if is_some (dut_pin_index_with_label pin entries)
      then (is_ok err, w1)
      else (false, w)

  -- `for (;;)`, with the counts of the wires that were applied and skipped. A round goes on further
  -- right in the string, so as many rounds as it has characters are enough.
  unfoldable pub import_loop : ℕ → List PinEntry → List ℕ → ℕ → ℕ → W → ℕ × ℕ × W
  unfolding next_wire apply_wire
  import_loop zero entries p applied skipped w = (applied, skipped, w)
  import_loop (suc rounds) entries p applied skipped w = elim (next_wire p) [
    | none ↦ (applied, skipped, w)
    | some (none, p') ↦ import_loop rounds entries p' applied (skipped + 1) w
    | some (some (pin, wire), p') ↦
        let (done, w1) = apply_wire entries pin wire w in
        let a = if done then applied + 1 else applied in
        let s = if done then skipped else skipped + 1 in import_loop rounds entries p' a s w1
  ]

  unfoldable pub import_wires : List PinEntry → List ℕ → W → ℕ × ℕ × W
  unfolding import_loop strstr strchr
  import_wires entries body w = elim (strstr key_wires body) [
    | none ↦ (0, 0, w)
    | some wkey ↦
        let p : List ℕ = elim (strchr b'[' wkey) [ none ↦ drop 7 wkey | some lb ↦ drop 1 lb ] in
        import_loop (suc (length p)) entries p 0 0 w
  ]

  unfoldable pub import_hostname : List ℕ → W → W
  unfolding json_str_after
  import_hostname body w = elim (json_str_after body key_hostname_field) [
    | none ↦ w
    | some (hn, _) ↦
        let set : W = (set_hostname h.nvs (some hn) w).1 in
        if ltb 0 (length hn) && ltb (length hn) device_name_max_len then set else w
  ]

  unfoldable pub import_board_id : List ℕ → W → W
  unfolding json_str_after
  import_board_id body w = elim (json_str_after body key_board_id_field) [
    | none ↦ w
    | some (bi, _) ↦
        let set : W = (set_board_id h.nvs (some bi) w).1 in
        if ltb (length bi) device_name_max_len then set else w
  ]

  unfoldable pub import_config : List ℕ → HttpState → W → ℕ × ℕ × HttpState × W
  unfolding import_hostname import_board_id import_wires
  import_config body st w =
      let w2 = import_board_id body (import_hostname body w) in
      let (_, discovery, w3) =
        discovery_service_notify_config_changed h.mdns h.nvs cfg.target st.discovery w2 in
      let w4 = clear_wires h cfg st.pins.entries w3 in
      let (applied, skipped, w5) = import_wires st.pins.entries body w4 in
      (applied, skipped, record st { discovery = discovery }, w5)

  unfoldable pub imported_text : ℕ → ℕ → List ℕ
  imported_text applied skipped =
      codes "{"
      ++ field (in_quotes (codes "status")) (codes "ok") (
          codes ","
          ++ (in_quotes (codes "applied")
              ++ (codes ":"
                  ++ (decimal applied
                      ++ (codes ","
                          ++ (in_quotes (codes "skipped")
                              ++ (codes ":" ++ (decimal skipped ++ codes "}"))))))))

  -- A version that the document names and that is not 1 is refused.
  unfoldable pub handle_post_config : List ℕ → HttpState → W → HttpState × W
  unfolding import_config imported_text json_int_after
  handle_post_config body st w =
      let version : ℕ = elim (json_int_after body key_version) [
        | none ↦ config_export_version
        | some v ↦ v
      ] in
      let (applied, skipped, st', w1) = import_config body st w in
      let refused =
        codes "{"
        ++ field (in_quotes (codes "error"))
            (codes "unsupported config version " ++ int_text version) (codes "}") in
      if not (version == config_export_version)
      then (st, send_text h cfg refused w)
      else (st', send_text h cfg (imported_text applied skipped) w1)
