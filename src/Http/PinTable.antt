-- ===== src/Http/PinTable.antt =====
-- main/http_server.c: the table of the pins, and their directions when the server starts. `Power` is about the
-- line that powers the USB host.
pub mod Power
use esp_usbip_bridge.Base.{
  ℕ, zero, suc, ◌-◌, ◌+◌, ◌/◌, ◌%◌, ◌^◌, List, [], ◌∷◌, ◌++◌, Option, none, some, Bool, true, false,
  not, ◌&&◌, ◌||◌, length, ◌==◌, leb, ltb, if◌then◌else◌, codes, bytes_eq, starts, drop, map,
  byte_at, find_from, get_elem?, set, is_some,
}
use esp_usbip_bridge.Esp.{EspErr, is_ok}
use esp_usbip_bridge.Http.Json.{◌>>=◌, scan_int}
use esp_usbip_bridge.Http.Pins.{
  Gpio, native, expander, pull_only, Dir, input, PinEntry, max_dut_pins, Pins, PullMap, k_pull_map,
  pull_exp_for_header, dut_pin_index_with_label, ExpanderSize, expander_label_parse, expander_of,
  PinHost,
}

unfoldable pub is_header : List ℕ → Bool
is_header l =
    (byte_at l 0 == b'T' || byte_at l 0 == b'B')
    && (leb b'1' (byte_at l 1) && leb (byte_at l 1) b'9')

-- A row at the end of the table, as long as there is room.
unfoldable pub add_row : PinEntry → List PinEntry → List PinEntry
add_row row rows = if ltb (length rows) max_dut_pins then rows ++ (row ∷ []) else rows

unfoldable pub header_rows : List (List ℕ × Gpio) → List PinEntry → List PinEntry
unfolding is_header add_row pull_exp_for_header
header_rows [] rows = rows
header_rows ((label, gpio) ∷ pins) rows =
    let row : PinEntry = record {
      label = label;
      gpio = gpio;
      pull_exp = pull_exp_for_header label k_pull_map;
      desc = none;
      dir = input;
    } in
    header_rows pins (if is_header label then add_row row rows else rows)

unfoldable pub pull_rows : PullMap → List PinEntry → List PinEntry
unfolding add_row dut_pin_index_with_label
pull_rows [] rows = rows
pull_rows ((hdr, exp) ∷ rest) rows =
    let row : PinEntry = record {
      label = hdr;
      gpio = pull_only;
      pull_exp = some exp;
      desc = none;
      dir = input;
    } in
    pull_rows rest (if is_some (dut_pin_index_with_label hdr rows) then rows else add_row row rows)

abbrev usb_power : List ℕ
usb_power = codes "USB power"

abbrev k_special : List (List ℕ × Option (List ℕ))
k_special =
    (codes "E0_0", none)
    ∷ (codes "E0_1", none)
    ∷ (codes "E0_2", none)
    ∷ (codes "E0_3", none)
    ∷ (codes "E0_4", none)
    ∷ (codes "E0_5", none)
    ∷ (codes "E0_15", some (codes "LED"))
    ∷ (codes "E1_15", some usb_power)
    ∷ (codes "E2_15", some (codes "LED"))
    ∷ []

unfoldable pub special_rows : List (List ℕ × Option (List ℕ)) → List PinEntry → List PinEntry
unfolding add_row
special_rows [] rows = rows
special_rows ((label, desc) ∷ rest) rows =
    let row : PinEntry = record {
      label = label;
      gpio = expander;
      pull_exp = none;
      desc = desc;
      dir = input;
    } in
    special_rows rest (add_row row rows)

-- The table for the board's pins.
unfoldable pub collect_dut_pins : List (List ℕ × Gpio) → Bool → List PinEntry
unfolding header_rows pull_rows special_rows
collect_dut_pins pins expander_inited =
    let rows = header_rows pins [] in
    if expander_inited then special_rows k_special (pull_rows k_pull_map rows) else rows

-- Whether the row is that of the host's power line, which stays as it is.
abbrev pub is_usb_power : PinEntry → Bool
is_usb_power pin = elim pin.desc [ none ↦ false | some d ↦ bytes_eq d usb_power ]

module _ {W : Type 0} (h : PinHost W) (size : ExpanderSize) (inited : Bool) where
  -- One row of `init_dut_pin_directions`.
  unfoldable pub init_direction : PinEntry → W → PinEntry × W
  unfolding expander_label_parse
  init_direction pin w = elim pin.gpio [
    | native n ↦ (record pin { dir = input }, (h.gpio_config n input w).1)
    | pull_only ↦ (pin, w)
    | expander ↦
        let reset : W = elim (expander_of h size inited pin.label) [
          | none ↦ w
          | some (e, p) ↦ (h.expander_set_dir e p input w).1
        ] in
        if is_usb_power pin then (pin, w) else (pin, reset)
  ]

  unfoldable pub init_dut_pin_directions : List PinEntry → W → List PinEntry × W
  unfolding init_direction
  init_dut_pin_directions [] w = ([], w)
  init_dut_pin_directions (pin ∷ pins) w =
      let (pin', w1) = init_direction pin w in
      let (pins', w2) = init_dut_pin_directions pins w1 in (pin' ∷ pins', w2)

-- `init_io_expander`, and the set-up of the table when the task starts.
unfoldable pub init_pins :
    {W : Type 0} → PinHost W → ExpanderSize → List (List ℕ × Gpio) → W → Pins × W
unfolding collect_dut_pins init_dut_pin_directions
init_pins h size board_pins w =
    let inited = h.expander_is_initialized w in
    let (entries, w1) =
      init_dut_pin_directions h size inited (collect_dut_pins board_pins inited) w in
    (record { entries = entries; expander_inited = inited }, w1)
