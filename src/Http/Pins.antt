-- ===== src/Http/Pins.antt =====
-- main/http_server.c: the pins of the board, and the operations on them. The GPIO driver
-- and the IO expanders (`harness_io_expander_*`) are not part of the repository: they are the operations
-- of `PinHost`.
pub mod Labels
use esp_usbip_bridge.Base.{
  ℕ, zero, suc, ◌-◌, ◌+◌, ◌/◌, ◌%◌, ◌^◌, List, [], ◌∷◌, ◌++◌, Option, none, some, Bool, true, false,
  not, ◌&&◌, ◌||◌, length, ◌==◌, leb, ltb, if◌then◌else◌, codes, bytes_eq, starts, drop, map,
  byte_at, find_from, get_elem?, set, is_some,
}
use esp_usbip_bridge.Esp.{EspErr, is_ok}
use esp_usbip_bridge.Http.Json.{◌>>=◌, scan_int}

-- `int8_t gpio`: a GPIO from 0 on, -1, and -2.
pub data Gpio : Type 0 where
  native : ℕ → Gpio
  expander pull_only : Gpio

pub data Dir : Type 0 where
  input output : Dir

pub record PinEntry : Type 0 where
  pub label : List ℕ
  pub gpio : Gpio
  pub pull_exp : Option (List ℕ)
  pub desc : Option (List ℕ)
  pub dir : Dir

abbrev pub max_dut_pins : ℕ
max_dut_pins = 87

-- `s_dut_pins` up to `s_dut_pin_count`, and `s_expander_inited`.
pub record Pins : Type 0 where
  pub entries : List PinEntry
  pub expander_inited : Bool

abbrev pub PullMap : Type 0
PullMap = List (List ℕ × List ℕ)

-- Each header pin and the expander pin of its resistor.
abbrev pub k_pull_map : PullMap
k_pull_map =
    (codes "B1", codes "E0_6")
    ∷ (codes "B2", codes "E0_7")
    ∷ (codes "T2", codes "E0_8")
    ∷ (codes "B3", codes "E0_9")
    ∷ (codes "T3", codes "E0_10")
    ∷ (codes "B4", codes "E0_11")
    ∷ (codes "T4", codes "E0_12")
    ∷ (codes "B5", codes "E0_13")
    ∷ (codes "T5", codes "E0_14")
    ∷ (codes "B6", codes "E1_0")
    ∷ (codes "T6", codes "E1_1")
    ∷ (codes "B7", codes "E1_2")
    ∷ (codes "T7", codes "E1_3")
    ∷ (codes "B8", codes "E1_4")
    ∷ (codes "T8", codes "E1_5")
    ∷ (codes "B9", codes "E1_6")
    ∷ (codes "T9", codes "E1_7")
    ∷ (codes "B10", codes "E1_8")
    ∷ (codes "T10", codes "E1_9")
    ∷ (codes "B11", codes "E1_10")
    ∷ (codes "T11", codes "E1_11")
    ∷ (codes "B12", codes "E1_12")
    ∷ (codes "T12", codes "E1_13")
    ∷ (codes "B13", codes "E1_14")
    ∷ (codes "T13", codes "E2_0")
    ∷ (codes "B14", codes "E2_1")
    ∷ (codes "T14", codes "E2_2")
    ∷ (codes "B15", codes "E2_3")
    ∷ (codes "T15", codes "E2_4")
    ∷ (codes "B16", codes "E2_5")
    ∷ (codes "T16", codes "E2_6")
    ∷ (codes "B17", codes "E2_7")
    ∷ (codes "T17", codes "E2_8")
    ∷ (codes "B18", codes "E2_9")
    ∷ (codes "T18", codes "E2_10")
    ∷ (codes "B19", codes "E2_11")
    ∷ (codes "T19", codes "E2_12")
    ∷ (codes "B20", codes "E2_13")
    ∷ (codes "T20", codes "E2_14")
    ∷ []

abbrev lower : ℕ → ℕ
lower c = if leb b'A' c && leb c b'Z' then c + 32 else c

-- `strcasecmp(a, b) == 0`.
unfoldable pub same_label : List ℕ → List ℕ → Bool
same_label a b = bytes_eq (map lower a) (map lower b)

unfoldable pub pull_exp_for_header : List ℕ → PullMap → Option (List ℕ)
pull_exp_for_header hdr [] = none
pull_exp_for_header hdr ((h, exp) ∷ rest) =
    let later = pull_exp_for_header hdr rest in if same_label h hdr then some exp else later

unfoldable pub dut_pin_index_with_label : List ℕ → List PinEntry → Option ℕ
unfolding same_label
dut_pin_index_with_label label entries =
    find_from (λ (p : PinEntry). same_label p.label label) entries 0

-- `IO_EXPANDER_MAX_COUNT` and `IO_EXPANDER_PIN_COUNT`.
pub record ExpanderSize : Type 0 where
  pub max_count : ℕ
  pub pin_count : ℕ

-- An `int` that is not negative and below a limit.
abbrev below : ℕ → Bool × ℕ × List ℕ → Bool
below limit (negative, n, rest) = not (negative && ltb 0 n) && ltb n limit

-- `_%d`.
unfoldable pub scan_second : List ℕ → Option (Bool × ℕ × List ℕ)
unfolding scan_int starts
scan_second rest = if starts (codes "_") rest then scan_int (drop 1 rest) else none

-- `sscanf(label + 1, "%d_%d", ...)` and the checks.
unfoldable pub expander_label_parse : ExpanderSize → List ℕ → Option (ℕ × ℕ)
unfolding scan_int scan_second
expander_label_parse size [] = none
expander_label_parse size (c ∷ cs) = if not (c == b'E' || c == b'e') then none else do
  (e_negative, e, rest) ← scan_int cs
  (p_negative, p, after) ← scan_second rest
  let known = below size.max_count (e_negative, e, rest)
  let fits = below size.pin_count (p_negative, p, after)
  if known && fits then some (e, p) else none

pub record PinHost (W : Type 0) : Type 0 where
  pub gpio_get_level : ℕ → W → ℕ
  -- The mode is input, or input and output; no pulls, no interrupts.
  pub gpio_config : ℕ → Dir → W → EspErr × W
  pub gpio_set_level : ℕ → ℕ → W → W
  pub expander_is_initialized : W → Bool
  -- Nothing for a negative result.
  pub expander_read_pin : ℕ → ℕ → W → Option ℕ
  pub expander_set_dir : ℕ → ℕ → Dir → W → EspErr × W
  pub expander_write_pin : ℕ → ℕ → Bool → W → EspErr × W
  -- The direction register, if it could be read: a bit that is set is an input.
  pub expander_get_dir_all : ℕ → W → Option ℕ

abbrev is_input_bit : ℕ → ℕ → Bool
is_input_bit cfg pin = cfg / 2 ^ pin % 2 == 1

pub data Pull : Type 0 where
  no_pull pull_up pull_down : Pull

module _ {W : Type 0} (h : PinHost W) (size : ExpanderSize) (inited : Bool) where
  -- The expander's pin of a label, if the expanders can be used.
  abbrev pub expander_of : List ℕ → Option (ℕ × ℕ)
  expander_of label = if inited then expander_label_parse size label else none

  -- Nothing for a negative result.
  unfoldable pub read_gpio_safe : Gpio → List ℕ → W → Option ℕ
  unfolding expander_label_parse
  read_gpio_safe (native n) label w = some (h.gpio_get_level n w)
  read_gpio_safe _ label w = do (e, p) ← expander_of label; h.expander_read_pin e p w

  unfoldable pub pin_direction : PinEntry → W → Dir
  unfolding expander_label_parse
  pin_direction pin w = elim pin.gpio [
    | pull_only ↦ input
    | native n ↦ pin.dir
    | expander ↦ elim (expander_of pin.label) [
      | none ↦ input
      | some (e, p) ↦ elim (h.expander_get_dir_all e w) [
        | none ↦ input
        | some cfg ↦ if is_input_bit cfg p then input else output
      ]
    ]
  ]

  -- `config_pin_output` and `config_pin_input`.
  unfoldable pub config_pin : Dir → PinEntry → W → Bool × PinEntry × W
  unfolding expander_label_parse
  config_pin dir pin w =
      let on_expander : Bool × PinEntry × W = elim (expander_of pin.label) [
        | none ↦ (false, pin, w)
        | some (e, p) ↦
            let (err, w1) = h.expander_set_dir e p dir w in
            if is_ok err then (true, record pin { dir = dir }, w1) else (false, pin, w1)
      ] in
      elim pin.gpio [
        | native n ↦
            let (err, w1) = h.gpio_config n dir w in
            if is_ok err then (true, record pin { dir = dir }, w1) else (false, pin, w1)
        | _ ↦ on_expander
      ]

  unfoldable pub set_pin_level : PinEntry → ℕ → W → Bool × W
  unfolding expander_label_parse
  set_pin_level pin level w =
      let on_expander : Bool × W = elim (expander_of pin.label) [
        | none ↦ (false, w)
        | some (e, p) ↦
            let (err, w1) = h.expander_write_pin e p (not (level == 0)) w in (is_ok err, w1)
      ] in
      elim pin.gpio [ native n ↦ (true, h.gpio_set_level n level w) | _ ↦ on_expander ]

  unfoldable pub expander_pull_state : Option (List ℕ) → W → Pull
  unfolding expander_label_parse
  expander_pull_state none w = no_pull
  expander_pull_state (some exp) w = elim (expander_of exp) [
    | none ↦ no_pull
    | some (e, p) ↦ elim (h.expander_get_dir_all e w) [
      | none ↦ no_pull
      | some cfg ↦
          let high : Bool = elim (h.expander_read_pin e p w) [ none ↦ false | some v ↦ ltb 0 v ] in
          if is_input_bit cfg p then no_pull else if high then pull_up else pull_down
    ]
  ]

-- What `find_pin_by_label` returns a pointer to: a row, or the entry that stands for an expander's pin
-- that has none.
pub data Found : Type 0 where
  row : ℕ → PinEntry → Found
  transient : PinEntry → Found

unfoldable pub find_pin_by_label : ExpanderSize → List ℕ → Pins → Option Found
unfolding dut_pin_index_with_label expander_label_parse
find_pin_by_label size label pins =
    let syn : PinEntry = record {
      label = label;
      gpio = expander;
      pull_exp = none;
      desc = none;
      dir = input;
    } in
    let other : Option Found =
      if pins.expander_inited && is_some (expander_label_parse size label)
      then some (transient syn)
      else none in
    elim (dut_pin_index_with_label label pins.entries) [
      | none ↦ other
      | some i ↦ elim (get_elem? pins.entries i) [ none ↦ other | some pin ↦ some (row i pin) ]
    ]
