-- ===== src/Http/PinTable/Power.antt =====
-- main/http_server.c: the set-up of the pins leaves the power of the USB host alone. Its line is pin 15 of
-- expander 1.
use esp_usbip_bridge.Base.{
  ℕ, ◌≡◌, ◌≢◌, ◌⊎◌, inl, inr, refl, ap, ◌∙◌, sym, List, [], ◌∷◌, ◌++◌, Option, none, some, Bool,
  true, false, not, ◌&&◌, ◌||◌, length, ◌==◌, arith, if_ind, if◌then◌else◌, codes, bytes_eq, starts,
  read_number, decimal_digit, Option-cases, is_some, ltb,
}
use esp_usbip_bridge.Http.Json.{scan_int, scan_signed, scan_digits, skip_while}
use esp_usbip_bridge.Http.Pins.{
  Gpio, native, expander, pull_only, Dir, input, PinEntry, ExpanderSize, expander_label_parse,
  scan_second, PinHost, PullMap, k_pull_map, max_dut_pins, dut_pin_index_with_label,
}
use esp_usbip_bridge.Http.PinTable.{
  is_header, add_row, header_rows, pull_rows, k_special, special_rows, collect_dut_pins,
  is_usb_power, init_direction, init_dut_pin_directions, init_pins,
}

Gpio-cases : (g : Gpio) → ((n : ℕ) × (g ≡ native n)) ⊎ ((g ≡ pull_only) ⊎ (g ≡ expander))
Gpio-cases (native n) = inl (n, refl)
Gpio-cases pull_only = inr (inl refl)
Gpio-cases expander = inr (inr refl)

-- What stands for the power line changes with its own direction only.
pub record IsPowerLine {W : Type 0} {A : Type 0} (h : PinHost W) (power : W → A) : Type 0 where
  pub gpio_keeps : (n : ℕ) (d : Dir) (w : W) → power (h.gpio_config n d w).1 ≡ power w
  pub other_keeps :
      (e p : ℕ) (d : Dir) (w : W)
      → ◌≢◌ {A = ℕ × ℕ} (e, p) (1, 15)
      → power (h.expander_set_dir e p d w).1 ≡ power w

module _ (size : ExpanderSize) where
  -- A row that is marked as the power line, or is none of its labels.
  abbrev Leaves : PinEntry → Type 0
  Leaves pin =
      pin.gpio ≡ expander
      → (is_usb_power pin ≡ true) ⊎ (expander_label_parse size pin.label ≢ some (1, 15))

  abbrev AllLeave : List PinEntry → Type 0
  AllLeave [] = Unit
  AllLeave (pin ∷ pins) = Leaves pin × AllLeave pins

  AllLeave-append : (xs ys : List PinEntry) → AllLeave xs → AllLeave ys → AllLeave (xs ++ ys)
  AllLeave-append [] ys hx hy = hy
  AllLeave-append (x ∷ xs) ys hx hy = (hx.0, AllLeave-append xs ys hx.1 hy)

  add_row-AllLeave :
      (pin : PinEntry) (rows : List PinEntry)
      → Leaves pin
      → AllLeave rows
      → AllLeave (add_row pin rows)
  unfolding add_row
  add_row-AllLeave pin rows one all =
      if_ind AllLeave (ltb (length rows) max_dut_pins)
        (λ _. AllLeave-append rows (pin ∷ []) all (one, tt)) (λ _. all)

  -- No header pin is named like an expander's pin.
  header_label : (label : List ℕ) → is_header label ≡ true → expander_label_parse size label ≡ none
  unfolding is_header expander_label_parse
  header_label [] e = refl
  header_label (c ∷ cs) e =
      let other : not (c == b'E' || c == b'e') ≡ true = ground (arith, e) in rw other refl

  header_rows-AllLeave :
      (pins : List (List ℕ × Gpio)) (rows : List PinEntry)
      → AllLeave rows
      → AllLeave (header_rows pins rows)
  unfolding header_rows
  header_rows-AllLeave [] rows all = all
  header_rows-AllLeave ((label, gpio) ∷ pins) rows all = header_rows-AllLeave pins _ (
      if_ind AllLeave (is_header label)
        (λ e.
          add_row-AllLeave _ rows (λ _. inr (λ q. absurd (ground (arith, header_label label e, q))))
            all)
        (λ _. all))

  pull_rows-AllLeave :
      (map : PullMap) (rows : List PinEntry) → AllLeave rows → AllLeave (pull_rows map rows)
  unfolding pull_rows
  pull_rows-AllLeave [] rows all = all
  pull_rows-AllLeave ((hdr, exp) ∷ rest) rows all = pull_rows-AllLeave rest _ (
      if_ind AllLeave (is_some (dut_pin_index_with_label hdr rows)) (λ _. all)
        (λ _. add_row-AllLeave _ rows (λ q. absurd (ground (arith, q))) all))

  abbrev special : List ℕ → Option (List ℕ) → PinEntry
  special label desc = record {
    label = label;
    gpio = expander;
    pull_exp = none;
    desc = desc;
    dir = input;
  }

  abbrev AllSpecial : List (List ℕ × Option (List ℕ)) → Type 0
  AllSpecial [] = Unit
  AllSpecial ((label, desc) ∷ rest) = Leaves (special label desc) × AllSpecial rest

  special_rows-AllLeave :
      (rest : List (List ℕ × Option (List ℕ))) (rows : List PinEntry)
      → AllSpecial rest
      → AllLeave rows
      → AllLeave (special_rows rest rows)
  unfolding special_rows
  special_rows-AllLeave [] rows each all = all
  special_rows-AllLeave ((label, desc) ∷ rest) rows each all =
      special_rows-AllLeave rest _ each.1 (add_row-AllLeave _ rows each.0 all)

  -- The labels of the table, each as a number of the expander and of the pin.
  special_label :
      (label : List ℕ) (e p : ℕ)
      → expander_label_parse size label
        ≡ (if ltb e size.max_count && ltb p size.pin_count then some (e, p) else none)
      → ◌≢◌ {A = ℕ × ℕ} (e, p) (1, 15)
      → expander_label_parse size label ≢ some (1, 15)
  special_label label e p is other q =
      if_ind (λ (o : Option (ℕ × ℕ)). o ≢ some (1, 15))
        (ltb e size.max_count && ltb p size.pin_count) (λ _ r. other (ground (arith, r)))
        (λ _ r. absurd (ground (arith, r))) (sym is ∙ q)

  k_special-AllSpecial : AllSpecial k_special
  unfolding expander_label_parse scan_second scan_int scan_signed scan_digits skip_while starts
      bytes_eq read_number decimal_digit
  k_special-AllSpecial = (
    λ _. inr (special_label (codes "E0_0") 0 0 refl (λ q. absurd (ground (arith, q)))),
    (
      λ _. inr (special_label (codes "E0_1") 0 1 refl (λ q. absurd (ground (arith, q)))),
      (
        λ _. inr (special_label (codes "E0_2") 0 2 refl (λ q. absurd (ground (arith, q)))),
        (
          λ _. inr (special_label (codes "E0_3") 0 3 refl (λ q. absurd (ground (arith, q)))),
          (
            λ _. inr (special_label (codes "E0_4") 0 4 refl (λ q. absurd (ground (arith, q)))),
            (
              λ _. inr (special_label (codes "E0_5") 0 5 refl (λ q. absurd (ground (arith, q)))),
              (
                λ _.
                    inr (special_label (codes "E0_15") 0 15 refl (λ q. absurd (ground (arith, q)))),
                (
                  λ _. inl refl,
                  (
                    λ _.
                        inr (
                          special_label (codes "E2_15") 2 15 refl
                            (λ q. absurd (ground (arith, q)))),
                    tt,
                  ),
                ),
              ),
            ),
          ),
        ),
      ),
    ),
  )

  collect_dut_pins-AllLeave :
      (pins : List (List ℕ × Gpio)) (inited : Bool) → AllLeave (collect_dut_pins pins inited)
  unfolding collect_dut_pins
  collect_dut_pins-AllLeave pins inited =
      let rows = header_rows-AllLeave pins [] tt in
      if_ind AllLeave inited
        (λ _.
          special_rows-AllLeave k_special _ k_special-AllSpecial
            (pull_rows-AllLeave k_pull_map _ rows))
        (λ _. rows)

module _ {W : Type 0} {A : Type 0} (h : PinHost W) (power : W → A) (law : IsPowerLine h power)
    (size : ExpanderSize) where
  reset_power :
      (inited : Bool) (label : List ℕ) (w : W)
      → expander_label_parse size label ≢ some (1, 15)
      → power (elim (if inited then expander_label_parse size label else none) as (λ _. W) [
        | none ↦ w
        | some (e, p) ↦ (h.expander_set_dir e p input w).1
      ])
        ≡ power w
  reset_power false label w ne = refl
  reset_power true label w ne = elim (Option-cases (expander_label_parse size label)) [
    | inl e ↦ rw e refl
    | inr (at, e) ↦ rw e (law.other_keeps at.0 at.1 input w (λ q. ne (e ∙ ap some q)))
  ]

  init_direction_power :
      (inited : Bool) (pin : PinEntry) (w : W)
      → Leaves size pin
      → power (init_direction h size inited pin w).1 ≡ power w
  unfolding init_direction
  init_direction_power inited pin w leaves = elim (Gpio-cases pin.gpio) [
    | inl (n, e) ↦ rw (init_direction, e) (law.gpio_keeps n input w)
    | inr (inl e) ↦ rw (init_direction, e) refl
    | inr (inr e) ↦
        rw (init_direction, e)
          (if_ind (λ (r : PinEntry × W). power r.1 ≡ power w) (is_usb_power pin) (λ _. refl)
            (λ other. elim (leaves e) [
              | inl marked ↦ absurd (ground (arith, marked, other))
              | inr ne ↦ reset_power inited pin.label w ne
            ]))
  ]

  init_dut_pin_directions_power :
      (inited : Bool) (pins : List PinEntry) (w : W)
      → AllLeave size pins
      → power (init_dut_pin_directions h size inited pins w).1 ≡ power w
  unfolding init_dut_pin_directions
  init_dut_pin_directions_power inited [] w all = refl
  init_dut_pin_directions_power inited (pin ∷ pins) w all =
      let (_, w1) = init_direction h size inited pin w in
      init_dut_pin_directions_power inited pins w1 all.1 ∙ init_direction_power inited pin w all.0

  -- Over a hardware where what stands for the power line changes with the direction of pin 15 of
  -- expander 1 only: the set-up of the table and of the directions leaves the power line as it was,
  -- whatever pins the board has.
  pub init_pins_power :
      (board_pins : List (List ℕ × Gpio)) (w : W)
      → power (init_pins h size board_pins w).1 ≡ power w
  unfolding init_pins
  init_pins_power board_pins w =
      let inited = h.expander_is_initialized w in
      init_dut_pin_directions_power inited (collect_dut_pins board_pins inited) w
        (collect_dut_pins-AllLeave size board_pins inited)
