-- ===== src/Start/Power.antt =====
-- main/usb_backend.c and main/http_server.c: the power of the bus, which the backend's start turns on, is on
-- after the set-up of the pins.
use esp_usbip_bridge.Base.{ℕ, ◌≡◌, ◌∙◌, List, Bool, true, not, if_ind, arith}
use esp_usbip_bridge.Esp.{EspErr, is_ok}
use esp_usbip_bridge.Http.Pins.{Gpio, Dir, output, PinHost, ExpanderSize}
use esp_usbip_bridge.Http.PinTable.{init_pins}
use esp_usbip_bridge.Http.PinTable.Power.{IsPowerLine, init_pins_power}
use esp_usbip_bridge.Start.{p4hil_usb_power_init}

-- The direction of the power line, pin 15 of expander 1, is the one last set with success; a level leaves it.
pub record IsSwitch {W : Type 0} (h : PinHost W) (power : W → Dir) : Type 0 where
  pub set_ok :
      (d : Dir) (w : W)
      → is_ok (h.expander_set_dir 1 15 d w).0 ≡ true
      → power (h.expander_set_dir 1 15 d w).1 ≡ d
  pub write_keeps : (e p : ℕ) (v : Bool) (w : W) → power (h.expander_write_pin e p v w).1 ≡ power w

module _ {W : Type 0} (h : PinHost W) (power : W → Dir) (switch : IsSwitch h power)
    (line : IsPowerLine h power) where
  init_on :
      (w : W)
      → is_ok (p4hil_usb_power_init h 1 15 w).0 ≡ true
      → power (p4hil_usb_power_init h 1 15 w).1 ≡ output
  unfolding p4hil_usb_power_init
  init_on w =
      let P : EspErr × W → Type 0 = λ r. is_ok r.0 ≡ true → power r.1 ≡ output in
      let (err1, w1) = h.expander_set_dir 1 15 output w in
      if_ind P (not (h.expander_is_initialized w)) (λ q g. absurd (ground (arith, q, g)))
        (λ _.
          if_ind P (not (is_ok err1)) (λ q g. absurd (ground (arith, q, g)))
            (λ q _. switch.write_keeps 1 15 true w1 ∙ switch.set_ok output w (ground (arith, q))))

  -- Once the backend has turned the power on, the set-up of the pins leaves the line an output.
  pub init_pins-on :
      (size : ExpanderSize) (board_pins : List (List ℕ × Gpio)) (w : W)
      → is_ok (p4hil_usb_power_init h 1 15 w).0 ≡ true
      → power (init_pins h size board_pins (p4hil_usb_power_init h 1 15 w).1).1 ≡ output
  init_pins-on size board_pins w ok =
      init_pins_power h power line size board_pins (p4hil_usb_power_init h 1 15 w).1 ∙ init_on w ok
