-- ===== src/Http/Handlers/Drive.antt =====
-- main/http_server.c: a post that sets the level of a GPIO pin.
use esp_usbip_bridge.Base.{
  ℕ, ◌≡◌, refl, ◌∙◌, List, some, Bool, true, bytes_eq, codes, if◌then◌else◌, Bool-cases, inl, inr,
}
use esp_usbip_bridge.Esp.{is_ok}
use esp_usbip_bridge.Http.Pins.{
  native, Dir, input, output, PinEntry, PinHost, config_pin, set_pin_level,
}
use esp_usbip_bridge.Http.Host.{HttpHost, HttpConfig}
use esp_usbip_bridge.Http.Handlers.{drive_pin}

-- The mode of a GPIO is the one that was last set with success, and its latch the level last set.
pub record IsGpio {W : Type 0} (h : PinHost W) (mode : ℕ → W → Dir) (latch : ℕ → W → ℕ)
    : Type 0 where
  pub mode_ok :
      (n : ℕ) (d : Dir) (w : W)
      → is_ok (h.gpio_config n d w).0 ≡ true
      → mode n (h.gpio_config n d w).1 ≡ d
  pub mode_keeps : (n v : ℕ) (w : W) → mode n (h.gpio_set_level n v w) ≡ mode n w
  pub latch_set : (n v : ℕ) (w : W) → latch n (h.gpio_set_level n v w) ≡ v

module _ {W : Type 0} (h : HttpHost W) (cfg : HttpConfig) (mode : ℕ → W → Dir) (latch : ℕ → W → ℕ)
    (law : IsGpio h.pin_host mode latch) where
  config_pin-native :
      (inited : Bool) (n : ℕ) (d : Dir) (pin : PinEntry) (w : W)
      → pin.gpio ≡ native n
      → is_ok (h.pin_host.gpio_config n d w).0 ≡ true
      → let (done, pin', w') = config_pin h.pin_host cfg.expanders inited d pin w in
        (pin'.gpio ≡ native n) × (pin'.dir ≡ d) × (mode n w' ≡ d)
  unfolding config_pin
  config_pin-native inited n d pin w e ok = rw (config_pin, e, ok) (e, refl, law.mode_ok n d w ok)

  set_pin_level-native :
      (inited : Bool) (n v : ℕ) (pin : PinEntry) (w : W)
      → pin.gpio ≡ native n
      → let (_, w') = set_pin_level h.pin_host cfg.expanders inited pin v w in
        (mode n w' ≡ mode n w) × (latch n w' ≡ v)
  unfolding set_pin_level
  set_pin_level-native inited n v pin w e =
      rw (set_pin_level, e) (law.mode_keeps n v w, law.latch_set n v w)

  -- For a GPIO whose configuration succeeds: a post that sets its level leaves it an input if the
  -- posted direction is `in`, and an output otherwise, in the table and in the hardware, with the
  -- posted level in its latch.
  pub drive_pin_lem :
      (inited : Bool) (direction : List ℕ) (n v : ℕ) (pin : PinEntry) (w : W)
      → pin.gpio ≡ native n
      → ((d : Dir) (u : W) → is_ok (h.pin_host.gpio_config n d u).0 ≡ true)
      → let (pin', w') = drive_pin h cfg inited direction (some v) pin w in
        let wanted = if bytes_eq direction (codes "in") then input else output in
        (pin'.dir ≡ wanted) × (mode n w' ≡ wanted) × (latch n w' ≡ v)
  unfolding drive_pin
  drive_pin_lem inited direction n v pin w e ok =
      elim (Bool-cases (bytes_eq direction (codes "in"))) [
        | inl is_in ↦
            let (_, p1, w1) = config_pin h.pin_host cfg.expanders inited input pin w in
            let (g, d, m) = config_pin-native inited n input pin w e (ok input w) in
            let (keeps, set) = set_pin_level-native inited n v p1 w1 g in
            rw is_in (d, keeps ∙ m, set)
        | inr other ↦ elim (Bool-cases (bytes_eq direction (codes "out"))) [
          | inl is_out ↦
              let (_, p1, w1) = config_pin h.pin_host cfg.expanders inited output pin w in
              let (g1, _, _) = config_pin-native inited n output pin w e (ok output w) in
              let (_, p2, w2) = config_pin h.pin_host cfg.expanders inited output p1 w1 in
              let (g, d, m) = config_pin-native inited n output p1 w1 g1 (ok output w1) in
              let (keeps, set) = set_pin_level-native inited n v p2 w2 g in
              rw (other, is_out) (d, keeps ∙ m, set)
          | inr none_given ↦
              let (_, p2, w2) = config_pin h.pin_host cfg.expanders inited output pin w in
              let (g, d, m) = config_pin-native inited n output pin w e (ok output w) in
              let (keeps, set) = set_pin_level-native inited n v p2 w2 g in
              rw (other, none_given) (d, keeps ∙ m, set)
        ]
      ]
