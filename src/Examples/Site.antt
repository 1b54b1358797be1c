-- ===== src/Examples/Site.antt =====
-- A site for the web server: its peer takes nine bytes at a time, it has a pin and a wire, and a storage
-- with the name of the host.
use esp_usbip_bridge.Base.{
  ℕ, zero, suc, ◌≤◌, ◌≡◌, ◌≢◌, refl, ap, List, [], ◌∷◌, ◌++◌, Option, none, some, true, false,
  arith, codes, length, take, min, if◌then◌else◌, bytes_eq, ◌&&◌, ◌==◌, if_ind, ap₂,
}
use esp_usbip_bridge.Esp.{esp_ok, esp_err_nvs_not_found}
use esp_usbip_bridge.Naming.{Nvs}
use esp_usbip_bridge.Discovery.{Mdns, snapshot_of}
use esp_usbip_bridge.Http.{SendResult, HttpSocket, IsHttpSocket, IsLive}
use esp_usbip_bridge.Http.Pins.{native, Dir, input, output, PinEntry, PinHost, ExpanderSize}
use esp_usbip_bridge.Http.PinTable.Power.{IsPowerLine}
use esp_usbip_bridge.Http.Host.{HttpHost, HttpConfig, HttpState}
use esp_usbip_bridge.Http.Config.{}
use esp_usbip_bridge.Http.Lists.Written.{}
use esp_usbip_bridge.Http.Handlers.Drive.{IsGpio}

-- What went out, the modes and the latches of the GPIOs, and the direction of the power line.
pub record Site : Type 0 where
  pub out : List ℕ
  pub mode : ℕ → Dir
  pub latch : ℕ → ℕ
  pub power : Dir

abbrev pub site : Site
site = record { out = []; mode = λ n. input; latch = λ n. 0; power = output }

abbrev pub site_send : List ℕ → Site → SendResult × Site
site_send [] w = (SendResult.closed, w)
site_send (b ∷ bs) w =
    (SendResult.taken (min 9 (suc (length bs))), record w { out = w.out ++ take 9 (b ∷ bs) })

abbrev pub site_socket : HttpSocket Site
site_socket = record { send = site_send; sent = λ w. w.out }

pub take-min : (n : ℕ) (xs : List ℕ) → take n xs ≡ take (min n (length xs)) xs
take-min zero xs = let e : min 0 (length xs) ≡ 0 = omega arith in rw e refl
take-min (suc n) [] = let e : min (suc n) 0 ≡ 0 = omega arith in rw e refl
take-min (suc n) (x ∷ xs) =
    let e : min (suc n) (suc (length xs)) ≡ suc (min n (length xs)) = omega arith in
    rw e (ap (λ l. x ∷ l) (take-min n xs))

pub site_taken :
    (bs : List ℕ) (w : Site) (n : ℕ)
    → (site_send bs w).0 ≡ SendResult.taken n
    → (1 ≤ n) × ((site_send bs w).1.out ≡ w.out ++ take n bs)
site_taken [] w n e = absurd (ground (arith, e))
site_taken (b ∷ bs) w n e =
    let is : min 9 (suc (length bs)) ≡ n = ground (arith, e) in
    (omega (arith, is), rw (← is) (ap (λ t. w.out ++ t) (take-min 9 (b ∷ bs))))

pub site_interrupted :
    (bs : List ℕ) (w : Site)
    → (site_send bs w).0 ≡ SendResult.interrupted
    → (site_send bs w).1.out ≡ w.out
site_interrupted [] w e = refl
site_interrupted (b ∷ bs) w e = absurd (ground (arith, e))

pub site_failed : (bs : List ℕ) (w : Site) → (site_send bs w).0 ≢ SendResult.failed 0
site_failed [] w e = ground (arith, e)
site_failed (b ∷ bs) w e = ground (arith, e)

pub site_socket-IsHttpSocket : IsHttpSocket site_socket
site_socket-IsHttpSocket = record {
  sent_taken = site_taken;
  sent_interrupted = site_interrupted;
  failed_errno = site_failed;
}

pub site_socket-IsLive : IsLive site_socket
site_socket-IsLive = record { takes = λ b bs w. (min 9 (suc (length bs)), refl) }

-- Two expanders, whose pin (1, 15) is the power line.
abbrev pub site_pins : PinHost Site
site_pins = record {
  gpio_get_level = λ n w. w.latch n;
  gpio_config = λ n d w. (esp_ok, record w { mode = λ m. if m == n then d else w.mode m });
  gpio_set_level = λ n v w. record w { latch = λ m. if m == n then v else w.latch m };
  expander_is_initialized = λ w. true;
  expander_read_pin = λ e p w. none;
  expander_set_dir =
      λ e p d w. (esp_ok, record w { power = if e == 1 && p == 15 then d else w.power });
  expander_write_pin = λ e p v w. (esp_ok, w);
  expander_get_dir_all = λ e w. none;
}

abbrev pub sizes : ExpanderSize
sizes = record { max_count = 3; pin_count = 16 }

pub site_pins-IsGpio : IsGpio site_pins (λ n w. w.mode n) (λ n w. w.latch n)
site_pins-IsGpio = record {
  mode_ok = λ n d w ok. ground arith;
  mode_keeps = λ n v w. refl;
  latch_set = λ n v w. ground arith;
}

pub site_power :
    (e p : ℕ) (d : Dir) (w : Site)
    → ◌≢◌ {A = ℕ × ℕ} (e, p) (1, 15)
    → (site_pins.expander_set_dir e p d w).1.power ≡ w.power
site_power e p d w ne =
    if_ind (λ x. x ≡ w.power) (e == 1 && p == 15)
      (λ is. absurd (ne (ap₂ (λ (a b : ℕ). (a, b)) (ground (arith, is)) (ground (arith, is)))))
      (λ _. refl)

pub site_pins-IsPowerLine : IsPowerLine site_pins (λ w. w.power)
site_pins-IsPowerLine = record { gpio_keeps = λ n d w. refl; other_keeps = site_power }

-- A storage that holds the name of the host only, and takes whatever is set.
abbrev pub site_nvs : Nvs Site
site_nvs = record {
  open_rw = λ w. (esp_ok, w);
  open_ro = λ w. (esp_ok, w);
  get_str = λ k size w.
      if bytes_eq k (codes "hostname")
      then (esp_ok, codes "bench")
      else (esp_err_nvs_not_found, []);
  set_str = λ k v w. (esp_ok, w);
  erase_key = λ k w. (esp_ok, w);
  commit = λ w. (esp_ok, w);
  close = λ w. w;
  mac = λ w. (esp_ok, 1 ∷ 2 ∷ 3 ∷ 4 ∷ 5 ∷ 6 ∷ []);
}

abbrev pub site_mdns : Mdns Site
site_mdns = record {
  init = λ w. (esp_ok, w);
  hostname_set = λ s w. (esp_ok, w);
  instance_name_set = λ s w. (esp_ok, w);
  service_add = λ items w. (esp_ok, w);
  service_txt_set = λ items w. (esp_ok, w);
  task_create = λ w. (true, w);
}

-- The pin `T1` has the wire `clk`.
abbrev pub site_wire : List ℕ → Option (List ℕ)
site_wire label = if bytes_eq label (codes "T1") then some (codes "clk") else none

abbrev pub site_host : HttpHost Site
site_host = record {
  sock = site_socket;
  pin_host = site_pins;
  nvs = site_nvs;
  mdns = site_mdns;
  dut_get_wire = λ label w. site_wire label;
  dut_set_wire = λ label wire w. (esp_ok, w);
  neopixel_show_white_10s = λ w. w;
}

abbrev pub site_config : HttpConfig
site_config = record {
  target = codes "esp32s3";
  board_name = codes "devkit";
  max_label_len = 32;
  expanders = sizes;
  interruptions = 0;
}

abbrev pub pin_t1 : PinEntry
pin_t1 = record { label = codes "T1"; gpio = native 7; pull_exp = none; desc = none; dir = input }

abbrev pub site_state : HttpState
site_state = record {
  pins = record { entries = pin_t1 ∷ []; expander_inited = false };
  discovery = record { last_snapshot = snapshot_of []; board_id = [] };
}
