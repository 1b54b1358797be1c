-- ===== src/Examples/Network.antt =====
-- The theorems on the Wi-Fi set-up: a line that is too long, and a connection that fails.
use esp_usbip_bridge.Base.{◌≡◌, refl, [], ◌∷◌, ◌++◌, some, true, false, arith, codes}
use esp_usbip_bridge.Esp.{esp_fail}
use esp_usbip_bridge.Network.{uart_read_line, sta_start, Wifi, wifi_attempt_connect}
use esp_usbip_bridge.Network.Console.{keys, uart_read_line_lem}
use esp_usbip_bridge.Network.Attempts.{tries, attempt_fails}

-- In a buffer of four bytes the name `bench` is cut off, and its end is read for the password.
uart_read_line_example :
    uart_read_line 3 (keys (codes "bench") ++ (some 10 ∷ [])) []
    ≡ some (codes "ben", keys (codes "ch") ++ (some 10 ∷ []))
uart_read_line_example =
    uart_read_line_lem 3 10 (codes "bench") []
      (refl, refl, (refl, refl, (refl, refl, (refl, refl, (refl, refl, tt))))) refl

abbrev fresh : Wifi
fresh = record { retry_count = 0; connected = false; failed = false; connects = 0 }

attempt_fails_example :
    wifi_attempt_connect 3 (sta_start ∷ tries 5 []) fresh
    ≡ some (
      esp_fail,
      record { retry_count = 3; connected = false; failed = true; connects = 4 },
      tries 1 [],
    )
attempt_fails_example = attempt_fails 3 5 [] fresh (omega arith)
