-- ===== src/Esp.antt =====
-- `esp_err_t`: the codes that the code returns or tests, and any other that a library call returns.
use esp_usbip_bridge.Base.{ℕ, Bool, true, false}

pub data EspErr : Type 0 where
  esp_ok : EspErr
  esp_fail : EspErr
  esp_err_no_mem : EspErr
  esp_err_invalid_arg : EspErr
  esp_err_invalid_state : EspErr
  esp_err_nvs_not_found : EspErr
  esp_err_other : ℕ → EspErr

abbrev pub is_ok : EspErr → Bool
is_ok EspErr.esp_ok = true
is_ok _ = false

abbrev pub is_invalid_state : EspErr → Bool
is_invalid_state EspErr.esp_err_invalid_state = true
is_invalid_state _ = false
