-- ===== src/Network.antt =====
-- main/network_init.c, the Wi-Fi side: the console that asks for the credentials, the credentials in the
-- storage, and the event handler that retries. What is typed is the list of what `fgetc` returns, nothing
-- standing for EOF; a result of nothing means that the code still waits. `Console` is about what is typed,
-- `Attempts` about the retries, `Credentials` about the storage.
pub mod Console
pub mod Attempts
pub mod Credentials
use esp_usbip_bridge.Base.{
  ℕ, zero, suc, ◌-◌, ◌+◌, List, [], ◌∷◌, ◌++◌, Option, none, some, Bool, true, false, not, ◌&&◌,
  ◌||◌, length, take, ◌==◌, leb, ltb, if◌then◌else◌, codes, c_string,
}
use esp_usbip_bridge.Esp.{EspErr, esp_ok, esp_fail, is_ok}
use esp_usbip_bridge.Naming.{Nvs}
use esp_usbip_bridge.Http.Json.{◌>>=◌}

abbrev pub Typed : Type 0
Typed = List (Option ℕ)

abbrev pub wifi_cred_max_len : ℕ
wifi_cred_max_len = 64

abbrev pub ends_line : ℕ → Bool
ends_line c = c == 10 || c == 13

abbrev pub erases : ℕ → Bool
erases c = c == 8 || c == 127

-- The loop, for a buffer of `room + 1` bytes that holds `line`: the line, and what was typed behind it.
unfoldable pub uart_read_line : ℕ → Typed → List ℕ → Option (List ℕ × Typed)
uart_read_line room [] line = if leb room (length line) then some (line, []) else none
uart_read_line room (none ∷ typed) line =
    let rest = uart_read_line room typed line in
    if leb room (length line) then some (line, none ∷ typed) else rest
uart_read_line room (some c ∷ typed) line =
    let shorter = take (length line - 1) line in
    let next = uart_read_line room typed (if erases c then shorter else line ++ (c ∷ [])) in
    if leb room (length line)
    then some (line, some c ∷ typed)
    else if ends_line c
    then some (line, typed)
    else next

-- With the number of polls before the deadline.
unfoldable pub uart_wait_for_keypress : ℕ → Typed → Bool × Typed
uart_wait_for_keypress zero typed = (false, typed)
uart_wait_for_keypress (suc polls) [] = (false, [])
uart_wait_for_keypress (suc polls) (none ∷ typed) = uart_wait_for_keypress polls typed
uart_wait_for_keypress (suc polls) (some c ∷ typed) = (true, typed)

-- `while (true)` until the line is not empty. A line that is empty has taken a character, so one round more
-- than there are characters is enough.
unfoldable pub prompt_ssid : ℕ → Typed → Option (List ℕ × Typed)
unfolding uart_read_line
prompt_ssid zero typed = none
prompt_ssid (suc rounds) typed = elim (uart_read_line (wifi_cred_max_len - 1) typed []) [
  | none ↦ none
  | some (line, rest) ↦
      let again = prompt_ssid rounds rest in
      if ltb 0 (length (c_string line)) then some (c_string line, rest) else again
]

-- The two credentials, and what was typed behind them.
unfoldable pub wifi_prompt_credentials : Typed → Option (List ℕ × List ℕ × Typed)
unfolding prompt_ssid uart_read_line
wifi_prompt_credentials typed = do
  (ssid, typed1) ← prompt_ssid (suc (length typed)) typed
  (line, typed2) ← uart_read_line (wifi_cred_max_len - 1) typed1 []
  some (ssid, c_string line, typed2)

abbrev pub key_ssid : List ℕ
key_ssid = codes "ssid"

abbrev pub key_pass : List ℕ
key_pass = codes "pass"

module _ {U : Type 0} (nvs : Nvs U) where
  unfoldable pub wifi_creds_save : List ℕ → List ℕ → U → EspErr × U
  wifi_creds_save ssid password u =
      let (opened, u1) = nvs.open_rw u in
      let (err1, u2) = nvs.set_str key_ssid ssid u1 in
      let (err2, u3) = nvs.set_str key_pass password u2 in
      let (err3, u4) = nvs.commit u3 in
      if not (is_ok opened)
      then (opened, u1)
      else if not (is_ok err1)
      then (err1, nvs.close u2)
      else if not (is_ok err2)
      then (err2, nvs.close u3)
      else (err3, nvs.close u4)

  unfoldable pub wifi_creds_load : U → EspErr × List ℕ × List ℕ × U
  wifi_creds_load u =
      let (opened, u1) = nvs.open_ro u in
      let (err1, ssid) = nvs.get_str key_ssid wifi_cred_max_len u1 in
      let (err2, password) = nvs.get_str key_pass wifi_cred_max_len u1 in
      if not (is_ok opened)
      then (opened, [], [], u1)
      else if not (is_ok err1)
      then (err1, ssid, [], nvs.close u1)
      else (err2, ssid, password, nvs.close u1)

  -- The credentials to try: the stored ones, those of the configuration, or those that are typed, which
  -- are stored.
  unfoldable pub choose_credentials :
      ℕ → List ℕ → List ℕ → Typed → U → Option (List ℕ × List ℕ × Typed × U)
  unfolding wifi_creds_load wifi_creds_save wifi_prompt_credentials uart_wait_for_keypress
  choose_credentials polls config_ssid config_password typed u =
      let (err, saved_ssid, saved_password, u1) = wifi_creds_load u in
      let saved = is_ok err && ltb 0 (length saved_ssid) in
      let configured = ltb 0 (length config_ssid) in
      let size = wifi_cred_max_len - 1 in
      let ssid = if saved then saved_ssid else take size config_ssid in
      let password = if saved then saved_password else take size config_password in
      let (pressed, typed1) = uart_wait_for_keypress polls typed in
      let asked : Typed → Option (List ℕ × List ℕ × Typed × U) = λ t.
        elim (wifi_prompt_credentials t) [
          | none ↦ none
          | some (s, p, t') ↦ some (s, p, t', (wifi_creds_save s p u1).1)
        ] in
      if saved || configured
      then if pressed then asked typed1 else some (ssid, password, typed1, u1)
      else asked typed

pub data WifiEvent : Type 0 where
  sta_start sta_disconnected sta_got_ip : WifiEvent

-- `s_wifi_retry_count`, the two bits of `s_wifi_event_group`, and the number of calls of
-- `esp_wifi_connect`.
pub record Wifi : Type 0 where
  pub retry_count : ℕ
  pub connected : Bool
  pub failed : Bool
  pub connects : ℕ

unfoldable pub wifi_event_handler : ℕ → WifiEvent → Wifi → Wifi
wifi_event_handler max_retry sta_start s = record s { connects = s.connects + 1 }
wifi_event_handler max_retry sta_disconnected s =
    if ltb s.retry_count max_retry
    then record s { connects = s.connects + 1; retry_count = s.retry_count + 1 }
    else record s { failed = true }
wifi_event_handler max_retry sta_got_ip s = record s { retry_count = 0; connected = true }

-- `xEventGroupWaitBits`: the events that are handled until one of the bits is set.
unfoldable pub wait_bits : ℕ → List WifiEvent → Wifi → Option (Wifi × List WifiEvent)
unfolding wifi_event_handler
wait_bits max_retry [] s = if s.connected || s.failed then some (s, []) else none
wait_bits max_retry (e ∷ es) s =
    let rest = wait_bits max_retry es (wifi_event_handler max_retry e s) in
    if s.connected || s.failed then some (s, e ∷ es) else rest

-- The result, and the events that come after it. The calls of the driver abort on an error.
unfoldable pub wifi_attempt_connect :
    ℕ → List WifiEvent → Wifi → Option (EspErr × Wifi × List WifiEvent)
unfolding wait_bits
wifi_attempt_connect max_retry es s = do
  (s', rest) ←
      wait_bits max_retry es (record s { retry_count = 0; connected = false; failed = false })
  some (if s'.connected then esp_ok else esp_fail, s', rest)
