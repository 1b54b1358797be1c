-- ===== src/Naming.antt =====
-- main/device_naming.c: the host name, the board's id and the names of the devices, in the non-volatile
-- storage. `nvs_*` is the ESP-IDF library, the operations of `Nvs` over its state `U`. A text is the list
-- of its characters before the NUL.
pub mod Keys
pub mod Stored
use esp_usbip_bridge.Base.{
  ℕ, ◌+◌, ◌-◌, ◌*◌, ◌/◌, ◌%◌, List, [], ◌∷◌, ◌++◌, Option, none, some, Bool, true, false, not, ◌&&◌,
  ltb, ◌==◌, if◌then◌else◌, take, length, codes, byte_at, hex_digit,
}
use esp_usbip_bridge.Esp.{EspErr, esp_ok, esp_err_invalid_arg, esp_err_nvs_not_found, is_ok}

-- A namespace is opened for reading and writing, or for reading.
pub record Nvs (U : Type 0) : Type 0 where
  pub open_rw : U → EspErr × U
  pub open_ro : U → EspErr × U
  -- The value of a key into a buffer of so many bytes; nothing on an error.
  pub get_str : List ℕ → ℕ → U → EspErr × List ℕ
  pub set_str : List ℕ → List ℕ → U → EspErr × U
  pub erase_key : List ℕ → U → EspErr × U
  pub commit : U → EspErr × U
  pub close : U → U
  -- `esp_efuse_mac_get_default`.
  pub mac : U → EspErr × List ℕ

-- `%02x` of a byte.
unfoldable pub hex_byte : ℕ → List ℕ
unfolding hex_digit
hex_byte b = hex_digit (b / 16) ∷ hex_digit (b % 16) ∷ []

unfoldable pub hex_text : List ℕ → List ℕ
unfolding hex_byte
hex_text [] = []
hex_text (b ∷ bs) = hex_byte b ++ hex_text bs

-- "name_" and the bus id in hexadecimal, or the empty text when that does not fit.
unfoldable pub device_name_key : List ℕ → ℕ → List ℕ
unfolding hex_text
device_name_key busid key_size =
    if ltb key_size (5 + length busid * 2 + 1) then [] else codes "name_" ++ hex_text busid

abbrev pub key_hostname : List ℕ
key_hostname = codes "hostname"

abbrev pub key_board_id : List ℕ
key_board_id = codes "board_id"

abbrev pub is_empty : List ℕ → Bool
is_empty xs = length xs == 0

module _ {U : Type 0} (nvs : Nvs U) where
  unfoldable pub default_hostname : ℕ → U → List ℕ
  unfolding hex_byte
  default_hostname buf_size u =
      let (err, mac) = nvs.mac u in
      take (buf_size - 1) (
        if is_ok err
        then codes "usbip-"
          ++ hex_byte (byte_at mac 3)
          ++ hex_byte (byte_at mac 4)
          ++ hex_byte (byte_at mac 5)
        else codes "usbip-000000")

  -- A buffer that is NULL has size 0 here.
  unfoldable pub get_hostname : ℕ → U → EspErr × List ℕ × U
  unfolding default_hostname
  get_hostname buf_size u =
      let (opened, u1) = nvs.open_ro u in
      let (err, buf) = nvs.get_str key_hostname buf_size u1 in
      let u2 = nvs.close u1 in
      if ltb buf_size 1
      then (esp_err_invalid_arg, [], u)
      else if not (is_ok opened)
      then (esp_ok, default_hostname buf_size u1, u1)
      else if is_ok err && ltb 0 (length buf)
      then (esp_ok, buf, u2)
      else (esp_ok, default_hostname buf_size u2, u2)

  -- The common part of the three setters: the empty text erases the key.
  unfoldable pub store_value : List ℕ → List ℕ → U → EspErr × U
  store_value key value u =
      let (opened, u1) = nvs.open_rw u in
      let (err, u2) = if is_empty value then nvs.erase_key key u1 else nvs.set_str key value u1 in
      let (err', u3) = nvs.commit u2 in
      if not (is_ok opened)
      then (opened, u1)
      else if is_ok err
      then (err', nvs.close u3)
      else (err, nvs.close u2)

  unfoldable pub set_hostname : Option (List ℕ) → U → EspErr × U
  unfolding store_value
  set_hostname none u = (esp_err_invalid_arg, u)
  set_hostname (some hostname) u = store_value key_hostname hostname u

  unfoldable pub get_board_id : ℕ → U → EspErr × List ℕ × U
  get_board_id buf_size u =
      let (opened, u1) = nvs.open_ro u in
      let (err, buf) = nvs.get_str key_board_id buf_size u1 in
      let u2 = nvs.close u1 in
      if ltb buf_size 1
      then (esp_err_invalid_arg, [], u)
      else if not (is_ok opened)
      then (opened, [], u1)
      else if is_ok err
      then (esp_ok, buf, u2)
      else (esp_ok, [], u2)

  unfoldable pub set_board_id : Option (List ℕ) → U → EspErr × U
  unfolding store_value
  set_board_id none u = (esp_err_invalid_arg, u)
  set_board_id (some board_id) u = store_value key_board_id board_id u

  -- The keys are built in a buffer of 64 bytes.
  unfoldable pub get_device_name : Option (List ℕ) → ℕ → U → EspErr × List ℕ × U
  unfolding device_name_key
  get_device_name none buf_size u = (esp_err_invalid_arg, [], u)
  get_device_name (some busid) buf_size u =
      let key = device_name_key busid 64 in
      let (opened, u1) = nvs.open_ro u in
      let (err, buf) = nvs.get_str key buf_size u1 in
      if ltb buf_size 1
      then (esp_err_invalid_arg, [], u)
      else if is_empty key
      then (esp_err_invalid_arg, [], u)
      else if not (is_ok opened)
      then (esp_err_nvs_not_found, [], u1)
      else (err, buf, nvs.close u1)

  unfoldable pub set_device_name : Option (List ℕ) → Option (List ℕ) → U → EspErr × U
  unfolding device_name_key store_value
  set_device_name none name u = (esp_err_invalid_arg, u)
  set_device_name (some busid) none u = (esp_err_invalid_arg, u)
  set_device_name (some busid) (some name) u =
      let key = device_name_key busid 64 in
      if is_empty key then (esp_err_invalid_arg, u) else store_value key name u
