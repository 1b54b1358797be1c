-- ===== src/Examples/Cdc.antt =====
-- The theorems on the virtual serial port at concrete requests.
use esp_usbip_bridge.Base.{
  ℕ, ◌-◌, ◌/◌, ◌≡◌, refl, List, [], ◌∷◌, ◌++◌, none, some, arith, ◌⊎◌, length, take, drop, codes,
  min, byte_at, replicate,
}
use esp_usbip_bridge.Errno.{success}
use esp_usbip_bridge.Cdc.{StreamBuffers, CdcCtx, make_string_desc, cdc_control_transfer}
use esp_usbip_bridge.Cdc.Strings.{chars, room_for, make_string_desc_lem}
use esp_usbip_bridge.Cdc.Control.{
  Unchanged, SetsConfiguration, SetsLineCoding, control_changes, line_coding_roundtrip,
}

-- A stream buffer without a limit.
abbrev buffers : StreamBuffers (List ℕ)
buffers = record {
  stream_send = λ bs b. (length bs, b ++ bs);
  stream_receive = λ n b. (take n b, drop n b);
}

abbrev port : CdcCtx (List ℕ)
port = record {
  rx = [];
  tx = 104 ∷ 105 ∷ [];
  device_desc = replicate 18 1;
  config_desc = replicate 67 2;
  config_desc_len = 67;
  str_manufacturer = some (codes "Espressif");
  str_product = none;
  str_serial = none;
  bulk_in_ep = 129;
  bulk_out_ep = 2;
  notify_ep = 131;
  current_config = 0;
  line_coding = 0 ∷ 194 ∷ 1 ∷ 0 ∷ 0 ∷ 0 ∷ 8 ∷ [];
}

abbrev request : ℕ → ℕ → ℕ → List ℕ
request kind code value = kind ∷ code ∷ value ∷ 0 ∷ 0 ∷ 0 ∷ 0 ∷ 0 ∷ []

make_string_desc_example :
    let (len, desc) = make_string_desc (some (codes "hub")) 128 in
    (len ≡ min 8 (room_for 128))
    × (length desc ≡ len)
    × (byte_at desc 1 ≡ 3)
    × (chars desc ≡ len ∷ take ((len - 2) / 2) (codes "hub"))
make_string_desc_example =
    make_string_desc_lem (codes "hub") 128 (omega arith)
      (omega arith, (omega arith, (omega arith, tt)))

control_changes_example :
    let r = cdc_control_transfer port (request 0 9 1) [] 4 in
    Unchanged port r
    ⊎ (SetsConfiguration port (request 0 9 1) r ⊎ SetsLineCoding port (request 0 9 1) [] r)
control_changes_example = control_changes port (request 0 9 1) [] 4

abbrev fast_line : List ℕ
fast_line = 0 ∷ 132 ∷ 3 ∷ 0 ∷ 0 ∷ 0 ∷ 8 ∷ []

line_coding_roundtrip_example :
    let c' = (cdc_control_transfer port (request 33 32 0) fast_line 64).2 in
    cdc_control_transfer c' (request 161 33 0) [] 64 ≡ (success, take 7 fast_line, c')
line_coding_roundtrip_example =
    line_coding_roundtrip port (request 33 32 0) (request 161 33 0) fast_line 64 refl refl refl refl
      (omega arith) (omega arith)

abbrev nothing : List ℕ
nothing = []
