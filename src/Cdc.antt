-- ===== src/Cdc.antt =====
-- main/virtual_cdc.c: the control and data transfers of a CDC-ACM virtual device. The numbers of the
-- USB requests and descriptor types are those of the USB specification (usb_types_ch9.h).
pub mod Strings
pub mod Control
pub mod Data
use esp_usbip_bridge.Base.{
  ℕ, zero, suc, ◌+◌, ◌-◌, ◌*◌, ◌/◌, ◌%◌, List, [], ◌∷◌, ◌++◌, Option, none, some, Bool, true, false,
  ◌&&◌, ◌||◌, not, length, take, min, u8, byte_at, ltb, leb, ◌==◌, if◌then◌else◌,
}
use esp_usbip_bridge.Errno.{Status, success, failure, Errno}

-- The stream buffers are FreeRTOS's: a send returns how many bytes it took, a receive the bytes.
pub record StreamBuffers (B : Type 0) : Type 0 where
  pub stream_send : List ℕ → B → ℕ × B
  pub stream_receive : ℕ → B → List ℕ × B

-- `virtual_cdc_ctx_t`. A string may be NULL.
pub record CdcCtx (B : Type 0) : Type 0 where
  pub rx : B
  pub tx : B
  pub device_desc : List ℕ
  pub config_desc : List ℕ
  pub config_desc_len : ℕ
  pub str_manufacturer : Option (List ℕ)
  pub str_product : Option (List ℕ)
  pub str_serial : Option (List ℕ)
  pub bulk_in_ep : ℕ
  pub bulk_out_ep : ℕ
  pub notify_ep : ℕ
  pub current_config : ℕ
  pub line_coding : List ℕ

-- `usb_setup_packet_t`, eight bytes with its words in little-endian order.
abbrev pub bm_request_type : List ℕ → ℕ
bm_request_type s = byte_at s 0

abbrev pub b_request : List ℕ → ℕ
b_request s = byte_at s 1

abbrev pub w_value : List ℕ → ℕ
w_value s = byte_at s 3 * 256 + byte_at s 2

abbrev pub desc_type_string : ℕ
desc_type_string = 3

-- `req_type & USB_BM_REQUEST_TYPE_TYPE_MASK` (0x60), as the number of the type.
abbrev pub request_type : ℕ → ℕ
request_type b = b / 32 % 4

-- The characters as UTF-16 code units.
unfoldable pub utf16 : List ℕ → List ℕ
utf16 [] = []
utf16 (c ∷ cs) = u8 c ∷ 0 ∷ utf16 cs

-- The length that is returned and the bytes that are written. The callers pass a buffer of 128 bytes;
-- below 2 bytes `desc_len - 2` would wrap.
unfoldable pub make_string_desc : Option (List ℕ) → ℕ → ℕ × List ℕ
unfolding utf16
make_string_desc none buf_size = if ltb buf_size 2 then (0, []) else (2, 2 ∷ desc_type_string ∷ [])
make_string_desc (some str) buf_size =
    let full = 2 + length str * 2 in
    let capped = (if ltb buf_size 255 then buf_size else 254) / 2 * 2 in
    if ltb 255 full || ltb buf_size full
    then (capped, u8 capped ∷ desc_type_string ∷ utf16 (take ((capped - 2) / 2) str))
    else (full, u8 full ∷ desc_type_string ∷ utf16 str)

abbrev pub s_lang_desc : List ℕ
s_lang_desc = 4 ∷ desc_type_string ∷ 0x09 ∷ 0x04 ∷ []

-- `len` bytes of a descriptor, as far as the IN buffer has room; `*in_len` is their number.
unfoldable pub copy_desc : ℕ → ℕ → List ℕ → Status × List ℕ
copy_desc len in_capacity desc =
    (success, take (if ltb in_capacity len then in_capacity else len) desc)

abbrev pub Handled : Type 0 → Type 0
Handled B = Status × List ℕ × CdcCtx B

module _ {B : Type 0} where
  -- The `DESC_TYPE_STRING` case: the descriptor in `tmp`, or `none` for an unknown index.
  unfoldable pub string_desc : CdcCtx B → ℕ → Option (ℕ × List ℕ)
  unfolding make_string_desc
  string_desc c index =
      if index == 0
      then some (4, s_lang_desc)
      else if index == 1
      then some (make_string_desc c.str_manufacturer 128)
      else if index == 2
      then some (make_string_desc c.str_product 128)
      else if index == 3
      then some (make_string_desc c.str_serial 128)
      else none

  unfoldable pub handle_get_descriptor : CdcCtx B → List ℕ → ℕ → Status × List ℕ
  unfolding string_desc copy_desc
  handle_get_descriptor c setup in_capacity =
      let desc_type = u8 (w_value setup / 256) in
      let desc_index = w_value setup % 256 in
      if desc_type == 1
      then copy_desc 18 in_capacity c.device_desc
      else if desc_type == 2
      then copy_desc c.config_desc_len in_capacity c.config_desc
      else if desc_type == desc_type_string
      then elim (string_desc c desc_index) [
        | none ↦ (failure Errno.epipe, [])
        | some (len, desc) ↦
            if len == 0 then (failure Errno.epipe, []) else copy_desc len in_capacity desc
      ]
      else (failure Errno.epipe, [])

  -- The `switch` of the standard device requests.
  unfoldable pub standard_request : CdcCtx B → List ℕ → ℕ → Handled B
  unfolding handle_get_descriptor
  standard_request c setup in_capacity =
      let req = b_request setup in
      let (status, bytes) = handle_get_descriptor c setup in_capacity in
      if req == 0x06
      then (status, bytes, c)
      else if req == 0x09
      then (success, [], record c { current_config = w_value setup % 256 })
      else if req == 0x08
      then (success, if leb 1 in_capacity then c.current_config ∷ [] else [], c)
      else if req == 0x0B
      then (success, [], c)
      else if req == 0x00
      then (success, if leb 2 in_capacity then 0 ∷ 0 ∷ [] else [], c)
      else if req == 0x01 || req == 0x03
      then (success, [], c)
      else (failure Errno.epipe, [], c)

  -- The `switch` of the CDC class requests.
  unfoldable pub class_request : CdcCtx B → List ℕ → List ℕ → ℕ → Handled B
  class_request c setup out_data in_capacity =
      let req = b_request setup in
      if req == 0x20
      then (
        success,
        [],
        if leb 7 (length out_data) then record c { line_coding = take 7 out_data } else c,
      )
      else if req == 0x21
      then (success, if leb 7 in_capacity then take 7 c.line_coding else [], c)
      else if req == 0x22
      then (success, [], c)
      else (failure Errno.epipe, [], c)

  unfoldable pub cdc_control_transfer : CdcCtx B → List ℕ → List ℕ → ℕ → Handled B
  unfolding standard_request class_request
  cdc_control_transfer c setup out_data in_capacity =
      let kind = request_type (bm_request_type setup) in
      if kind == 0
      then standard_request c setup in_capacity
      else if kind == 1
      then class_request c setup out_data in_capacity
      else (failure Errno.epipe, [], c)

  module _ (buffers : StreamBuffers B) where
    -- What the receiving buffer does not take within the timeout is dropped: the result is not read.
    unfoldable pub cdc_data_transfer : CdcCtx B → ℕ → List ℕ → ℕ → Handled B
    cdc_data_transfer c ep_addr out_data in_capacity =
        let (_, rx') = buffers.stream_send out_data c.rx in
        let (bytes, tx') = buffers.stream_receive in_capacity c.tx in
        if ep_addr == c.bulk_out_ep
        then (success, [], if ltb 0 (length out_data) then record c { rx = rx' } else c)
        else if ep_addr == c.bulk_in_ep
        then (success, bytes, record c { tx = tx' })
        else if ep_addr == c.notify_ep
        then (success, [], c)
        else (failure Errno.epipe, [], c)
