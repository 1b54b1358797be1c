-- ===== src/Protocol.antt =====
-- main/usbip_protocol.h: the constants and the layout of the USB/IP messages. A packed struct is
-- the list of its bytes, as it goes over the socket; `usbip_header_t` is a list of 48 bytes.
use esp_usbip_bridge.Base.{ℕ, List, ◌++◌, take, drop}
use esp_usbip_bridge.Base.{be16, be32, read16, read32}

abbrev pub usbip_version : ℕ
usbip_version = 0x0111

abbrev pub op_req_import : ℕ
op_req_import = 0x8003

abbrev pub op_rep_import : ℕ
op_rep_import = 0x0003

abbrev pub op_req_devlist : ℕ
op_req_devlist = 0x8005

abbrev pub op_rep_devlist : ℕ
op_rep_devlist = 0x0005

abbrev pub cmd_submit : ℕ
cmd_submit = 1

abbrev pub cmd_unlink : ℕ
cmd_unlink = 2

abbrev pub ret_submit : ℕ
ret_submit = 3

abbrev pub ret_unlink : ℕ
ret_unlink = 4

abbrev pub dir_out : ℕ
dir_out = 0

abbrev pub dir_in : ℕ
dir_in = 1

abbrev pub non_iso_packets : ℕ
non_iso_packets = 0xFFFFFFFF

abbrev pub max_interfaces : ℕ
max_interfaces = 8

-- `usbip_op_common_t`.
abbrev pub OpCommon : Type 0
OpCommon = List ℕ

abbrev pub op_common_size : ℕ
op_common_size = 8

abbrev pub op_version : OpCommon → ℕ
op_version bs = read16 bs 0

abbrev pub op_code : OpCommon → ℕ
op_code bs = read16 bs 2

unfoldable pub op_common : ℕ → ℕ → OpCommon
unfolding be16 be32
op_common code status = be16 usbip_version ++ be16 code ++ be32 status

-- `usbip_header_t`, its basic part and the members of its union that a request has.
abbrev pub Header : Type 0
Header = List ℕ

abbrev pub header_size : ℕ
header_size = 48

abbrev pub command : Header → ℕ
command h = read32 h 0

abbrev pub seqnum : Header → ℕ
seqnum h = read32 h 4

abbrev pub devid : Header → ℕ
devid h = read32 h 8

abbrev pub direction : Header → ℕ
direction h = read32 h 12

abbrev pub ep : Header → ℕ
ep h = read32 h 16

-- `cmd_submit.transfer_buffer_length`, as the bits of an `int32_t`.
abbrev pub transfer_buffer_length : Header → ℕ
transfer_buffer_length h = read32 h 24

abbrev pub number_of_packets : Header → ℕ
number_of_packets h = read32 h 32

abbrev pub setup : Header → List ℕ
setup h = take 8 (drop 40 h)

-- `cmd_unlink.unlink_seqnum`.
abbrev pub unlink_seqnum : Header → ℕ
unlink_seqnum h = read32 h 20

-- `base.seqnum`, `devid`, `direction` and `ep`: the part that a reply copies as it stands.
abbrev pub echoed : Header → List ℕ
echoed h = take 16 (drop 4 h)
