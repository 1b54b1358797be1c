-- ===== src/Errno.antt =====
-- The `int` results of the transfer paths: 0, or a negative errno. The numbers are those of the
-- C library's errno.h (newlib).
use esp_usbip_bridge.Base.{ℕ, ◌-◌, Bool, true, false}

pub data Errno : Type 0 where
  eio enomem ebusy enodev einval epipe eopnotsupp econnreset etimedout emsgsize : Errno

abbrev pub errno_value : Errno → ℕ
errno_value Errno.eio = 5
errno_value Errno.enomem = 12
errno_value Errno.ebusy = 16
errno_value Errno.enodev = 19
errno_value Errno.einval = 22
errno_value Errno.epipe = 32
errno_value Errno.eopnotsupp = 95
errno_value Errno.econnreset = 104
errno_value Errno.etimedout = 116
errno_value Errno.emsgsize = 122

-- 0, or `-e`.
pub data Status : Type 0 where
  success : Status
  failure : Errno → Status

-- `(uint32_t)status`.
unfoldable pub status_word : Status → ℕ
status_word success = 0
status_word (failure e) = 4294967296 - errno_value e

abbrev pub is_success : Status → Bool
is_success success = true
is_success (failure e) = false
