-- ===== src/Base/Bytes.antt =====
-- Machine words as lists of bytes in network order: what `htons`, `htonl`, `ntohs` and `ntohl` do
-- to a field of a packed struct.
use Prim.Native.Nat.{ℕ, ◌+◌, ◌*◌, ◌/◌, ◌%◌, ◌<◌}
use mathlib.Core.Path.{◌≡◌, refl}
use mathlib.Core.List.{List, [], ◌∷◌}
use native.Mathlib.Omega.{arith}
use esp_usbip_bridge.Base.Lists.{get_or}

abbrev pub u8 : ℕ → ℕ
u8 n = n % 256

abbrev pub u16 : ℕ → ℕ
u16 n = n % 65536

abbrev pub u32 : ℕ → ℕ
u32 n = n % 4294967296

-- A 16-bit and a 32-bit field in network order.
unfoldable pub be16 : ℕ → List ℕ
be16 n = u8 (n / 256) ∷ u8 n ∷ []

unfoldable pub be32 : ℕ → List ℕ
be32 n = u8 (n / 16777216) ∷ u8 (n / 65536) ∷ u8 (n / 256) ∷ u8 n ∷ []

abbrev pub byte_at : List ℕ → ℕ → ℕ
byte_at bs i = get_or bs i 0

-- The fields at an offset, read back in host order.
unfoldable pub read16 : List ℕ → ℕ → ℕ
read16 bs i = byte_at bs i * 256 + byte_at bs (i + 1)

unfoldable pub read32 : List ℕ → ℕ → ℕ
read32 bs i =
    byte_at bs i * 16777216
    + byte_at bs (i + 1) * 65536
    + byte_at bs (i + 2) * 256
    + byte_at bs (i + 3)

pub read16-be16 : (n : ℕ) → n < 65536 → read16 (be16 n) 0 ≡ n
unfolding read16 be16
read16-be16 n h = omega arith

pub read32-be32 : (n : ℕ) → n < 4294967296 → read32 (be32 n) 0 ≡ n
unfolding read32 be32
read32-be32 n h = omega arith

-- A field behind a prefix of known length.
pub read32-append :
    (a b c d : ℕ) (bs : List ℕ)
    → read32 (a ∷ b ∷ c ∷ d ∷ bs) 0 ≡ a * 16777216 + b * 65536 + c * 256 + d
unfolding read32
read32-append a b c d bs = refl
