-- ===== src/Base/Text.antt =====
-- C strings: the characters before the NUL, and the buffers that hold them.
use Prim.Native.Nat.{ℕ, ◌+◌, ◌-◌}
use Prim.Native.Char.{code}
use Prim.Native.String.{String}
use mathlib.Core.Path.{◌≡◌, refl}
use mathlib.Core.Bool.{Bool, true, false, ◌&&◌}
use mathlib.Core.List.{List, [], ◌∷◌, ◌++◌}
use native.Mathlib.Omega.{arith}
use esp_usbip_bridge.Base.Tests.{◌==◌, if◌then◌else◌}
use esp_usbip_bridge.Base.Lists.{length, take, replicate, length-take, length-append}
use esp_usbip_bridge.Base.Lists.{length-replicate}

-- The bytes of an ASCII text.
abbrev pub codes : String → List ℕ
codes String.[] = []
codes (String.◌∷◌ c s) = code c ∷ codes s

-- `strlen` and `strlcpy` read a buffer up to its first NUL.
unfoldable pub c_string : List ℕ → List ℕ
c_string [] = []
c_string (x ∷ xs) = let rest = c_string xs in if x == 0 then [] else x ∷ rest

-- A zeroed buffer of `n` bytes after `strlcpy` (or `snprintf`) of the string `s` into it.
unfoldable pub padded : ℕ → List ℕ → List ℕ
padded n s = take n (take (n - 1) s ++ replicate n 0)

-- `memcmp(a, b, n) == 0` on buffers of one length.
unfoldable pub bytes_eq : List ℕ → List ℕ → Bool
bytes_eq [] [] = true
bytes_eq [] (y ∷ ys) = false
bytes_eq (x ∷ xs) [] = false
bytes_eq (x ∷ xs) (y ∷ ys) = x == y && bytes_eq xs ys

pub bytes_eq_sound : (xs ys : List ℕ) → bytes_eq xs ys ≡ true → xs ≡ ys
unfolding bytes_eq
bytes_eq_sound [] [] h = refl
bytes_eq_sound [] (y ∷ ys) h = ground arith
bytes_eq_sound (x ∷ xs) [] h = ground arith
bytes_eq_sound (x ∷ xs) (y ∷ ys) h = ground (arith, bytes_eq_sound xs ys)

pub bytes_eq_refl : (xs : List ℕ) → bytes_eq xs xs ≡ true
unfolding bytes_eq
bytes_eq_refl [] = refl
bytes_eq_refl (x ∷ xs) = ground (arith, bytes_eq_refl xs)

pub length-padded : (n : ℕ) (s : List ℕ) → length (padded n s) ≡ n
unfolding padded
length-padded n s = omega (
  arith,
  length-take n (take (n - 1) s ++ replicate n 0),
  length-append (take (n - 1) s) (replicate n 0),
  length-replicate n (◌+◌ 0 0),
)

-- Whether a string starts with another, `strncmp(text, prefix, strlen(prefix)) == 0`.
unfoldable pub starts : List ℕ → List ℕ → Bool
unfolding bytes_eq
starts prefix text = bytes_eq prefix (take (length prefix) text)
