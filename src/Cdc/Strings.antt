-- ===== src/Cdc/Strings.antt =====
-- main/virtual_cdc.c, `make_string_desc`: what a string descriptor holds.
use esp_usbip_bridge.Base.{
  ℕ, zero, suc, ◌+◌, ◌-◌, ◌*◌, ◌/◌, ◌≤◌, ◌<◌, ◌≡◌, refl, ap₂, sym, ◌∙◌, take-all, if◌then◌else◌,
  List, [], ◌∷◌, some, length, take, length-take, byte_at, arith, min, Bool-cases, inl, inr, ltb,
  ◌||◌,
}
use esp_usbip_bridge.Cdc.{utf16, make_string_desc}

pub length-utf16 : (cs : List ℕ) → length (utf16 cs) ≡ length cs * 2
unfolding utf16
length-utf16 [] = refl
length-utf16 (c ∷ cs) = omega (arith, length-utf16 cs)

-- The characters that a descriptor's code units stand for.
abbrev pub chars : List ℕ → List ℕ
chars [] = []
chars (c ∷ []) = []
chars (c ∷ z ∷ rest) = c ∷ chars rest

-- Every character is a byte.
abbrev pub AllBytes : List ℕ → Type 0
AllBytes [] = Unit
AllBytes (c ∷ cs) = (c < 256) × AllBytes cs

chars-utf16 : (cs : List ℕ) → AllBytes cs → chars (utf16 cs) ≡ cs
unfolding utf16
chars-utf16 [] h = refl
chars-utf16 (c ∷ cs) h = ground (arith, chars-utf16 cs h.1)

AllBytes-take : (n : ℕ) (cs : List ℕ) → AllBytes cs → AllBytes (take n cs)
AllBytes-take zero cs h = tt
AllBytes-take (suc n) [] h = tt
AllBytes-take (suc n) (c ∷ cs) h = (h.0, AllBytes-take n cs h.1)

-- The longest even length that a buffer has room for.
abbrev pub room_for : ℕ → ℕ
room_for buf_size = min buf_size 254 / 2 * 2

-- For a string of bytes and a buffer of two bytes at least: the length that `make_string_desc`
-- returns is that of the whole string's descriptor, or the longest even length that the buffer and
-- one byte have room for; the descriptor is that long and states it in its first byte, has the type
-- of a string descriptor, and spells as much of the string as it is long.
pub make_string_desc_lem :
    (str : List ℕ) (buf_size : ℕ)
    → 2 ≤ buf_size
    → AllBytes str
    → let (len, desc) = make_string_desc (some str) buf_size in
      (len ≡ min (2 + length str * 2) (room_for buf_size))
      × (length desc ≡ len)
      × (byte_at desc 1 ≡ 3)
      × (chars desc ≡ len ∷ take ((len - 2) / 2) str)
unfolding make_string_desc
make_string_desc_lem str buf_size room bytes =
    let full = 2 + length str * 2 in
    let n = (room_for buf_size - 2) / 2 in
    let all = take-all str ((full - 2) / 2) (omega arith) in
    elim (Bool-cases (ltb 255 full || ltb buf_size full)) [
      | inl p ↦
          let e : (if ltb buf_size 255 then buf_size else 254) / 2 * 2 ≡ room_for buf_size =
            ground arith in
          rw (p, e)
            (
              ground (arith, p),
              ground (arith, length-utf16 (take n str), length-take n str, p),
              refl,
              ap₂ ◌∷◌ (omega arith) (chars-utf16 (take n str) (AllBytes-take n str bytes)),
            )
      | inr p ↦ rw p (
        ground (arith, p),
        omega (arith, length-utf16 str),
        refl,
        ap₂ ◌∷◌ (ground (arith, p)) (chars-utf16 str bytes ∙ sym all),
      )
    ]
