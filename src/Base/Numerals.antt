-- ===== src/Base/Numerals.antt =====
-- Numerals in texts: how `%x` and `%02d` write them, and a reader that stops at the first character
-- that is no digit.
use Prim.Native.Nat.{ℕ, zero, suc, ◌+◌, ◌-◌, ◌*◌, ◌/◌, ◌%◌, ◌^◌, ◌≤◌, ◌<◌}
use mathlib.Core.Path.{◌≡◌, refl, ap, ap₂, ◌∙◌}
use native.Mathlib.Nat.{pow-zero, pow-suc}
use mathlib.Core.Bool.{◌&&◌}
use mathlib.Core.List.{List, [], ◌∷◌, ◌++◌}
use mathlib.Core.Option.{Option, none, some}
use mathlib.Core.Logic.{inl, inr}
use native.Mathlib.Omega.{arith}
use esp_usbip_bridge.Base.Tests.{ltb, leb, if◌then◌else◌, Bool-cases}
use esp_usbip_bridge.Base.Lists.{length, replicate, length-append}
use esp_usbip_bridge.Base.Decimal.{digits, decimal}

-- `%0<width>d` of a number that is not negative.
unfoldable pub zero_padded : ℕ → ℕ → List ℕ
zero_padded width n = replicate (width - length (decimal n)) 48 ++ decimal n

unfoldable pub hex_digit : ℕ → ℕ
hex_digit d = if ltb d 10 then 48 + d else 87 + d

unfoldable pub hex_digits : ℕ → ℕ → List ℕ
hex_digits zero n = []
hex_digits (suc fuel) n =
    let rest = hex_digits fuel (n / 16) ++ (hex_digit (n % 16) ∷ []) in
    if ltb n 16 then hex_digit n ∷ [] else rest

-- The text of `%x` of an `unsigned`: eight digits are enough.
unfoldable pub hex_number : ℕ → List ℕ
unfolding hex_digits
hex_number n = hex_digits 8 n

unfoldable pub decimal_digit : ℕ → Option ℕ
decimal_digit c = if leb 48 c && leb c 57 then some (c - 48) else none

unfoldable pub hex_digit_value : ℕ → Option ℕ
hex_digit_value c =
    if leb 48 c && leb c 57
    then some (c - 48)
    else if leb 97 c && leb c 102
    then some (c - 87)
    else none

module _ (base : ℕ) (value : ℕ → Option ℕ) where
  -- The number that the digits in front make, after `v`, and what follows them.
  unfoldable pub read_number : ℕ → List ℕ → ℕ × List ℕ
  read_number v [] = (v, [])
  read_number v (c ∷ cs) = elim (value c) [
    | none ↦ (v, c ∷ cs)
    | some d ↦ read_number (v * base + d) cs
  ]

  abbrev pub AllDigits : List ℕ → Type 0
  AllDigits [] = Unit
  AllDigits (c ∷ cs) = ((d : ℕ) × (value c ≡ some d)) × AllDigits cs

  AllDigits-append : (xs ys : List ℕ) → AllDigits xs → AllDigits ys → AllDigits (xs ++ ys)
  AllDigits-append [] ys hx hy = hy
  AllDigits-append (x ∷ xs) ys hx hy = (hx.0, AllDigits-append xs ys hx.1 hy)

  pub read_number-append :
      (v : ℕ) (xs ys : List ℕ)
      → AllDigits xs
      → read_number v (xs ++ ys) ≡ read_number (read_number v xs).0 ys
  unfolding read_number
  read_number-append v [] ys h = refl
  read_number-append v (x ∷ xs) ys ((d, e), h) =
      rw (e, read_number) (read_number-append (v * base + d) xs ys h)

  read_number-snoc :
      (v : ℕ) (xs : List ℕ) (c d : ℕ)
      → AllDigits xs
      → value c ≡ some d
      → (read_number v (xs ++ (c ∷ []))).0 ≡ (read_number v xs).0 * base + d
  unfolding read_number
  read_number-snoc v [] c d h e = rw (e, read_number) refl
  read_number-snoc v (x ∷ xs) c d ((k, g), h) e =
      rw (g, read_number) (read_number-snoc (v * base + k) xs c d h e)

  read_number_end : (v : ℕ) (xs : List ℕ) → AllDigits xs → (read_number v xs).1 ≡ []
  unfolding read_number
  read_number_end v [] h = refl
  read_number_end v (x ∷ xs) ((d, e), h) = rw (e, read_number) (read_number_end (v * base + d) xs h)

  -- A numeral in front of a character that is no digit.
  pub read_number-stop :
      (xs : List ℕ) (c : ℕ) (ys : List ℕ)
      → AllDigits xs
      → value c ≡ none
      → read_number 0 (xs ++ (c ∷ ys)) ≡ ((read_number 0 xs).0, c ∷ ys)
  unfolding read_number
  read_number-stop xs c ys h e = read_number-append 0 xs (c ∷ ys) h ∙ rw (e, read_number) refl

decimal_digit-range : (c d : ℕ) → decimal_digit c ≡ some d → (48 ≤ c) × (c ≤ 57)
unfolding decimal_digit
decimal_digit-range c d e = ground (arith, e)

decimal_digit-some : (d : ℕ) → d < 10 → decimal_digit (48 + d) ≡ some d
unfolding decimal_digit
decimal_digit-some d h = ground arith

hex_digit_value-some : (d : ℕ) → d < 16 → hex_digit_value (hex_digit d) ≡ some d
unfolding hex_digit_value hex_digit
hex_digit_value-some d h = ground arith

digits-AllDigits : (fuel n : ℕ) → AllDigits 10 decimal_digit (digits fuel n)
unfolding digits
digits-AllDigits zero n = tt
digits-AllDigits (suc fuel) n = elim (Bool-cases (ltb n 10)) [
  | inl e ↦ rw e ((n, decimal_digit-some n (ground (arith, e))), tt)
  | inr e ↦ rw e (
      AllDigits-append 10 decimal_digit (digits fuel (n / 10)) ((48 + n % 10) ∷ [])
        (digits-AllDigits fuel (n / 10)) ((n % 10, decimal_digit-some (n % 10) (omega arith)), tt))
]

digits_some : (fuel n : ℕ) → 1 ≤ length (digits (suc fuel) n)
unfolding digits
digits_some fuel n = ground (arith, length-append (digits fuel (n / 10)) ((48 + n % 10) ∷ []))

read-digits : (fuel n : ℕ) → n < 10 ^ fuel → (read_number 10 decimal_digit 0 (digits fuel n)).0 ≡ n
unfolding digits read_number
read-digits zero n h = unfold read_number in omega (arith, pow-zero 10)
read-digits (suc fuel) n h = elim (Bool-cases (ltb n 10)) [
  | inl e ↦ rw e (rw (decimal_digit-some n (ground (arith, e)), read_number) (omega arith))
  | inr e ↦ rw e (
      read_number-snoc 10 decimal_digit 0 (digits fuel (n / 10)) (48 + n % 10) (n % 10)
        (digits-AllDigits fuel (n / 10)) (decimal_digit-some (n % 10) (omega arith))
      ∙ omega (arith, pow-suc 10 fuel, read-digits fuel (n / 10)))
]

-- A decimal text in front of a character that is no digit is read back.
pub read_number-decimal :
    (n c : ℕ) (ys : List ℕ)
    → n < 4294967296
    → decimal_digit c ≡ none
    → read_number 10 decimal_digit 0 (decimal n ++ (c ∷ ys)) ≡ (n, c ∷ ys)
unfolding decimal
read_number-decimal n c ys h e =
    read_number-stop 10 decimal_digit (digits 10 n) c ys (digits-AllDigits 10 n) e
    ∙ ap (λ k. (k, c ∷ ys)) (read-digits 10 n (omega arith))

-- A decimal text with nothing behind it.
pub read_number-decimal_end :
    (n : ℕ) → n < 4294967296 → read_number 10 decimal_digit 0 (decimal n) ≡ (n, [])
unfolding decimal
read_number-decimal_end n h =
    ap₂ (λ (k : ℕ) (r : List ℕ). (k, r)) (read-digits 10 n (omega arith))
      (read_number_end 10 decimal_digit 0 (digits 10 n) (digits-AllDigits 10 n))

starts_with_digit :
    (xs : List ℕ)
    → AllDigits 10 decimal_digit xs
    → 1 ≤ length xs
    → (d : ℕ) × (ds : List ℕ) × (xs ≡ d ∷ ds) × (48 ≤ d) × (d ≤ 57)
starts_with_digit [] all some_digit = absurd (omega arith)
starts_with_digit (x ∷ xs) ((d, e), all) some_digit =
    let (low, high) = decimal_digit-range x d e in (x, xs, refl, low, high)

-- A decimal text starts with a digit.
pub decimal_starts : (n : ℕ) → (d : ℕ) × (ds : List ℕ) × (decimal n ≡ d ∷ ds) × (48 ≤ d) × (d ≤ 57)
unfolding decimal
decimal_starts n = starts_with_digit (digits 10 n) (digits-AllDigits 10 n) (digits_some 9 n)

hex_digits-AllDigits : (fuel n : ℕ) → AllDigits 16 hex_digit_value (hex_digits fuel n)
unfolding hex_digits
hex_digits-AllDigits zero n = tt
hex_digits-AllDigits (suc fuel) n = elim (Bool-cases (ltb n 16)) [
  | inl e ↦ rw e ((n, hex_digit_value-some n (ground (arith, e))), tt)
  | inr e ↦ rw e (
      AllDigits-append 16 hex_digit_value (hex_digits fuel (n / 16)) (hex_digit (n % 16) ∷ [])
        (hex_digits-AllDigits fuel (n / 16))
        ((n % 16, hex_digit_value-some (n % 16) (omega arith)), tt))
]

read-hex_digits :
    (fuel n : ℕ) → n < 16 ^ fuel → (read_number 16 hex_digit_value 0 (hex_digits fuel n)).0 ≡ n
unfolding hex_digits read_number
read-hex_digits zero n h = unfold read_number in omega (arith, pow-zero 16)
read-hex_digits (suc fuel) n h = elim (Bool-cases (ltb n 16)) [
  | inl e ↦ rw e (rw (hex_digit_value-some n (ground (arith, e)), read_number) (omega arith))
  | inr e ↦ rw e (
      read_number-snoc 16 hex_digit_value 0 (hex_digits fuel (n / 16)) (hex_digit (n % 16)) (n % 16)
        (hex_digits-AllDigits fuel (n / 16)) (hex_digit_value-some (n % 16) (omega arith))
      ∙ omega (arith, pow-suc 16 fuel, read-hex_digits fuel (n / 16)))
]

-- A hexadecimal text in front of a character that is no digit is read back.
pub read_number-hex_number :
    (n c : ℕ) (ys : List ℕ)
    → n < 4294967296
    → hex_digit_value c ≡ none
    → read_number 16 hex_digit_value 0 (hex_number n ++ (c ∷ ys)) ≡ (n, c ∷ ys)
unfolding hex_number
read_number-hex_number n c ys h e =
    read_number-stop 16 hex_digit_value (hex_digits 8 n) c ys (hex_digits-AllDigits 8 n) e
    ∙ ap (λ k. (k, c ∷ ys)) (read-hex_digits 8 n (omega arith))
