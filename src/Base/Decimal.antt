-- ===== src/Base/Decimal.antt =====
-- `%u` of `snprintf`, what its text leaves in a buffer, and the texts of bus ids.
use Prim.Native.Nat.{ℕ, zero, suc, ◌+◌, ◌-◌, ◌*◌, ◌/◌, ◌%◌, ◌^◌, ◌≤◌, ◌<◌}
use mathlib.Core.Path.{◌≡◌, refl, ap, ◌∙◌, sym}
use native.Mathlib.Nat.{pow-zero, pow-suc}
use mathlib.Core.List.{List, [], ◌∷◌, ◌++◌}
use mathlib.Core.Logic.{◌≢◌, inl, inr}
use native.Mathlib.Omega.{arith}
use esp_usbip_bridge.Base.Tests.{ltb, if◌then◌else◌, Bool-cases}
use esp_usbip_bridge.Base.Lists.{
  length, take, drop, length-append, take-all, take-append, drop-append_left, replicate,
}
use esp_usbip_bridge.Base.Text.{c_string, padded}

unfoldable pub digits : ℕ → ℕ → List ℕ
digits zero n = []
digits (suc fuel) n =
    let rest = digits fuel (n / 10) ++ ((48 + n % 10) ∷ []) in
    if ltb n 10 then (48 + n) ∷ [] else rest

-- The decimal text of a `uint32_t`: ten digits are enough.
unfoldable pub decimal : ℕ → List ℕ
unfolding digits
decimal n = digits 10 n

value_from : ℕ → List ℕ → ℕ
value_from v [] = v
value_from v (d ∷ ds) = value_from (v * 10 + (d - 48)) ds

value_from-append :
    (v : ℕ) (xs ys : List ℕ) → value_from v (xs ++ ys) ≡ value_from (value_from v xs) ys
unfolding value_from
value_from-append v [] ys = refl
value_from-append v (x ∷ xs) ys = value_from-append (v * 10 + (x - 48)) xs ys

value_from-snoc :
    (xs : List ℕ) (d : ℕ) → value_from 0 (xs ++ (d ∷ [])) ≡ value_from 0 xs * 10 + (d - 48)
unfolding value_from
value_from-snoc xs d = value_from-append 0 xs (d ∷ [])

value-digits : (fuel n : ℕ) → n < 10 ^ fuel → value_from 0 (digits fuel n) ≡ n
unfolding digits value_from
value-digits zero n h = omega (arith, pow-zero 10)
value-digits (suc fuel) n h = elim (Bool-cases (ltb n 10)) [
  | inl e ↦ rw e (ground arith)
  | inr e ↦
      rw (e, value_from-snoc (digits fuel (n / 10)) (48 + n % 10))
        (omega (arith, pow-suc 10 fuel, value-digits fuel (n / 10)))
]

-- Different numbers have different texts.
pub decimal-injective : (m n : ℕ) → m < 4294967296 → n < 4294967296 → decimal m ≡ decimal n → m ≡ n
unfolding decimal
decimal-injective m n hm hn e =
    omega (arith, value-digits 10 m, value-digits 10 n, ap (value_from 0) e)

-- A text has no NUL.
abbrev pub NoNul : List ℕ → Type 0
NoNul [] = Unit
NoNul (x ∷ xs) = (1 ≤ x) × NoNul xs

pub NoNul-append : (xs ys : List ℕ) → NoNul xs → NoNul ys → NoNul (xs ++ ys)
NoNul-append [] ys hx hy = hy
NoNul-append (x ∷ xs) ys hx hy = (hx.0, NoNul-append xs ys hx.1 hy)

digits-NoNul : (fuel n : ℕ) → NoNul (digits fuel n)
unfolding digits
digits-NoNul zero n = tt
digits-NoNul (suc fuel) n = elim (Bool-cases (ltb n 10)) [
  | inl e ↦ rw e (omega arith, tt)
  | inr e ↦ rw e (
      NoNul-append (digits fuel (n / 10)) ((48 + n % 10) ∷ []) (digits-NoNul fuel (n / 10))
        (omega arith, tt))
]

length-digits : (fuel n : ℕ) → length (digits fuel n) ≤ fuel
unfolding digits
length-digits zero n = omega arith
length-digits (suc fuel) n = elim (Bool-cases (ltb n 10)) [
  | inl e ↦ rw e (omega arith)
  | inr e ↦ rw e (
      omega (
        arith,
        length-digits fuel (n / 10),
        length-append (digits fuel (n / 10)) ((48 + n % 10) ∷ []),
      ))
]

pub decimal-NoNul : (n : ℕ) → NoNul (decimal n)
unfolding decimal
decimal-NoNul n = digits-NoNul 10 n

pub length-decimal : (n : ℕ) → length (decimal n) ≤ 10
unfolding decimal
length-decimal n = length-digits 10 n

-- `snprintf(buf, size, ...)` of the text `s` into a buffer of `size` bytes: as much of it as fits,
-- a NUL, and the old bytes behind it.
unfoldable pub store_text : ℕ → List ℕ → List ℕ → List ℕ
store_text size s buf = let text = take (size - 1) s in text ++ (0 ∷ drop (length text + 1) buf)

c_string-append : (s rest : List ℕ) → NoNul s → c_string (s ++ (0 ∷ rest)) ≡ s
unfolding c_string
c_string-append [] rest h = refl
c_string-append (x ∷ xs) rest h = ground (arith, c_string-append xs rest h.1)

-- A text that fits is what `strlcpy` then reads back.
pub c_string-store_text :
    (size : ℕ) (s buf : List ℕ) → NoNul s → length s < size → c_string (store_text size s buf) ≡ s
unfolding store_text
c_string-store_text size s buf h fits =
    rw (take-all s (size - 1) (omega arith)) (c_string-append s (drop (length s + 1) buf) h)

-- A text that fits is what a zero-padded buffer holds before its first NUL.
pub c_string-padded : (n : ℕ) (s : List ℕ) → NoNul s → length s < n → c_string (padded n s) ≡ s
unfolding padded
c_string-padded n s h fits =
    let e : n ≡ length s + suc (n - length s - 1) = omega arith in
    let z : n ≡ suc (n - 1) = omega arith in
    rw (take-all s (n - 1) (omega arith)) (
      ap (λ k. c_string (take k (s ++ replicate n 0))) e
      ∙ ap c_string (take-append s (replicate n 0) (suc (n - length s - 1)))
      ∙ ap (λ k. c_string (s ++ take (suc (n - length s - 1)) (replicate k 0))) z
      ∙ c_string-append s (take (n - length s - 1) (replicate (n - 1) 0)) h)

pub padded-injective :
    (n : ℕ) (s t : List ℕ)
    → NoNul s
    → NoNul t
    → length s < n
    → length t < n
    → padded n s ≡ padded n t
    → s ≡ t
padded-injective n s t hs ht ls lt e =
    sym (c_string-padded n s hs ls) ∙ ap c_string e ∙ c_string-padded n t ht lt

-- The text of a busid, `"%u-%u"`.
unfoldable pub busid_text : ℕ → ℕ → List ℕ
busid_text busnum devnum = decimal busnum ++ (45 ∷ decimal devnum)

pub busid_text-NoNul : (b n : ℕ) → NoNul (busid_text b n)
unfolding busid_text
busid_text-NoNul b n =
    NoNul-append (decimal b) (45 ∷ decimal n) (decimal-NoNul b) (omega arith, decimal-NoNul n)

pub length-busid_text : (b n : ℕ) → length (busid_text b n) ≤ 21
unfolding busid_text
length-busid_text b n =
    omega (arith, length-append (decimal b) (45 ∷ decimal n), length-decimal b, length-decimal n)

-- The number behind the dash can be read off.
pub busid_text-injective :
    (b m n : ℕ) → m < 4294967296 → n < 4294967296 → busid_text b m ≡ busid_text b n → m ≡ n
unfolding busid_text
busid_text-injective b m n hm hn e = ground (
  arith,
  drop-append_left (decimal b) (45 ∷ decimal m) (length (decimal b)),
  drop-append_left (decimal b) (45 ∷ decimal n) (length (decimal b)),
  decimal-injective m n,
  e,
)

pub decimal_one : decimal 1 ≡ 49 ∷ []
unfolding decimal
decimal_one = refl

decimal_two : decimal 2 ≡ 50 ∷ []
unfolding decimal
decimal_two = refl

-- No device of bus 1 has the bus id of a device of bus 2.
pub busid_text-ne : (m n : ℕ) → busid_text 1 m ≢ busid_text 2 n
unfolding busid_text
busid_text-ne m n e = ground (arith, decimal_one, decimal_two, e)
