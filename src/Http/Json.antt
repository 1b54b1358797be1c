-- ===== src/Http/Json.antt =====
-- main/http_server.c: how the requests are searched for their values, with `strstr`, `strchr`,
-- `strtol` and `sscanf`. A C string is the list of its characters before the NUL, a pointer into it the
-- rest of the string from there on.
pub mod Laws
use esp_usbip_bridge.Base.{
  ℕ, zero, suc, ◌-◌, ◌+◌, List, [], ◌∷◌, ◌++◌, Option, none, some, Bool, true, false, not, ◌&&◌,
  ◌||◌, length, take, drop, ◌==◌, leb, ltb, min, if◌then◌else◌, codes, starts, read_number,
  decimal_digit, u32,
}

infixl 1 ◌>>=◌
abbrev pub ◌>>=◌ {ℓ κ} : {A : Type ℓ} {B : Type κ} → Option A → (A → Option B) → Option B
none >>= f = none
(some a) >>= f = f a

-- A text in quotes.
abbrev pub in_quotes : List ℕ → List ℕ
in_quotes s = b'"' ∷ (s ++ (b'"' ∷ []))

unfoldable pub strstr : List ℕ → List ℕ → Option (List ℕ)
unfolding starts
strstr needle [] = if length needle == 0 then some [] else none
strstr needle (c ∷ cs) =
    let rest = strstr needle cs in if starts needle (c ∷ cs) then some (c ∷ cs) else rest

unfoldable pub strchr : ℕ → List ℕ → Option (List ℕ)
strchr x [] = none
strchr x (c ∷ cs) = let rest = strchr x cs in if c == x then some (c ∷ cs) else rest

-- The part of a URL behind a prefix.
unfoldable pub path_after : List ℕ → List ℕ → Option (List ℕ)
unfolding starts
path_after url prefix = if starts prefix url then some (drop (length prefix) url) else none

-- The text between the first two quotes, and the string from that text on.
unfoldable pub quoted : List ℕ → Option (List ℕ × List ℕ)
unfolding strchr
quoted text = do
  q1 ← strchr b'"' text
  let value = drop 1 q1
  q2 ← strchr b'"' value
  some (take (length value - length q2) value, value)

-- The value of a key, and the string from the value on.
unfoldable pub json_str_after : List ℕ → List ℕ → Option (List ℕ × List ℕ)
unfolding quoted strstr strchr
json_str_after from key = do k ← strstr key from; c ← strchr b':' (drop (length key) k); quoted c

-- `while (test(*c)) c++`.
unfoldable pub skip_while : (ℕ → Bool) → List ℕ → List ℕ
skip_while test [] = []
skip_while test (c ∷ cs) = let rest = skip_while test cs in if test c then rest else c ∷ cs

abbrev pub is_space : ℕ → Bool
is_space c = c == 32 || (leb 9 c && leb c 13)

unfoldable pub scan_digits : Bool → List ℕ → Option (Bool × ℕ × List ℕ)
scan_digits negative unsigned =
    let (n, rest) = read_number 10 decimal_digit 0 unsigned in
    if length rest == length unsigned then none else some (negative, n, rest)

unfoldable pub scan_signed : List ℕ → Option (Bool × ℕ × List ℕ)
unfolding scan_digits starts
scan_signed number =
    let negative = starts (codes "-") number in
    scan_digits negative (if negative || starts (codes "+") number then drop 1 number else number)

-- An `int`, as `strtol` and `%d` read it: the sign, the size, and what follows; nothing if there is no
-- digit.
unfoldable pub scan_int : List ℕ → Option (Bool × ℕ × List ℕ)
unfolding skip_while scan_signed
scan_int text = scan_signed (skip_while is_space text)

-- The number of a key, within the range of a `long` of 32 bits, as the word that it is.
unfoldable pub json_int_after : List ℕ → List ℕ → Option ℕ
unfolding scan_int skip_while strstr strchr
json_int_after from key = do
  k ← strstr key from
  c ← strchr b':' (drop (length key) k)
  (negative, n, rest) ← scan_int (skip_while (λ x. x == b':' || (x == 32 || x == 9)) c)
  some (if negative then u32 (4_294_967_296 - min n 2_147_483_648) else min n 2_147_483_647)

-- The value that the handlers of the posts look for: that of a key if it fits into a buffer of `size`
-- bytes with its NUL, and nothing else.
unfoldable pub posted_value : List ℕ → List ℕ → ℕ → Option (List ℕ)
unfolding quoted strstr strchr
posted_value body key size = do
  k ← strstr key body
  c ← strchr b':' k
  (value, rest) ← quoted c
  if ltb (length value) size then some value else none
