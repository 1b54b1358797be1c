-- ===== src/Http/Json/Laws.antt =====
-- main/http_server.c: the search for a key and its value, in a text whose other values hold no quotes.
use esp_usbip_bridge.Base.{
  ℕ, ◌-◌, ◌≤◌, ◌<◌, ◌≡◌, ◌≢◌, refl, ap, ap₂, ◌∙◌, sym, List, [], ◌∷◌, ◌++◌, none, some, true, false,
  length, take, drop, ◌==◌, arith, length-append, take-append_left, drop-append_left, bytes_eq,
  bytes_eq_refl, starts, Bool-cases, inl, inr, read_number, decimal_digit, if◌then◌else◌,
}
use esp_usbip_bridge.Http.Json.{
  ◌>>=◌, in_quotes, strstr, strchr, quoted, json_str_after, is_space, scan_int, scan_signed,
  scan_digits, skip_while,
}

-- A value holds no quote.
abbrev pub NoQuote : List ℕ → Type 0
NoQuote [] = Unit
NoQuote (c ∷ cs) = ((c == b'"') ≡ false) × NoQuote cs

-- A key in its quotes is not found in a text without quotes.
pub strstr-skip :
    (key xs rest : List ℕ)
    → NoQuote xs
    → strstr (b'"' ∷ key) (xs ++ rest) ≡ strstr (b'"' ∷ key) rest
unfolding strstr starts bytes_eq
strstr-skip key [] rest plain = refl
strstr-skip key (x ∷ xs) rest plain =
    let other : (b'"' == x) ≡ false = ground (arith, plain.0) in
    ground (arith, other, strstr-skip key xs rest plain.1)

pub strchr-skip : (xs rest : List ℕ) → NoQuote xs → strchr b'"' (xs ++ rest) ≡ strchr b'"' rest
unfolding strchr
strchr-skip [] rest plain = refl
strchr-skip (x ∷ xs) rest plain = ground (arith, plain.0, strchr-skip xs rest plain.1)

starts-append : (needle rest : List ℕ) → starts needle (needle ++ rest) ≡ true
unfolding starts
starts-append needle rest =
    ap (bytes_eq needle) (take-append_left needle rest (length needle) refl) ∙ bytes_eq_refl needle

-- A key at the head of the text.
pub strstr-here :
    (c : ℕ) (key rest : List ℕ) → strstr (c ∷ key) ((c ∷ key) ++ rest) ≡ some ((c ∷ key) ++ rest)
unfolding strstr
strstr-here c key rest = rw (strstr, starts-append (c ∷ key) rest) refl

-- A value in its quotes.
pub quoted-here :
    (v rest : List ℕ)
    → NoQuote v
    → quoted (b'"' ∷ (v ++ (b'"' ∷ rest))) ≡ some (v, v ++ (b'"' ∷ rest))
unfolding quoted
quoted-here v rest plain =
    let whole = v ++ (b'"' ∷ rest) in
    let first : strchr b'"' (b'"' ∷ whole) ≡ some (b'"' ∷ whole) = unfold strchr in refl in
    let closing : strchr b'"' whole ≡ some (b'"' ∷ rest) =
      strchr-skip v (b'"' ∷ rest) plain ∙ (unfold strchr in refl) in
    let size : length whole - length (b'"' ∷ rest) ≡ length v =
      omega (arith, length-append v (b'"' ∷ rest)) in
    ap
      (λ o. o >>= λ q1. strchr b'"' (drop 1 q1) >>= λ q2.
        some (take (length (drop 1 q1) - length q2) (drop 1 q1), drop 1 q1))
      first
    ∙ ap (λ o. o >>= λ q2. some (take (length whole - length q2) whole, whole)) closing
    ∙ ap (λ k. some (take k whole, whole)) size
    ∙ ap (λ t. some (t, whole)) (take-append_left v (b'"' ∷ rest) (length v) refl)

-- A key and its value at the head of the text.
pub json_str_after-here :
    (key v rest : List ℕ)
    → NoQuote v
    → let text = (b'"' ∷ key) ++ (b':' ∷ b'"' ∷ (v ++ (b'"' ∷ rest))) in
      json_str_after text (b'"' ∷ key) ≡ some (v, v ++ (b'"' ∷ rest))
unfolding json_str_after
json_str_after-here key v rest plain =
    let k = b'"' ∷ key in
    let value = b':' ∷ b'"' ∷ (v ++ (b'"' ∷ rest)) in
    ap (λ o. o >>= λ t. strchr b':' (drop (length k) t) >>= quoted) (strstr-here b'"' key value)
    ∙ ap (λ t. strchr b':' t >>= quoted) (drop-append_left k value (length k) refl)
    ∙ (unfold strchr quoted in refl)
    ∙ quoted-here v rest plain

pub json_str_after-skip :
    (key xs rest : List ℕ)
    → NoQuote xs
    → json_str_after (xs ++ rest) (b'"' ∷ key) ≡ json_str_after rest (b'"' ∷ key)
unfolding json_str_after
json_str_after-skip key xs rest plain =
    ap (λ o. o >>= λ t. strchr b':' (drop (length (b'"' ∷ key)) t) >>= quoted)
      (strstr-skip key xs rest plain)

-- A value is not taken for a key whose name it is not.
starts_value :
    (name v rest : List ℕ)
    → NoQuote name
    → NoQuote v
    → v ≢ name
    → bytes_eq (name ++ (b'"' ∷ [])) (take (length (name ++ (b'"' ∷ []))) (v ++ (b'"' ∷ rest)))
      ≡ false
unfolding bytes_eq
starts_value [] [] rest plain_name plain ne = absurd (ne refl)
starts_value [] (x ∷ xs) rest plain_name plain ne =
    let other : (b'"' == x) ≡ false = ground (arith, plain.0) in rw other refl
starts_value (c ∷ cs) [] rest plain_name plain ne = rw plain_name.0 refl
starts_value (c ∷ cs) (x ∷ xs) rest plain_name plain ne = elim (Bool-cases (c == x)) [
  | inl e ↦
      let same : c ≡ x = ground (arith, e) in
      rw e (starts_value cs xs rest plain_name.1 plain.1 (λ q. ne (ap₂ ◌∷◌ (sym same) q)))
  | inr e ↦ rw e refl
]

-- Past a value in its quotes, as far as the closing one.
pub strstr-value :
    (name v rest : List ℕ)
    → NoQuote name
    → NoQuote v
    → v ≢ name
    → let key = in_quotes name in
      strstr key (b'"' ∷ (v ++ (b'"' ∷ rest))) ≡ strstr key (b'"' ∷ rest)
unfolding strstr starts bytes_eq
strstr-value name v rest plain_name plain ne =
    let key = name ++ (b'"' ∷ []) in
    let other = starts_value name v rest plain_name plain ne in
    rw other (strstr-skip key v (b'"' ∷ rest) plain)

pub json_str_after-value :
    (name v rest : List ℕ)
    → NoQuote name
    → NoQuote v
    → v ≢ name
    → let key = in_quotes name in
      json_str_after (b'"' ∷ (v ++ (b'"' ∷ rest))) key ≡ json_str_after (b'"' ∷ rest) key
unfolding json_str_after
json_str_after-value name v rest plain_name plain ne =
    ap (λ o. o >>= λ t. strchr b':' (drop (length (in_quotes name)) t) >>= quoted)
      (strstr-value name v rest plain_name plain ne)

scan_signed-digit :
    (d : ℕ) (ds : List ℕ) → 48 ≤ d → d ≤ 57 → scan_signed (d ∷ ds) ≡ scan_digits false (d ∷ ds)
unfolding scan_signed starts bytes_eq
scan_signed-digit d ds low high =
    let minus : (45 == d) ≡ false = ground (arith, low) in
    let plus : (43 == d) ≡ false = ground (arith, low) in rw (minus, plus) refl

-- A number that starts with a digit.
pub scan_int-plain :
    (d n : ℕ) (ds rest : List ℕ)
    → 48 ≤ d
    → d ≤ 57
    → read_number 10 decimal_digit 0 (d ∷ ds) ≡ (n, rest)
    → length rest < length (d ∷ ds)
    → scan_int (d ∷ ds) ≡ some (false, n, rest)
unfolding scan_int scan_digits
scan_int-plain d n ds rest low high e some_digit =
    let no_space : skip_while is_space (d ∷ ds) ≡ d ∷ ds =
      unfold skip_while in ground (arith, low) in
    let fewer : (length rest == length (d ∷ ds)) ≡ false = ground (arith, some_digit) in
    ap scan_signed no_space
    ∙ scan_signed-digit d ds low high
    ∙ ap
        (λ (r : ℕ × List ℕ). if length r.1 == length (d ∷ ds) then none else some (false, r.0, r.1))
        e
    ∙ rw fewer refl
