-- ===== src/Http/Pins/Labels.antt =====
-- main/http_server.c: the labels of expander pins, `"E<expander>_<pin>"`.
use esp_usbip_bridge.Base.{
  ℕ, ◌≤◌, ◌<◌, ◌≡◌, refl, ap, ◌∙◌, sym, List, [], ◌∷◌, ◌++◌, none, some, false, arith,
  length-append, starts, decimal, codes, read_number, decimal_digit, read_number-decimal,
  read_number-decimal_end, decimal_starts,
}
use esp_usbip_bridge.Http.Json.{scan_int}
use esp_usbip_bridge.Http.Json.Laws.{scan_int-plain}
use esp_usbip_bridge.Http.Pins.{ExpanderSize, expander_label_parse, scan_second}

abbrev pub expander_label : ℕ → ℕ → List ℕ
expander_label e p = codes "E" ++ (decimal e ++ (codes "_" ++ decimal p))

scan_int-decimal :
    (n c : ℕ) (ys : List ℕ)
    → n < 4294967296
    → decimal_digit c ≡ none
    → scan_int (decimal n ++ (c ∷ ys)) ≡ some (false, n, c ∷ ys)
scan_int-decimal n c ys small e =
    let (d, ds, is, low, high) = decimal_starts n in
    let shape : decimal n ++ (c ∷ ys) ≡ d ∷ (ds ++ (c ∷ ys)) = ap (λ t. t ++ (c ∷ ys)) is in
    ap scan_int shape
    ∙ scan_int-plain d n (ds ++ (c ∷ ys)) (c ∷ ys) low high
        (ap (read_number 10 decimal_digit 0) (sym shape) ∙ read_number-decimal n c ys small e)
        (omega (arith, length-append ds (c ∷ ys)))

scan_int-decimal_end : (n : ℕ) → n < 4294967296 → scan_int (decimal n) ≡ some (false, n, [])
scan_int-decimal_end n small =
    let (d, ds, is, low, high) = decimal_starts n in
    ap scan_int is
    ∙ scan_int-plain d n ds [] low high
        (ap (read_number 10 decimal_digit 0) (sym is) ∙ read_number-decimal_end n small)
        (omega arith)

-- The label of every pin of every expander is read as its two numbers.
pub expander_label_parse-label :
    (size : ExpanderSize) (e p : ℕ)
    → size.max_count ≤ 4294967296
    → size.pin_count ≤ 4294967296
    → e < size.max_count
    → p < size.pin_count
    → expander_label_parse size (expander_label e p) ≡ some (e, p)
unfolding expander_label_parse scan_second starts
expander_label_parse-label size e p max pins he hp =
    let first = scan_int-decimal e 95 (decimal p) (omega arith) (unfold decimal_digit in refl) in
    let second = scan_int-decimal_end p (omega arith) in rw (first, second) (ground (arith, he, hp))
