-- ===== src/Http/Lists/Written.antt =====
-- main/http_server.c: what `build_pins_json` leaves in its buffer, whether the document fits or not.
use esp_usbip_bridge.Base.{
  ℕ, ◌-◌, ◌+◌, ◌≤◌, ◌<◌, ◌≡◌, refl, sym, ap, ◌∙◌, subst, ◌⊎◌, inl, inr, ◌↔◌, List, [], ◌∷◌, ◌++◌,
  append_assoc, append-nil, Bool, true, false, length, take, take-all, length-take, Bool-cases,
  if_ind, if◌then◌else◌, zero, suc, length-append, leb, ltb, codes, arith,
}
use esp_usbip_bridge.Http.Pins.{Pins}
use esp_usbip_bridge.Http.Host.{HttpHost, HttpConfig}
use esp_usbip_bridge.Http.Lists.{
  JsonBuf, empty_buf, append_text, separator, append_rows, pin_rows, pull_state_rows,
  build_pins_json,
}

-- The rows, one after another.
unfoldable pub rows_text : Bool → List (List ℕ) → List ℕ
rows_text first [] = []
rows_text first (t ∷ ts) = separator first ∷ (t ++ rows_text false ts)

-- The buffer holds the whole text.
pub record Holds (size : ℕ) (b : JsonBuf) (t : List ℕ) : Type 0 where
  pub whole : b.json ≡ t
  pub at : b.off ≡ length t
  -- The text and its NUL are within the buffer.
  pub inside : length b.json < size

-- A buffer for the text so far: it holds the text, or what fits of it, and the offset stays behind the end.
abbrev IsCut : ℕ → JsonBuf → List ℕ → Type 0
IsCut size b t =
    ((b.off < size) × (b.off ≡ length t) × (b.json ≡ t))
    ⊎ ((size ≤ b.off) × (size ≤ length t) × (b.json ≡ take (size - 1) t))

take-append_short :
    (n : ℕ) (t u : List ℕ) → length t ≤ n → take n (t ++ u) ≡ t ++ take (n - length t) u
take-append_short n [] u h = let e : n - 0 ≡ n = omega arith in rw e refl
take-append_short zero (c ∷ t) u h = absurd (omega arith)
take-append_short (suc n) (c ∷ t) u h =
    let e : suc n - suc (length t) ≡ n - length t = omega arith in
    rw e (ap (λ l. c ∷ l) (take-append_short n t u (omega arith)))

take-append_long : (n : ℕ) (t u : List ℕ) → n ≤ length t → take n (t ++ u) ≡ take n t
take-append_long zero t u h = refl
take-append_long (suc n) [] u h = absurd (omega arith)
take-append_long (suc n) (c ∷ t) u h = ap (λ l. c ∷ l) (take-append_long n t u (omega arith))

IsCut-more :
    (size : ℕ) (t u : List ℕ) (b : JsonBuf) → size ≤ b.off → IsCut size b t → IsCut size b (t ++ u)
IsCut-more size t u b far (inl (near, _, _)) = absurd (omega (arith, near))
IsCut-more size t u b far (inr (_, long, cut)) = inr (
  far,
  omega (arith, length-append t u, long),
  cut ∙ sym (take-append_long (size - 1) t u (omega (arith, long))),
)

append_text-IsCut :
    (size : ℕ) (t u : List ℕ) (b : JsonBuf)
    → IsCut size b t
    → IsCut size (append_text size u b) (t ++ u)
unfolding append_text
append_text-IsCut size t u b (inl (near, at, whole)) =
    let room : ltb b.off size ≡ true = ground (arith, near) in
    let behind : ltb size b.off ≡ false = ground (arith, near) in
    let long = length-append t u in
    let kept : take (size - 1) (t ++ u) ≡ t ++ take (size - 1 - b.off) u =
      take-append_short (size - 1) t u (omega (arith, near, at))
      ∙ ap (λ n. t ++ take (size - 1 - n) u) (sym at) in
    rw (room, behind, whole)
      (elim (Bool-cases (ltb (length (t ++ u)) size)) [
        | inl e ↦ inl (
          ground (arith, e, long, at),
          omega (arith, long, at),
          sym kept ∙ take-all (t ++ u) (size - 1) (ground (arith, e)),
        )
        | inr e ↦ inr (ground (arith, e, long, at), ground (arith, e), sym kept)
      ])
append_text-IsCut size t u b (inr (far, long, cut)) =
    let none_left : ltb b.off size ≡ false = ground (arith, far) in
    let still : size ≤ (if ltb size b.off then b.off - 1 else b.off + length u) =
      ground (arith, far) in
    rw none_left (
      inr (
        still,
        omega (arith, length-append t u, long),
        cut ∙ sym (take-append_long (size - 1) t u (omega (arith, long))),
      ))

append_rows-IsCut :
    (size : ℕ) (first : Bool) (ts : List (List ℕ)) (u : List ℕ) (b : JsonBuf)
    → IsCut size b u
    → IsCut size (append_rows size first ts b) (u ++ rows_text first ts)
unfolding append_rows rows_text
append_rows-IsCut size first [] u b v = rw (append-nil u) v
append_rows-IsCut size first (t ∷ ts) u b v =
    let row = separator first ∷ t in
    let b1 = append_text size row b in
    let v1 = append_text-IsCut size u row b v in
    let flat = append_assoc u row (rows_text false ts) in
    let P : JsonBuf → Type 0 = λ x. IsCut size x ((u ++ row) ++ rows_text false ts) in
    rw (← flat) (
      if_ind P (leb size b1.off)
        (λ e. IsCut-more size (u ++ row) (rows_text false ts) b1 (ground (arith, e)) v1)
        (λ _. append_rows-IsCut size false ts (u ++ row) b1 v1))

module _ {W : Type 0} (h : HttpHost W) (cfg : HttpConfig) where
  -- The document of the pins.
  unfoldable pub pins_document : Pins → W → List ℕ
  unfolding rows_text
  pins_document pins w =
      codes "{\"pins\":["
      ++ (rows_text true (pin_rows h cfg pins w)
          ++ (codes "],\"pulls\":["
              ++ (rows_text true (pull_state_rows h cfg pins w) ++ codes "]}")))

  build_pins_json-IsCut :
      (size : ℕ) (pins : Pins) (w : W)
      → 0 < size
      → IsCut size (build_pins_json h cfg size pins w) (pins_document pins w)
  unfolding build_pins_json pins_document
  build_pins_json-IsCut size pins w some_room =
      let p = rows_text true (pin_rows h cfg pins w) in
      let q = rows_text true (pull_state_rows h cfg pins w) in
      let head = codes "{\"pins\":[" in
      let mid = codes "],\"pulls\":[" in
      let ending = codes "]}" in
      let b1 = append_text size head empty_buf in
      let b2 = append_rows size true (pin_rows h cfg pins w) b1 in
      let b3 = append_text size mid b2 in
      let b4 = append_rows size true (pull_state_rows h cfg pins w) b3 in
      let v1 = append_text-IsCut size [] head empty_buf (inl (some_room, refl, refl)) in
      let v2 = append_rows-IsCut size true (pin_rows h cfg pins w) head b1 v1 in
      let v3 = append_text-IsCut size (head ++ p) mid b2 v2 in
      let v4 =
        append_rows-IsCut size true (pull_state_rows h cfg pins w) ((head ++ p) ++ mid) b3 v3 in
      let v5 = append_text-IsCut size (((head ++ p) ++ mid) ++ q) ending b4 v4 in
      let flat : (((head ++ p) ++ mid) ++ q) ++ ending ≡ head ++ (p ++ (mid ++ (q ++ ending))) =
        append_assoc ((head ++ p) ++ mid) q ending
        ∙ append_assoc (head ++ p) mid (q ++ ending)
        ∙ append_assoc head p (mid ++ (q ++ ending)) in
      subst (IsCut size (build_pins_json h cfg size pins w)) flat v5

  -- If the document of the pins, their rows and the rows of the pulls, is shorter than the buffer,
  -- `build_pins_json` leaves it there in whole, counts its length, and writes nothing behind the
  -- buffer.
  pub build_pins_json-Holds :
      (size : ℕ) (pins : Pins) (w : W)
      → length (pins_document pins w) < size
      → Holds size (build_pins_json h cfg size pins w) (pins_document pins w)
  build_pins_json-Holds size pins w fits =
      elim (build_pins_json-IsCut size pins w (omega (arith, fits))) [
        | inl (near, at, whole) ↦ record { whole = whole; at = at; inside = rw whole fits }
        | inr (_, long, _) ↦ absurd (omega (arith, long, fits))
      ]

  -- For a buffer that is not empty, `build_pins_json` leaves the first characters of the document of
  -- the pins in it, one less than the buffer's size at most, with their NUL inside it; and its
  -- offset ends below the size exactly if the whole document is shorter than the buffer.
  pub build_pins_json-take :
      (size : ℕ) (pins : Pins) (w : W)
      → 0 < size
      → let b = build_pins_json h cfg size pins w in
        (b.json ≡ take (size - 1) (pins_document pins w))
        × (length b.json < size)
        × ((b.off < size) ↔ (length (pins_document pins w) < size))
  build_pins_json-take size pins w some_room =
      let t = pins_document pins w in
      let b = build_pins_json h cfg size pins w in
      let short = length-take (size - 1) t in
      elim (build_pins_json-IsCut size pins w some_room) [
        | inl (near, at, whole) ↦
            let all = take-all t (size - 1) (omega (arith, near, at)) in
            (
              whole ∙ sym all,
              rw whole (omega (arith, near, at)),
              (λ _. omega (arith, near, at), λ _. near),
            )
        | inr (far, long, cut) ↦ (
          cut,
          rw cut (omega (arith, short, some_room)),
          (λ n. absurd (omega (arith, n, far)), λ n. absurd (omega (arith, n, long))),
        )
      ]
