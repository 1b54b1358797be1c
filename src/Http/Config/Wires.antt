-- ===== src/Http/Config/Wires.antt =====
-- main/http_server.c: the wires of an exported document, as the loop of the import finds them.
use esp_usbip_bridge.Base.{
  ℕ, suc, ◌+◌, ◌≤◌, ◌<◌, ◌≡◌, ◌≢◌, refl, ap, ◌∙◌, List, [], ◌∷◌, ◌++◌, Option, none, some, false,
  length, drop, arith, length-append, drop-append_left, drop-append, codes, ltb, if◌then◌else◌,
  starts, bytes_eq,
}
use esp_usbip_bridge.Http.Json.{◌>>=◌, strstr, json_str_after}
use esp_usbip_bridge.Http.Json.Laws.{
  NoQuote, strstr-value, json_str_after-here, json_str_after-skip,
}
use esp_usbip_bridge.Http.Pins.{PinEntry}
use esp_usbip_bridge.Http.Host.{HttpHost, HttpConfig}
use esp_usbip_bridge.Http.Config.{
  key_pin, key_wire, field, wire_of, next_wire, apply_wire, import_loop,
}
use esp_usbip_bridge.Http.Config.Ends.{import_loop_ends}
use esp_usbip_bridge.Http.Config.Document.{Wire, wire_body, rest_text, first_text}

abbrev name_pin : List ℕ
name_pin = codes "pin"

-- The names can be written in quotes, and no wire is called `pin`.
abbrev pub AllPlain : List Wire → Type 0
AllPlain [] = Unit
AllPlain ((pin, wire) ∷ wires) =
    NoQuote pin × (NoQuote wire × ((wire ≢ codes "pin") × AllPlain wires))

pin_plain : NoQuote name_pin
pin_plain = (refl, (refl, (refl, tt)))

-- The pin that the import sees next, behind a wire.
next_of : List Wire → Option (List ℕ)
next_of [] = none
next_of ((pin, wire) ∷ wires) = some (wire_body pin wire (rest_text wires))

next_pin-rest_text : (wires : List Wire) → strstr key_pin (b'"' ∷ rest_text wires) ≡ next_of wires
unfolding rest_text next_of wire_body strstr starts bytes_eq
next_pin-rest_text [] = refl
next_pin-rest_text ((pin, wire) ∷ wires) = refl

length-next_of :
    (wires : List Wire) (q : List ℕ) → next_of wires ≡ some q → length q < length (rest_text wires)
unfolding rest_text next_of
length-next_of [] q e = absurd (ground (arith, e))
length-next_of ((pin, wire) ∷ wires) q e = ground (arith, e)

behind : (v rest : List ℕ) → drop (length v + 1) (v ++ (b'"' ∷ rest)) ≡ rest
behind v rest = drop-append v (b'"' ∷ rest) 1 (length v) refl

past_wire_key :
    (wire rest : List ℕ)
    → strstr key_pin (b'"' ∷ (b',' ∷ field key_wire wire rest))
      ≡ strstr key_pin (b'"' ∷ (wire ++ (b'"' ∷ rest)))
unfolding strstr starts bytes_eq
past_wire_key wire rest = refl

wire_of-before :
    (pin wire after rest : List ℕ) (next : Option (List ℕ))
    → ((q : List ℕ) → next ≡ some q → length q ≤ length rest)
    → wire_of pin next after (some (wire, wire ++ (b'"' ∷ rest))) ≡ (some (pin, wire), rest)
unfolding wire_of
wire_of-before pin wire after rest none short = ap (λ t. (some (pin, wire), t)) (behind wire rest)
wire_of-before pin wire after rest (some q) short =
    let at = wire ++ (b'"' ∷ rest) in
    let later : ltb (length at) (length q) ≡ false =
      ground (arith, short q refl, length-append wire (b'"' ∷ rest)) in
    rw later (ap (λ t. (some (pin, wire), t)) (behind wire rest))

next_wire-body :
    (start pin wire : List ℕ) (wires : List Wire)
    → NoQuote start
    → NoQuote pin
    → NoQuote wire
    → wire ≢ name_pin
    → next_wire (start ++ wire_body pin wire (rest_text wires))
      ≡ some (some (pin, wire), rest_text wires)
unfolding next_wire wire_body
next_wire-body start pin wire wires plain_start plain_pin plain_wire ne =
    let rest = rest_text wires in
    let wire_field = field key_wire wire rest in
    let at_pin = pin ++ (b'"' ∷ (b',' ∷ wire_field)) in
    let found : json_str_after (start ++ wire_body pin wire rest) key_pin ≡ some (pin, at_pin) =
      json_str_after-skip (codes "pin\"") start (wire_body pin wire rest) plain_start
      ∙ json_str_after-here (codes "pin\"") pin (b',' ∷ wire_field) plain_pin in
    let next : strstr key_pin (drop (length pin) at_pin) ≡ next_of wires =
      ap (strstr key_pin) (drop-append_left pin (b'"' ∷ (b',' ∷ wire_field)) (length pin) refl)
      ∙ past_wire_key wire rest
      ∙ strstr-value name_pin wire rest pin_plain plain_wire ne
      ∙ next_pin-rest_text wires in
    let after : drop (length pin + 1) at_pin ≡ b',' ∷ wire_field = behind pin (b',' ∷ wire_field) in
    let got : json_str_after (b',' ∷ wire_field) key_wire ≡ some (wire, wire ++ (b'"' ∷ rest)) =
      json_str_after-skip (codes "wire\"") (codes ",") wire_field (refl, tt)
      ∙ json_str_after-here (codes "wire\"") wire rest plain_wire in
    ap
      (λ o. o >>= λ (r : List ℕ × List ℕ). some (
        wire_of r.0 (strstr key_pin (drop (length r.0) r.1)) (drop (length r.0 + 1) r.1)
          (json_str_after (drop (length r.0 + 1) r.1) key_wire)))
      found
    ∙ ap
        (λ (n : Option (List ℕ)). some (
          wire_of pin n (drop (length pin + 1) at_pin)
            (json_str_after (drop (length pin + 1) at_pin) key_wire)))
        next
    ∙ ap (λ (t : List ℕ). some (wire_of pin (next_of wires) t (json_str_after t key_wire))) after
    ∙ ap (λ o. some (wire_of pin (next_of wires) (b',' ∷ wire_field) o)) got
    ∙ ap some (
        wire_of-before pin wire (b',' ∷ wire_field) rest (next_of wires)
          (λ q e. omega (arith, length-next_of wires q e)))

shorter_rest :
    (start pin wire rest : List ℕ) → length rest < length (start ++ wire_body pin wire rest)
unfolding wire_body
shorter_rest start pin wire rest =
    let at_wire = wire ++ (b'"' ∷ rest) in
    let at_pin = pin ++ (b'"' ∷ (b',' ∷ field key_wire wire rest)) in
    omega (
      arith,
      length-append start (field key_pin pin (b',' ∷ field key_wire wire rest)),
      length-append pin (b'"' ∷ (b',' ∷ field key_wire wire rest)),
      length-append wire (b'"' ∷ rest),
    )

nothing_left : next_wire (codes "}]}") ≡ none
unfolding next_wire json_str_after strstr starts bytes_eq
nothing_left = refl

nothing_first : next_wire (codes "]}") ≡ none
unfolding next_wire json_str_after strstr starts bytes_eq
nothing_first = refl

module _ {W : Type 0} (h : HttpHost W) (cfg : HttpConfig) where
  -- Each wire in turn, with the counts.
  unfoldable pub set_all : List PinEntry → List Wire → ℕ → ℕ → W → ℕ × ℕ × W
  set_all entries [] applied skipped w = (applied, skipped, w)
  set_all entries ((pin, wire) ∷ wires) applied skipped w =
      let (done, w1) = apply_wire h cfg entries pin wire w in
      let a = if done then applied + 1 else applied in
      let s = if done then skipped else skipped + 1 in set_all entries wires a s w1

  import_step :
      (entries : List PinEntry) (p p' pin wire : List ℕ) (applied skipped : ℕ) (w : W)
      → next_wire p ≡ some (some (pin, wire), p')
      → length p' < length p
      → let (done, w1) = apply_wire h cfg entries pin wire w in
        let a = if done then applied + 1 else applied in
        let s = if done then skipped else skipped + 1 in
        import_loop h cfg (suc (length p)) entries p applied skipped w
        ≡ import_loop h cfg (suc (length p')) entries p' a s w1
  unfolding import_loop
  import_step entries p p' pin wire applied skipped w e less =
      let (done, w1) = apply_wire h cfg entries pin wire w in
      let a = if done then applied + 1 else applied in
      let s = if done then skipped else skipped + 1 in
      rw (import_loop, e) (import_loop_ends h cfg (length p) entries p' a s w1 less)

  import_none :
      (entries : List PinEntry) (p : List ℕ) (applied skipped : ℕ) (w : W)
      → next_wire p ≡ none
      → import_loop h cfg (suc (length p)) entries p applied skipped w ≡ (applied, skipped, w)
  unfolding import_loop
  import_none entries p applied skipped w e = rw (import_loop, e) refl

  -- A round on a text in front of a wire of the document, and on what follows the wire.
  import_body :
      (entries : List PinEntry) (start pin wire : List ℕ) (wires : List Wire) (applied skipped : ℕ)
      (w : W)
      → NoQuote start
      → AllPlain ((pin, wire) ∷ wires)
      → let (done, w1) = apply_wire h cfg entries pin wire w in
        let a = if done then applied + 1 else applied in
        let s = if done then skipped else skipped + 1 in
        let p = start ++ wire_body pin wire (rest_text wires) in
        import_loop h cfg (suc (length p)) entries p applied skipped w
        ≡ import_loop h cfg (suc (length (rest_text wires))) entries (rest_text wires) a s w1
  import_body entries start pin wire wires applied skipped w plain_start plain =
      let p = start ++ wire_body pin wire (rest_text wires) in
      let next = next_wire-body start pin wire wires plain_start plain.0 plain.1.0 plain.1.1.0 in
      import_step entries p (rest_text wires) pin wire applied skipped w next
        (shorter_rest start pin wire (rest_text wires))

  import_rest :
      (entries : List PinEntry) (wires : List Wire) (applied skipped : ℕ) (w : W)
      → AllPlain wires
      → import_loop h cfg
          (suc (length (rest_text wires)))
          entries
          (rest_text wires)
          applied
          skipped
          w
        ≡ set_all entries wires applied skipped w
  unfolding set_all rest_text
  import_rest entries [] applied skipped w plain =
      import_none entries (codes "}]}") applied skipped w nothing_left
  import_rest entries ((pin, wire) ∷ wires) applied skipped w plain =
      let (done, w1) = apply_wire h cfg entries pin wire w in
      let a = if done then applied + 1 else applied in
      let s = if done then skipped else skipped + 1 in
      import_body entries (codes "},{") pin wire wires applied skipped w (refl, (refl, (refl, tt)))
        plain
      ∙ import_rest entries wires a s w1 plain.1.1.1

  pub import_first :
      (entries : List PinEntry) (wires : List Wire) (w : W)
      → AllPlain wires
      → import_loop h cfg (suc (length (first_text wires))) entries (first_text wires) 0 0 w
        ≡ set_all entries wires 0 0 w
  unfolding set_all first_text
  import_first entries [] w plain = import_none entries (codes "]}") 0 0 w nothing_first
  import_first entries ((pin, wire) ∷ wires) w plain =
      let (done, w1) = apply_wire h cfg entries pin wire w in
      let a = if done then 0 + 1 else 0 in
      let s = if done then 0 else 0 + 1 in
      import_body entries (codes "{") pin wire wires 0 0 w (refl, tt) plain
      ∙ import_rest entries wires a s w1 plain.1.1.1
