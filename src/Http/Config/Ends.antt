-- ===== src/Http/Config/Ends.antt =====
-- main/http_server.c: the loop of the import comes to its end.
use esp_usbip_bridge.Base.{
  ℕ, zero, suc, ◌+◌, ◌≤◌, ◌<◌, ◌≡◌, refl, List, [], ◌∷◌, Option, none, some, length, drop, arith,
  length-drop, if_ind, if◌then◌else◌, Option-cases, inl, inr, ltb,
}
use esp_usbip_bridge.Http.Json.{strstr, strchr, quoted, json_str_after}
use esp_usbip_bridge.Http.Pins.{PinEntry}
use esp_usbip_bridge.Http.Host.{HttpHost, HttpConfig}
use esp_usbip_bridge.Http.Config.{key_pin, key_wire, wire_of, next_wire, apply_wire, import_loop}

strstr-shorter : (needle text k : List ℕ) → strstr needle text ≡ some k → length k ≤ length text
unfolding strstr
strstr-shorter needle [] k e = ground (arith, e)
strstr-shorter needle (c ∷ cs) k e = ground (arith, e, strstr-shorter needle cs k)

strchr-shorter : (x : ℕ) (text k : List ℕ) → strchr x text ≡ some k → length k ≤ length text
unfolding strchr
strchr-shorter x [] k e = ground (arith, e)
strchr-shorter x (c ∷ cs) k e = ground (arith, e, strchr-shorter x cs k)

strchr-some : (x : ℕ) (text k : List ℕ) → strchr x text ≡ some k → 1 ≤ length k
unfolding strchr
strchr-some x [] k e = ground (arith, e)
strchr-some x (c ∷ cs) k e = ground (arith, e, strchr-some x cs k)

quoted-shorter : (text v at : List ℕ) → quoted text ≡ some (v, at) → length at < length text
unfolding quoted
quoted-shorter text v at e = elim (Option-cases (strchr b'"' text)) [
  | inl q ↦ absurd (ground (arith, q, e))
  | inr (k, q) ↦ elim (Option-cases (strchr b'"' (drop 1 k))) [
    | inl r ↦ absurd (ground (arith, q, r, e))
    | inr (k', r) ↦
        ground
          (arith, q, r, e, strchr-shorter b'"' text k q, strchr-some b'"' text k q, length-drop 1 k)
  ]
]

json_str_after-shorter :
    (text key v at : List ℕ) → json_str_after text key ≡ some (v, at) → length at < length text
unfolding json_str_after
json_str_after-shorter text key v at e = elim (Option-cases (strstr key text)) [
  | inl q ↦ absurd (ground (arith, q, e))
  | inr (k, q) ↦ elim (Option-cases (strchr b':' (drop (length key) k))) [
    | inl r ↦ absurd (ground (arith, q, r, e))
    | inr (c, r) ↦ ground (
      arith,
      q,
      r,
      e,
      strstr-shorter key text k q,
      strchr-shorter b':' (drop (length key) k) c r,
      length-drop (length key) k,
      quoted-shorter c v at,
    )
  ]
]

-- Wherever the search goes on, less is left.
wire_of-shorter :
    (pin after : List ℕ) (next : Option (List ℕ)) (wire : Option (List ℕ × List ℕ)) (n : ℕ)
    → ((q : List ℕ) → next ≡ some q → length q < n)
    → ((v at : List ℕ) → wire ≡ some (v, at) → length at < n)
    → length after < n
    → length (wire_of pin next after wire).1 < n
unfolding wire_of
wire_of-shorter pin after none none n short wires fits = fits
wire_of-shorter pin after (some q) none n short wires fits = short q refl
wire_of-shorter pin after none (some (v, at)) n short wires fits =
    omega (arith, wires v at refl, length-drop (length v + 1) at)
wire_of-shorter pin after (some q) (some (v, at)) n short wires fits =
    if_ind (λ (r : Option (List ℕ × List ℕ) × List ℕ). length r.1 < n) (ltb (length at) (length q))
      (λ _. short q refl) (λ _. omega (arith, wires v at refl, length-drop (length v + 1) at))

next_wire-shorter :
    (p p' : List ℕ) (o : Option (List ℕ × List ℕ))
    → next_wire p ≡ some (o, p')
    → length p' < length p
unfolding next_wire
next_wire-shorter p p' o e = elim (Option-cases (json_str_after p key_pin)) [
  | inl q ↦ absurd (ground (arith, q, e))
  | inr (r, q) ↦
      let (pin, at_pin) = r in
      let after = drop (length pin + 1) at_pin in
      let beyond = drop (length pin) at_pin in
      let shorter = json_str_after-shorter p key_pin pin at_pin q in
      let fits : length after < length p =
        omega (arith, shorter, length-drop (length pin + 1) at_pin) in
      let short =
        wire_of-shorter pin after (strstr key_pin beyond) (json_str_after after key_wire) (length p)
          (λ k f.
            omega
              (arith, shorter, strstr-shorter key_pin beyond k f, length-drop (length pin) at_pin))
          (λ v at f. omega (arith, json_str_after-shorter after key_wire v at f, fits)) fits in
      ground (arith, q, e, short)
]

module _ {W : Type 0} (h : HttpHost W) (cfg : HttpConfig) where
  import_loop_same :
      (r1 r2 : ℕ) (entries : List PinEntry) (p : List ℕ) (applied skipped : ℕ) (w : W)
      → length p < r1
      → length p < r2
      → import_loop h cfg r1 entries p applied skipped w
        ≡ import_loop h cfg r2 entries p applied skipped w
  unfolding import_loop
  import_loop_same zero r2 entries p applied skipped w h1 h2 = absurd (omega arith)
  import_loop_same (suc r1) zero entries p applied skipped w h1 h2 = absurd (omega arith)
  import_loop_same (suc r1) (suc r2) entries p applied skipped w h1 h2 =
      elim (Option-cases (next_wire p)) [
        | inl e ↦ rw (import_loop, e) refl
        | inr ((none, p'), e) ↦
            let less = next_wire-shorter p p' none e in
            rw (import_loop, e)
              (import_loop_same r1 r2 entries p' applied (skipped + 1) w (omega arith)
                (omega arith))
        | inr ((some (pin, wire), p'), e) ↦
            let less = next_wire-shorter p p' (some (pin, wire)) e in
            let (done, w1) = apply_wire h cfg entries pin wire w in
            let a = if done then applied + 1 else applied in
            let s = if done then skipped else skipped + 1 in
            rw (import_loop, e)
              (import_loop_same r1 r2 entries p' a s w1 (omega arith) (omega arith))
      ]

  -- The loop of the import gives the same result for every number of rounds above the number of
  -- characters: it ends.
  pub import_loop_ends :
      (rounds : ℕ) (entries : List PinEntry) (p : List ℕ) (applied skipped : ℕ) (w : W)
      → length p < rounds
      → import_loop h cfg rounds entries p applied skipped w
        ≡ import_loop h cfg (suc (length p)) entries p applied skipped w
  import_loop_ends rounds entries p applied skipped w enough =
      import_loop_same rounds (suc (length p)) entries p applied skipped w enough (omega arith)
