-- ===== src/Naming/Keys.antt =====
-- main/device_naming.c: the keys of the devices' names.
use esp_usbip_bridge.Base.{
  hex_digit, ℕ, ◌+◌, ◌*◌, ◌/◌, ◌%◌, ◌<◌, ◌≡◌, ◌≢◌, refl, ap, ◌∙◌, List, [], ◌∷◌, ltb, length, arith,
  drop, byte_at, Bool-cases, inl, inr, ap₂,
}
use esp_usbip_bridge.Naming.{hex_byte, hex_text, device_name_key}

-- Characters are bytes.
abbrev pub AllBytes : List ℕ → Type 0
AllBytes [] = Unit
AllBytes (b ∷ bs) = (b < 256) × AllBytes bs

hex_digit-injective : (a b : ℕ) → a < 16 → b < 16 → hex_digit a ≡ hex_digit b → a ≡ b
unfolding hex_digit
hex_digit-injective a b ha hb e = ground (arith, ha, hb, e)

hex_text-injective : (s t : List ℕ) → AllBytes s → AllBytes t → hex_text s ≡ hex_text t → s ≡ t
unfolding hex_text hex_byte
hex_text-injective [] [] hs ht e = refl
hex_text-injective [] (b ∷ t) hs ht e = absurd (omega (arith, ap length e))
hex_text-injective (a ∷ s) [] hs ht e = absurd (omega (arith, ap length e))
hex_text-injective (a ∷ s) (b ∷ t) hs ht e =
    let high =
      hex_digit-injective (a / 16) (b / 16) (omega (arith, hs.0)) (omega (arith, ht.0))
        (ap (λ l. byte_at l 0) e) in
    let low =
      hex_digit-injective (a % 16) (b % 16) (omega arith) (omega arith) (ap (λ l. byte_at l 1) e) in
    let rest = hex_text-injective s t hs.1 ht.1 (ap (drop 2) e) in
    ap₂ (λ x xs. x ∷ xs) (omega (arith, high, low)) rest

-- Two bus ids of bytes that `device_name_key` gives one key are equal, unless that key is the empty
-- text that stands for a bus id which does not fit.
pub device_name_key-injective :
    (s t : List ℕ) (key_size : ℕ)
    → AllBytes s
    → AllBytes t
    → device_name_key s key_size ≢ []
    → device_name_key s key_size ≡ device_name_key t key_size
    → s ≡ t
unfolding device_name_key
device_name_key-injective s t key_size hs ht h e =
    elim (Bool-cases (ltb key_size (5 + length s * 2 + 1))) [
      | inl p ↦ absurd (h (rw (p, device_name_key) refl))
      | inr p ↦ elim (Bool-cases (ltb key_size (5 + length t * 2 + 1))) [
        | inl q ↦ absurd (h (e ∙ rw (q, device_name_key) refl))
        | inr q ↦ hex_text-injective s t hs ht (ap (drop 5) (rw (p, q, device_name_key) at e))
      ]
    ]
