-- ===== src/Network/Attempts.antt =====
-- main/network_init.c: how many times a connection is retried.
use esp_usbip_bridge.Base.{
  ℕ, zero, suc, ◌-◌, ◌+◌, ◌≤◌, ◌<◌, ◌≡◌, refl, ap, ap₂, ◌∙◌, List, [], ◌∷◌, ◌++◌, Option, some,
  true, false, ◌||◌, ltb, arith, replicate, Bool-cases, inl, inr,
}
use esp_usbip_bridge.Esp.{esp_ok, esp_fail}
use esp_usbip_bridge.Network.{
  WifiEvent, sta_start, sta_disconnected, sta_got_ip, Wifi, wifi_event_handler, wait_bits,
  wifi_attempt_connect,
}

-- `n` times without a connection, and then an address.
abbrev pub tries : ℕ → List WifiEvent → List WifiEvent
tries n rest = replicate n sta_disconnected ++ (sta_got_ip ∷ rest)

abbrev trying : ℕ → ℕ → Wifi
trying k c = record { retry_count = k; connected = false; failed = false; connects = c }

wait_bits-set :
    (max : ℕ) (es : List WifiEvent) (s : Wifi)
    → (s.connected || s.failed) ≡ true
    → wait_bits max es s ≡ some (s, es)
unfolding wait_bits
wait_bits-set max [] s e = rw e refl
wait_bits-set max (x ∷ es) s e = rw e refl

connected_at :
    (max n k c : ℕ) (rest : List WifiEvent)
    → n + k ≤ max
    → wait_bits max (tries n rest) (trying k c)
      ≡ some (record { retry_count = 0; connected = true; failed = false; connects = c + n }, rest)
unfolding wait_bits wifi_event_handler
connected_at max zero k c rest few =
    let e : c ≡ c + 0 = omega arith in
    wait_bits-set max rest
      (record { retry_count = 0; connected = true; failed = false; connects = c }) refl
    ∙ ap
        (λ x.
          some (record { retry_count = 0; connected = true; failed = false; connects = x }, rest))
        e
connected_at max (suc n) k c rest few =
    let again : ltb k max ≡ true = ground (arith, few) in
    let e : c + 1 + n ≡ c + suc n = omega arith in
    rw again (
      connected_at max n (k + 1) (c + 1) rest (omega arith)
      ∙ ap
          (λ x.
            some (record { retry_count = 0; connected = true; failed = false; connects = x }, rest))
          e)

failed_at :
    (max n k c : ℕ) (rest : List WifiEvent)
    → k ≤ max
    → max < n + k
    → wait_bits max (tries n rest) (trying k c)
      ≡ some (
        record { retry_count = max; connected = false; failed = true; connects = c + (max - k) },
        tries (n + k - max - 1) rest,
      )
unfolding wait_bits wifi_event_handler
failed_at max zero k c rest low many = absurd (omega arith)
failed_at max (suc n) k c rest low many =
    let out : ℕ → ℕ → ℕ → Option (Wifi × List WifiEvent) = λ m x y.
      some (
        record { retry_count = m; connected = false; failed = true; connects = x },
        tries y rest,
      ) in
    elim (Bool-cases (ltb k max)) [
      | inl again ↦
          let e1 : c + 1 + (max - (k + 1)) ≡ c + (max - k) = ground (arith, again) in
          let e2 : n + (k + 1) - max - 1 ≡ suc n + k - max - 1 = omega arith in
          rw again (
            failed_at max n (k + 1) (c + 1) rest (ground (arith, again)) (omega arith)
            ∙ ap₂ (out max) e1 e2)
      | inr last ↦
          let full : k ≡ max = ground (arith, last, low) in
          let e1 : c ≡ c + (max - k) = ground (arith, full) in
          let e2 : n ≡ suc n + k - max - 1 = ground (arith, full) in
          rw last (
            wait_bits-set max (tries n rest)
              (record { retry_count = k; connected = false; failed = true; connects = c }) refl
            ∙ ap (λ m. out m c n) full
            ∙ ap₂ (out max) e1 e2)
    ]

-- An address that comes after no more disconnections than the limit of retries connects.
pub attempt_connects :
    (max n : ℕ) (rest : List WifiEvent) (s : Wifi)
    → n ≤ max
    → wifi_attempt_connect max (sta_start ∷ tries n rest) s
      ≡ some (
        esp_ok,
        record { retry_count = 0; connected = true; failed = false; connects = s.connects + 1 + n },
        rest,
      )
unfolding wifi_attempt_connect wait_bits wifi_event_handler
attempt_connects max n rest s few =
    rw (connected_at max n 0 (s.connects + 1) rest (omega arith)) refl

-- If the station starts, and an address comes only after more disconnections than the limit of
-- retries: an attempt to connect ends with a failure at the disconnection after the last retry, has
-- called `esp_wifi_connect` once and as many times more as the limit says, and leaves the later
-- events.
pub attempt_fails :
    (max n : ℕ) (rest : List WifiEvent) (s : Wifi)
    → max < n
    → wifi_attempt_connect max (sta_start ∷ tries n rest) s
      ≡ some (
        esp_fail,
        record {
          retry_count = max;
          connected = false;
          failed = true;
          connects = s.connects + 1 + max;
        },
        tries (n - max - 1) rest,
      )
unfolding wifi_attempt_connect wait_bits wifi_event_handler
attempt_fails max n rest s many =
    let e1 : s.connects + 1 + (max - 0) ≡ s.connects + 1 + max = omega arith in
    let e2 : n + 0 - max - 1 ≡ n - max - 1 = omega arith in
    rw (failed_at max n 0 (s.connects + 1) rest (omega arith) (omega arith), e1, e2) refl
