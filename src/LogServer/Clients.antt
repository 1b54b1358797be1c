-- ===== src/LogServer/Clients.antt =====
-- main/log_server.c: `s_clients` and what `log_server_task` does with it, against a list of clients that
-- keeps those that a message reached.
use mathlib.Core.List.{Perm, perm_middle}
use mathlib.Core.List.Perm
use esp_usbip_bridge.Base.{
  ℕ, zero, suc, ◌-◌, ◌≤◌, ◌≡◌, refl, sym, ◌∙◌, ap, List, [], ◌∷◌, ◌++◌, none, some, length, take,
  set, get_or, ltb, if◌then◌else◌, arith, append_assoc, append-nil, length-append, length-take,
  Bool-cases, inl, inr, get_or-append_right,
}
use esp_usbip_bridge.LogServer.{
  LogHost, remove_client, send_to_clients, drain, accept_client, log_server_round,
  log_server_max_clients,
}

unfoldable pub reversed {ℓ} : {A : Type ℓ} → List A → List A
reversed [] = []
reversed (x ∷ xs) = reversed xs ++ (x ∷ [])

module _ {ℓ} {A : Type ℓ} where
  length-reversed : (xs : List A) → length (reversed xs) ≡ length xs
  unfolding reversed
  length-reversed [] = refl
  length-reversed (x ∷ xs) = omega (arith, length-append (reversed xs) (x ∷ []), length-reversed xs)

  reversed-append : (xs ys : List A) → reversed (xs ++ ys) ≡ reversed ys ++ reversed xs
  unfolding reversed
  reversed-append [] ys = sym (append-nil (reversed ys))
  reversed-append (x ∷ xs) ys =
      rw (reversed-append xs ys) (append_assoc (reversed ys) (reversed xs) (x ∷ []))

  reversed-reversed : (xs : List A) → reversed (reversed xs) ≡ xs
  unfolding reversed
  reversed-reversed [] = refl
  reversed-reversed (x ∷ xs) =
      reversed-append (reversed xs) (x ∷ []) ∙ ap (λ l. x ∷ l) (reversed-reversed xs)

-- A list without its element at an index, which the last one replaces.
refill : ℕ → List ℕ → List ℕ
refill i xs = let count = length xs - 1 in take count (set xs i (get_or xs count 0))

last_first :
    (t : ℕ) (ts : List ℕ)
    → Perm (get_or (t ∷ ts) (length ts) 0 ∷ take (length ts) (t ∷ ts)) (t ∷ ts)
last_first t [] = Perm.rfl
last_first t (u ∷ us) = Perm.trans (Perm.swap _ _ _) (Perm.cons t (last_first u us))

refill_first : (x : ℕ) (rest : List ℕ) → Perm (refill 0 (x ∷ rest)) rest
unfolding refill
refill_first x [] = Perm.rfl
refill_first x (t ∷ ts) =
    let e : length (x ∷ t ∷ ts) - 1 ≡ suc (length ts) = omega arith in rw e (last_first t ts)

refill-append :
    (front : List ℕ) (x : ℕ) (rest : List ℕ)
    → refill (length front) (front ++ (x ∷ rest)) ≡ front ++ refill 0 (x ∷ rest)
unfolding refill
refill-append [] x rest = refl
refill-append (f ∷ fs) x rest =
    let l = fs ++ (x ∷ rest) in
    let e : length (f ∷ l) - 1 ≡ suc (length l - 1) = omega (arith, length-append fs (x ∷ rest)) in
    rw e (ap (λ k. f ∷ k) (refill-append fs x rest))

refill-perm :
    (front : List ℕ) (x : ℕ) (rest : List ℕ)
    → Perm (refill (length front) (front ++ (x ∷ rest))) (front ++ rest)
refill-perm front x rest =
    rw (refill-append front x rest) (Perm.append_left front (refill_first x rest))

module _ {W : Type 0} (h : LogHost W) where
  -- Every client in turn is sent the message, and is kept or else closed.
  unfoldable pub offer : List ℕ → List ℕ → W → List ℕ × W
  offer msg [] w = ([], w)
  offer msg (c ∷ cs) w =
      let (sent, w1) = h.send c msg w in
      let (kept, w2) = offer msg cs (if sent then w1 else h.close c w1) in
      (if sent then c ∷ kept else kept, w2)

  send_to_clients-offer :
      (cs rest l msg : List ℕ) (w : W)
      → l ≡ reversed cs ++ rest
      → ((send_to_clients h (length cs) msg l w).1 ≡ (offer msg cs w).1)
        × Perm (send_to_clients h (length cs) msg l w).0 ((offer msg cs w).0 ++ rest)
  unfolding send_to_clients remove_client offer reversed refill
  send_to_clients-offer [] rest l msg w split = (refl, rw split Perm.rfl)
  send_to_clients-offer (c ∷ cs) rest l msg w split =
      let flat : l ≡ reversed cs ++ (c ∷ rest) = split ∙ append_assoc (reversed cs) (c ∷ []) rest in
      let here : get_or l (length cs) 0 ≡ c =
        ap (λ k. get_or k (length cs) 0) flat
        ∙ ap (λ k. get_or (reversed cs ++ (c ∷ rest)) k 0) (omega (arith, length-reversed cs))
        ∙ get_or-append_right (reversed cs) (c ∷ rest) 0 0 in
      let w1 = (h.send c msg w).1 in
      elim (Bool-cases (h.send c msg w).0) [
        | inl e ↦
            let (same, perm) = send_to_clients-offer cs (c ∷ rest) l msg w1 flat in
            rw (send_to_clients, offer, here, e)
              (same, Perm.trans perm (perm_middle (offer msg cs w1).0 rest))
        | inr e ↦
            let w2 = h.close c w1 in
            let l' = refill (length cs) l in
            let moved : l' ≡ reversed cs ++ refill 0 (c ∷ rest) =
              ap (refill (length cs)) flat
              ∙ ap (λ k. refill k (reversed cs ++ (c ∷ rest))) (sym (length-reversed cs))
              ∙ refill-append (reversed cs) c rest in
            let (same, perm) = send_to_clients-offer cs (refill 0 (c ∷ rest)) l' msg w2 moved in
            rw (send_to_clients, offer, here, e)
              (same, Perm.trans perm (Perm.append_left (offer msg cs w2).0 (refill_first c rest)))
      ]

  -- Sending a message to the clients does to the world what offering it to each of them, from the
  -- last to the first, and closing those that it does not reach does; the clients that are left are
  -- the ones that it reached, in some order.
  pub send_to_clients_lem :
      (clients msg : List ℕ) (w : W)
      → let (left, w') = send_to_clients h (length clients) msg clients w in
        let (kept, w'') = offer msg (reversed clients) w in (w' ≡ w'') × Perm left kept
  send_to_clients_lem clients msg w =
      let back = reversed (reversed clients) in
      let split : clients ≡ reversed (reversed clients) ++ [] =
        sym (reversed-reversed clients) ∙ sym (append-nil (reversed (reversed clients))) in
      let (same, perm) = send_to_clients-offer (reversed clients) [] clients msg w split in
      rw (← length-reversed clients)
        (same, rw (append-nil (offer msg (reversed clients) w).0) at perm)

  offer_fewer : (msg clients : List ℕ) (w : W) → length (offer msg clients w).0 ≤ length clients
  unfolding offer
  offer_fewer msg [] w = omega arith
  offer_fewer msg (c ∷ cs) w = elim (Bool-cases (h.send c msg w).0) [
    | inl e ↦ rw e (omega (arith, offer_fewer msg cs (h.send c msg w).1))
    | inr e ↦ rw e (omega (arith, offer_fewer msg cs (h.close c (h.send c msg w).1)))
  ]

  send_to_clients_fewer :
      (i : ℕ) (msg l : List ℕ) (w : W) → length (send_to_clients h i msg l w).0 ≤ length l
  unfolding send_to_clients remove_client
  send_to_clients_fewer zero msg l w = omega arith
  send_to_clients_fewer (suc i) msg l w =
      let (sent, w1) = h.send (get_or l i 0) msg w in
      let count = length l - 1 in
      let l' = take count (set l i (get_or l count 0)) in
      ground (
        arith,
        length-take count (set l i (get_or l count 0)),
        send_to_clients_fewer i msg l w1,
        send_to_clients_fewer i msg l' (h.close (get_or l i 0) w1),
      )

  drain_fewer : (msgs : List (List ℕ)) (l : List ℕ) (w : W) → length (drain h msgs l w).0 ≤ length l
  unfolding drain
  drain_fewer [] l w = omega arith
  drain_fewer (msg ∷ msgs) l w =
      let (l', w1) = send_to_clients h (length l) msg l w in
      omega (arith, send_to_clients_fewer (length l) msg l w, drain_fewer msgs l' w1)

  accept_client_bounded : (l : List ℕ) (w : W) → length l ≤ 4 → length (accept_client h l w).0 ≤ 4
  unfolding accept_client
  accept_client_bounded l w few =
      elim (h.accept w).0
        as (λ fd.
          length
            (if ltb (length l) 4
              then elim fd as (λ _. List ℕ × W) [
                | none ↦ (l, (h.accept w).1)
                | some c ↦ (l ++ (c ∷ []), (h.accept w).1)
              ]
              else (l, w)).0
          ≤ 4) [ none ↦ ground arith | some c ↦ ground (arith, length-append l (c ∷ [])) ]

  -- A round leaves as many clients as the array has room for, at most, if it finds no more.
  pub log_server_round_bounded :
      (msgs : List (List ℕ)) (l : List ℕ) (w : W)
      → length l ≤ log_server_max_clients
      → length (log_server_round h msgs l w).0 ≤ log_server_max_clients
  unfolding log_server_round
  log_server_round_bounded msgs l w few =
      let (l', w1) = accept_client h l w in
      omega (arith, accept_client_bounded l w few, drain_fewer msgs l' w1)
