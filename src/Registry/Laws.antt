-- ===== src/Registry/Laws.antt =====
-- main/virtual_device.c: the virtual devices' table, its numbering, and what a lookup finds in it.
use esp_usbip_bridge.Base.{
  ℕ, zero, suc, ◌+◌, ◌≤◌, ◌<◌, ◌≡◌, refl, List, [], ◌∷◌, ◌++◌, none, some, true, false, is_some,
  length, not, leb, if_ind, Bool, ◌||◌, ◌==◌, ap, get_elem?, length-append, c_string, padded,
  bytes_eq_sound, bytes_eq_refl, busid_text, busid_text-NoNul, length-busid_text,
  busid_text-injective, busid_text-ne, padded-injective, c_string-store_text, Bool-cases, ◌⊎◌, inl,
  inr, arith,
}
use esp_usbip_bridge.Esp.{EspErr, esp_ok, is_ok}
use esp_usbip_bridge.Registry.{
  VirtualDevice, Registry, virtual_device_busnum, virtual_device_max, assign_busid,
  busid_matches_key, write_device, register, find_loop, find_by_busid,
}

-- The key of a bus id: the 32 bytes that a client sends for it.
abbrev pub busid_key : ℕ → ℕ → List ℕ
busid_key b n = padded 32 (busid_text b n)

-- A device whose stored bus id is a text answers to the key of that text, and of no other.
pub busid_matches_key_self :
    (b n : ℕ) (stored : List ℕ)
    → c_string stored ≡ busid_text b n
    → busid_matches_key (busid_key b n) stored ≡ true
unfolding busid_matches_key
busid_matches_key_self b n stored e = rw e (bytes_eq_refl (busid_key b n))

pub busid_matches_key-text :
    (b n c m : ℕ) (stored : List ℕ)
    → c_string stored ≡ busid_text c m
    → busid_matches_key (busid_key b n) stored ≡ true
    → busid_text b n ≡ busid_text c m
unfolding busid_matches_key
busid_matches_key-text b n c m stored e h =
    padded-injective 32 (busid_text b n) (busid_text c m) (busid_text-NoNul b n)
      (busid_text-NoNul c m) (omega (arith, length-busid_text b n))
      (omega (arith, length-busid_text c m))
      (bytes_eq_sound (busid_key b n) (busid_key c m) (rw e at h))

module _ {O : Type 0} where
  -- The devices from place `k` on carry the numbers of their places.
  abbrev pub IsNumbered : ℕ → Registry O → Type 0
  IsNumbered k [] = Unit
  IsNumbered k (d ∷ ds) =
      (d.desc.busnum ≡ virtual_device_busnum)
      × (d.desc.devnum ≡ suc k)
      × (c_string d.desc.busid ≡ busid_text virtual_device_busnum (suc k))
      × IsNumbered (suc k) ds

  pub record IsValid (r : Registry O) : Type 0 where
    pub room : length r ≤ 4
    pub numbered : IsNumbered 0 r

  IsNumbered-append :
      (k : ℕ) (r : Registry O) (dev : VirtualDevice O)
      → IsNumbered k r
      → IsNumbered k (r ++ (record dev { desc = assign_busid (k + length r + 1) dev.desc } ∷ []))
  unfolding assign_busid
  IsNumbered-append k [] dev h =
      let e : k + 0 + 1 ≡ suc k = omega arith in
      (
        refl,
        e,
        rw e (
            c_string-store_text 32 (busid_text 2 (suc k)) dev.desc.busid
              (busid_text-NoNul 2 (suc k)) (omega (arith, length-busid_text 2 (suc k)))),
        tt,
      )
  IsNumbered-append k (d ∷ ds) dev h =
      let e : k + suc (length ds) + 1 ≡ suc k + length ds + 1 = omega arith in
      (h.0, h.1, h.2, rw e (IsNumbered-append (suc k) ds dev h.3))

  -- Whether the pointer is in the table already.
  unfoldable pub is_registered : ℕ → Registry O → Bool
  is_registered address [] = false
  is_registered address (d ∷ ds) = d.address == address || is_registered address ds

  write_device-new :
      (dev : VirtualDevice O) (r : Registry O)
      → is_registered dev.address r ≡ false
      → write_device dev r ≡ r
  unfolding write_device is_registered
  write_device-new dev [] h = refl
  write_device-new dev (d ∷ ds) h =
      let here : (d.address == dev.address) ≡ false = ground (arith, h) in
      rw here (ap (λ l. d ∷ l) (write_device-new dev ds (ground (arith, h, here))))

  length-write_device :
      (dev : VirtualDevice O) (r : Registry O) → length (write_device dev r) ≡ length r
  unfolding write_device
  length-write_device dev [] = refl
  length-write_device dev (d ∷ ds) = omega (arith, length-write_device dev ds)

  -- A number beyond the table's, at the place of a pointer that was there.
  write_device-spoils :
      (k : ℕ) (dev : VirtualDevice O) (r : Registry O) (more : Registry O)
      → k + length r < dev.desc.devnum
      → is_registered dev.address r ≡ true
      → ¬ IsNumbered k (write_device dev r ++ more)
  unfolding write_device is_registered
  write_device-spoils k dev [] more big h n = absurd (ground (arith, h))
  write_device-spoils k dev (d ∷ ds) more big h n = elim (Bool-cases (d.address == dev.address)) [
    | inl e ↦ absurd (ground (arith, rw e at n.1, big))
    | inr e ↦
        write_device-spoils (suc k) dev ds more (omega (arith, big)) (ground (arith, h, e)) n.3
  ]

  -- If the table of virtual devices has four entries at most and every device carries the bus number
  -- 2, the number of its place and the bus id made of them, this holds again after
  -- `virtual_device_register` of a device; or the call succeeded, the pointer was in the table
  -- already, and the property is lost.
  pub register-IsValid :
      (dev : VirtualDevice O) (r : Registry O)
      → IsValid r
      → let (err, r') = register (some dev) r in
        IsValid r' ⊎ ((err ≡ esp_ok) × (is_registered dev.address r ≡ true) × (¬ IsValid r'))
  unfolding register
  register-IsValid dev r v =
      let dev' = record dev { desc = assign_busid (length r + 1) dev.desc } in
      let P : EspErr × Registry O → Type 0 = λ s.
        IsValid s.1 ⊎ ((s.0 ≡ esp_ok) × (is_registered dev.address r ≡ true) × (¬ IsValid s.1)) in
      if_ind P (not (is_some dev.ops)) (λ _. inl v)
        (λ _.
          if_ind P (leb virtual_device_max (length r)) (λ _. inl v)
            (λ few.
              let start : 0 + length r ≡ length r = omega arith in
              elim (Bool-cases (is_registered dev.address r)) [
                | inl e ↦ inr (
                  refl,
                  e,
                  λ bad.
                      write_device-spoils 0 dev' r (dev' ∷ []) (unfold assign_busid in omega arith)
                        e bad.numbered,
                )
                | inr e ↦ inl (record {
                  room = ground (
                    arith,
                    few,
                    length-append (write_device dev' r) (dev' ∷ []),
                    length-write_device dev' r,
                  );
                  numbered =
                      rw (write_device-new dev' r e)
                        (rw start at (IsNumbered-append 0 r dev v.numbered));
                })
              ]))

  find_loop-written :
      (k n : ℕ) (dev : VirtualDevice O) (r : Registry O)
      → IsNumbered k r
      → k + length r < n
      → n < 4294967296
      → c_string dev.desc.busid ≡ busid_text 2 n
      → find_loop (busid_key 2 n) (write_device dev r ++ (dev ∷ [])) ≡ some dev
  unfolding find_loop write_device
  find_loop-written k n dev [] h big small e = rw (busid_matches_key_self 2 n dev.desc.busid e) refl
  find_loop-written k n dev (d ∷ ds) h big small e = elim (Bool-cases (d.address == dev.address)) [
    | inl q ↦ rw (q, busid_matches_key_self 2 n dev.desc.busid e) refl
    | inr q ↦ rw q (elim (Bool-cases (busid_matches_key (busid_key 2 n) d.desc.busid)) [
      | inl m ↦ absurd (
          omega (
            arith,
            busid_text-injective 2 n (suc k) small (omega arith)
                (busid_matches_key-text 2 n 2 (suc k) d.desc.busid h.2 m),
          ))
      | inr m ↦ rw m (find_loop-written (suc k) n dev ds h.3 (omega arith) small e)
    ])
  ]

  -- After a registration with success, the next bus id of the table finds the device.
  pub register-finds :
      (dev : VirtualDevice O) (r : Registry O)
      → IsValid r
      → is_ok (register (some dev) r).0 ≡ true
      → find_by_busid (some (busid_key 2 (suc (length r)))) (register (some dev) r).1
        ≡ some (record dev { desc = assign_busid (length r + 1) dev.desc })
  unfolding register find_by_busid
  register-finds dev r v ok =
      let n = length r + 1 in
      let dev' = record dev { desc = assign_busid n dev.desc } in
      let P : EspErr × Registry O → Type 0 =
        λ s. is_ok s.0 ≡ true → find_loop (busid_key 2 (suc (length r))) s.1 ≡ some dev' in
      let named : c_string dev'.desc.busid ≡ busid_text 2 n =
        unfold assign_busid in
        c_string-store_text 32 (busid_text 2 n) dev.desc.busid (busid_text-NoNul 2 n)
          (omega (arith, length-busid_text 2 n)) in
      let e : suc (length r) ≡ n = omega arith in
      if_ind P (not (is_some dev.ops)) (λ _ g. absurd (ground (arith, g)))
        (λ _.
          if_ind P (leb virtual_device_max (length r)) (λ _ g. absurd (ground (arith, g)))
            (λ few _. rw e (
              find_loop-written 0 n dev' r v.numbered (omega arith) (ground (arith, v.room))
                named)))
        ok

  find_loop-numbered :
      (k i n : ℕ) (r : Registry O)
      → IsNumbered k r
      → n ≡ suc (k + i)
      → k + length r < 4294967295
      → n < 4294967296
      → find_loop (busid_key 2 n) r ≡ get_elem? r i
  unfolding find_loop
  find_loop-numbered k i n [] h e small hi = refl
  find_loop-numbered k zero n (d ∷ ds) h e small hi =
      let e' : n ≡ suc k = omega arith in rw (e', busid_matches_key_self 2 (suc k) d.desc.busid h.2)
  find_loop-numbered k (suc i) n (d ∷ ds) h e small hi =
      elim (Bool-cases (busid_matches_key (busid_key 2 n) d.desc.busid)) [
        | inl m ↦ absurd (
            omega (
              arith,
              busid_text-injective 2 n (suc k) hi (omega arith)
                  (busid_matches_key-text 2 n 2 (suc k) d.desc.busid h.2 m),
            ))
        | inr m ↦ rw m (find_loop-numbered (suc k) i n ds h.3 (omega arith) (omega arith) hi)
      ]

  -- In a valid table of virtual devices the key of `2-(i+1)`, for `i` below 4294967295, finds the
  -- device at place `i`, and nothing if there is no such place.
  pub find_by_busid-eq-get_elem? :
      (r : Registry O) (i : ℕ)
      → IsValid r
      → i < 4294967295
      → find_by_busid (some (busid_key 2 (suc i))) r ≡ get_elem? r i
  unfolding find_by_busid
  find_by_busid-eq-get_elem? r i v hi =
      find_loop-numbered 0 i (suc i) r v.numbered (omega arith) (omega (arith, v.room))
        (omega arith)

  find_loop-other : (k n : ℕ) (r : Registry O) → IsNumbered k r → find_loop (busid_key 1 n) r ≡ none
  unfolding find_loop
  find_loop-other k n [] h = refl
  find_loop-other k n (d ∷ ds) h =
      elim (Bool-cases (busid_matches_key (busid_key 1 n) d.desc.busid)) [
        | inl e ↦
            absurd
              (busid_text-ne n (suc k) (busid_matches_key-text 1 n 2 (suc k) d.desc.busid h.2 e))
        | inr e ↦ rw e (find_loop-other (suc k) n ds h.3)
      ]

  -- The bus ids of the physical bus find no virtual device.
  pub find_by_busid-physical :
      (r : Registry O) (n : ℕ) → IsValid r → find_by_busid (some (busid_key 1 n)) r ≡ none
  unfolding find_by_busid
  find_by_busid-physical r n v = find_loop-other 0 n r v.numbered
