-- ===== src/Naming/Stored.antt =====
-- main/device_naming.c: the setters and the getters over a storage that is a map.
use esp_usbip_bridge.Base.{
  ℕ, ◌≤◌, ◌<◌, ◌≡◌, ◌≢◌, refl, sym, ap, ◌∙◌, List, [], ◌∷◌, Option, none, some, true, false, not,
  ltb, if◌then◌else◌, length, arith, if_ind, Bool-cases, inl, inr,
}
use esp_usbip_bridge.Esp.{EspErr, esp_ok, is_ok}
use esp_usbip_bridge.Naming.{
  Nvs, device_name_key, key_hostname, is_empty, default_hostname, get_hostname, store_value,
  set_hostname, key_board_id, get_board_id, set_board_id, get_device_name, set_device_name,
}
use esp_usbip_bridge.Naming.Keys.{AllBytes, device_name_key-injective}

-- The storage is a map from keys to texts: a write that succeeds sets its key, no write touches
-- another key, and nothing else changes the map.
pub record IsStore {U : Type 0} (nvs : Nvs U) (lookup : U → List ℕ → Option (List ℕ)) : Type 0 where
  pub rw_keeps : (k : List ℕ) (u : U) → lookup (nvs.open_rw u).1 k ≡ lookup u k
  pub ro_keeps : (k : List ℕ) (u : U) → lookup (nvs.open_ro u).1 k ≡ lookup u k
  pub close_keeps : (k : List ℕ) (u : U) → lookup (nvs.close u) k ≡ lookup u k
  pub commit_keeps : (k : List ℕ) (u : U) → lookup (nvs.commit u).1 k ≡ lookup u k
  pub get_some :
      (k v : List ℕ) (size : ℕ) (u : U)
      → lookup u k ≡ some v
      → length v < size
      → nvs.get_str k size u ≡ (esp_ok, v)
  pub get_none :
      (k : List ℕ) (size : ℕ) (u : U) → lookup u k ≡ none → is_ok (nvs.get_str k size u).0 ≡ false
  pub set_ok :
      (k v : List ℕ) (u : U)
      → is_ok (nvs.set_str k v u).0 ≡ true
      → lookup (nvs.set_str k v u).1 k ≡ some v
  pub set_other : (k k' v : List ℕ) (u : U) → k ≢ k' → lookup (nvs.set_str k v u).1 k' ≡ lookup u k'
  pub erase_ok :
      (k : List ℕ) (u : U)
      → is_ok (nvs.erase_key k u).0 ≡ true
      → lookup (nvs.erase_key k u).1 k ≡ none
  pub erase_other : (k k' : List ℕ) (u : U) → k ≢ k' → lookup (nvs.erase_key k u).1 k' ≡ lookup u k'

-- What a key holds after a text was written to it.
abbrev pub held : List ℕ → Option (List ℕ)
held v = if is_empty v then none else some v

is_empty-nil : (name : List ℕ) → is_empty name ≡ true → name ≡ []
is_empty-nil [] e = refl
is_empty-nil (c ∷ cs) e = absurd (ground (arith, e))

module _ {U : Type 0} (nvs : Nvs U) (lookup : U → List ℕ → Option (List ℕ))
    (law : IsStore nvs lookup) where
  pub store_value-held :
      (k v : List ℕ) (u : U)
      → is_ok (store_value nvs k v u).0 ≡ true
      → lookup (store_value nvs k v u).1 k ≡ held v
  unfolding store_value
  store_value-held k v u =
      let P : EspErr × U → Type 0 = λ r. is_ok r.0 ≡ true → lookup r.1 k ≡ held v in
      let u1 = (nvs.open_rw u).1 in
      let w = if is_empty v then nvs.erase_key k u1 else nvs.set_str k v u1 in
      let written : is_ok w.0 ≡ true → lookup w.1 k ≡ held v = elim (Bool-cases (is_empty v)) [
        | inl e ↦ rw e (law.erase_ok k u1)
        | inr e ↦ rw e (law.set_ok k v u1)
      ] in
      if_ind P (not (is_ok (nvs.open_rw u).0)) (λ h g. absurd (ground (arith, h, g)))
        (λ _.
          if_ind P (is_ok w.0)
            (λ h _. law.close_keeps k (nvs.commit w.1).1 ∙ law.commit_keeps k w.1 ∙ written h)
            (λ h g. absurd (ground (arith, h, g))))

  store_value-other :
      (k k' v : List ℕ) (u : U) → k ≢ k' → lookup (store_value nvs k v u).1 k' ≡ lookup u k'
  unfolding store_value
  store_value-other k k' v u ne =
      let P : EspErr × U → Type 0 = λ r. lookup r.1 k' ≡ lookup u k' in
      let u1 = (nvs.open_rw u).1 in
      let w = if is_empty v then nvs.erase_key k u1 else nvs.set_str k v u1 in
      let opened = law.rw_keeps k' u in
      let written : lookup w.1 k' ≡ lookup u k' = elim (Bool-cases (is_empty v)) [
        | inl e ↦ rw e (law.erase_other k k' u1 ne ∙ opened)
        | inr e ↦ rw e (law.set_other k k' v u1 ne ∙ opened)
      ] in
      if_ind P (not (is_ok (nvs.open_rw u).0)) (λ _. opened)
        (λ _.
          if_ind P (is_ok w.0)
            (λ _. law.close_keeps k' (nvs.commit w.1).1 ∙ law.commit_keeps k' w.1 ∙ written)
            (λ _. law.close_keeps k' w.1 ∙ written))

  get_hostname_found :
      (v : List ℕ) (size : ℕ) (u : U)
      → is_ok (nvs.open_ro u).0 ≡ true
      → nvs.get_str key_hostname size (nvs.open_ro u).1 ≡ (esp_ok, v)
      → is_empty v ≡ false
      → 1 ≤ size
      → get_hostname nvs size u ≡ (esp_ok, v, nvs.close (nvs.open_ro u).1)
  unfolding get_hostname
  get_hostname_found v size u opened found full room =
      let big : ltb size 1 ≡ false = ground (arith, room) in
      let some_text : ltb 0 (length v) ≡ true = ground (arith, full) in
      rw (big, opened, found, some_text, get_hostname) refl

  get_hostname_missing :
      (size : ℕ) (u : U)
      → is_ok (nvs.open_ro u).0 ≡ true
      → is_ok (nvs.get_str key_hostname size (nvs.open_ro u).1).0 ≡ false
      → 1 ≤ size
      → let u2 = nvs.close (nvs.open_ro u).1 in
        get_hostname nvs size u ≡ (esp_ok, default_hostname nvs size u2, u2)
  unfolding get_hostname
  get_hostname_missing size u opened missing room =
      let big : ltb size 1 ≡ false = ground (arith, room) in
      rw (big, opened, missing, get_hostname) refl

  -- Over a storage that is a map: after a successful `device_naming_set_hostname` of a text that
  -- fits the reader's buffer with its NUL, and if the storage can be opened,
  -- `device_naming_get_hostname` succeeds with that text, and with the default name if the text is
  -- empty.
  pub hostname_roundtrip :
      (name : List ℕ) (size : ℕ) (u : U)
      → is_ok (set_hostname nvs (some name) u).0 ≡ true
      → is_ok (nvs.open_ro (set_hostname nvs (some name) u).1).0 ≡ true
      → length name < size
      → let (err, text, u'') = get_hostname nvs size (set_hostname nvs (some name) u).1 in
        (err ≡ esp_ok) × (text ≡ (if is_empty name then default_hostname nvs size u'' else name))
  unfolding set_hostname
  hostname_roundtrip name size u done opened fits =
      let u' = (store_value nvs key_hostname name u).1 in
      let u1 = (nvs.open_ro u').1 in
      let here : lookup u1 key_hostname ≡ held name =
        law.ro_keeps key_hostname u' ∙ store_value-held key_hostname name u done in
      let room : ltb size 1 ≡ false = ground (arith, fits) in
      elim (Bool-cases (is_empty name)) [
        | inl e ↦
            let missing = law.get_none key_hostname size u1 (here ∙ rw e refl) in
            ground (arith, e, get_hostname_missing size u' opened missing (omega (arith, fits)))
        | inr e ↦
            let found = law.get_some key_hostname name size u1 (here ∙ rw e refl) fits in
            ground (arith, e, get_hostname_found name size u' opened found e (omega (arith, fits)))
      ]

  -- Over a storage that is a map: after a successful `device_naming_set_board_id` of a text that fits
  -- the reader's buffer, also the empty one, `device_naming_get_board_id` returns it, in any world
  -- that holds the same id and whose storage can be opened.
  pub board_id_roundtrip :
      (name : List ℕ) (size : ℕ) (u v : U)
      → is_ok (set_board_id nvs (some name) u).0 ≡ true
      → lookup v key_board_id ≡ lookup (set_board_id nvs (some name) u).1 key_board_id
      → is_ok (nvs.open_ro v).0 ≡ true
      → length name < size
      → (get_board_id nvs size v).1 ≡ name
  unfolding set_board_id get_board_id
  board_id_roundtrip name size u v done same opened fits =
      let u1 = (nvs.open_ro v).1 in
      let here : lookup u1 key_board_id ≡ held name =
        law.ro_keeps key_board_id v ∙ same ∙ store_value-held key_board_id name u done in
      let room : ltb size 1 ≡ false = ground (arith, fits) in
      elim (Bool-cases (is_empty name)) [
        | inl e ↦
            let missing = law.get_none key_board_id size u1 (here ∙ rw e refl) in
            let blank : name ≡ [] = is_empty-nil name e in rw (room, opened, missing) (sym blank)
        | inr e ↦
            let found = law.get_some key_board_id name size u1 (here ∙ rw e refl) fits in
            rw (room, opened, found) refl
      ]

  get_device_name_found :
      (busid v : List ℕ) (size : ℕ) (u : U)
      → is_empty (device_name_key busid 64) ≡ false
      → is_ok (nvs.open_ro u).0 ≡ true
      → nvs.get_str (device_name_key busid 64) size (nvs.open_ro u).1 ≡ (esp_ok, v)
      → 1 ≤ size
      → get_device_name nvs (some busid) size u ≡ (esp_ok, v, nvs.close (nvs.open_ro u).1)
  unfolding get_device_name
  get_device_name_found busid v size u full opened found room =
      let big : ltb size 1 ≡ false = ground (arith, room) in
      rw (big, full, opened, found, get_device_name) refl

  set_device_name-held :
      (busid name : List ℕ) (u : U)
      → is_ok (set_device_name nvs (some busid) (some name) u).0 ≡ true
      → lookup (set_device_name nvs (some busid) (some name) u).1 (device_name_key busid 64)
        ≡ held name
  unfolding set_device_name
  set_device_name-held busid name u =
      let key = device_name_key busid 64 in
      if_ind (λ (r : EspErr × U). is_ok r.0 ≡ true → lookup r.1 key ≡ held name) (is_empty key)
        (λ _ h. absurd (ground (arith, h))) (λ full h. store_value-held key name u h)

  -- Over a storage that is a map: whatever name is set for a bus id of bytes, with success or not,
  -- the key of every other bus id of bytes holds what it held.
  pub set_device_name-other :
      (busid name other : List ℕ) (u : U)
      → AllBytes busid
      → AllBytes other
      → other ≢ busid
      → lookup (set_device_name nvs (some busid) (some name) u).1 (device_name_key other 64)
        ≡ lookup u (device_name_key other 64)
  unfolding set_device_name
  set_device_name-other busid name other u bytes more ne =
      let key = device_name_key busid 64 in
      if_ind
        (λ (r : EspErr × U).
          lookup r.1 (device_name_key other 64) ≡ lookup u (device_name_key other 64))
        (is_empty key) (λ _. refl)
        (λ full. store_value-other key (device_name_key other 64) name u (λ same. ne (
          sym (
            device_name_key-injective busid other 64 bytes more
              (λ q. ground (arith, full, ap length q)) same))))

  set_device_name-key :
      (busid name : List ℕ) (u : U)
      → is_ok (set_device_name nvs (some busid) (some name) u).0 ≡ true
      → is_empty (device_name_key busid 64) ≡ false
  unfolding set_device_name
  set_device_name-key busid name u =
      if_ind (λ (r : EspErr × U). is_ok r.0 ≡ true → is_empty (device_name_key busid 64) ≡ false)
        (is_empty (device_name_key busid 64)) (λ _ h. absurd (ground (arith, h))) (λ full _. full)

  -- Over a storage that is a map: a name that was set with success for a bus id is what
  -- `device_naming_get_device_name` returns for it, if the name is not empty and fits the reader's
  -- buffer with its NUL, and the storage can be opened.
  pub device_name_roundtrip :
      (busid name : List ℕ) (size : ℕ) (u : U)
      → is_ok (set_device_name nvs (some busid) (some name) u).0 ≡ true
      → is_ok (nvs.open_ro (set_device_name nvs (some busid) (some name) u).1).0 ≡ true
      → is_empty name ≡ false
      → length name < size
      → let u' = (set_device_name nvs (some busid) (some name) u).1 in
        let (err, text, _) = get_device_name nvs (some busid) size u' in
        (err ≡ esp_ok) × (text ≡ name)
  device_name_roundtrip busid name size u done opened full fits =
      let u' = (set_device_name nvs (some busid) (some name) u).1 in
      let u1 = (nvs.open_ro u').1 in
      let key = device_name_key busid 64 in
      let here : lookup u1 key ≡ some name =
        law.ro_keeps key u' ∙ set_device_name-held busid name u done ∙ rw full refl in
      let r =
        get_device_name_found busid name size u' (set_device_name-key busid name u done) opened
          (law.get_some key name size u1 here fits) (omega (arith, fits)) in
      rw r (refl, refl)
