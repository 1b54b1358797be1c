-- ===== src/Examples/Naming.antt =====
-- The theorems on the names at a storage that is a list of keys and texts.
use esp_usbip_bridge.Base.{
  ℕ, ◌≡◌, ◌≢◌, refl, List, [], ◌∷◌, Option, none, some, true, false, arith, codes, length, bytes_eq,
  bytes_eq_sound, bytes_eq_refl, if◌then◌else◌, ltb, if_ind,
}
use esp_usbip_bridge.Esp.{esp_ok, esp_err_nvs_not_found}
use esp_usbip_bridge.Naming.{
  Nvs, device_name_key, is_empty, default_hostname, get_hostname, set_hostname,
}
use esp_usbip_bridge.Naming.Stored.{IsStore, hostname_roundtrip}

-- What each key holds.
abbrev pub Flash : Type 0
Flash = List ℕ → Option (List ℕ)

abbrev pub write : List ℕ → Option (List ℕ) → Flash → Flash
write k v u = λ k'. if bytes_eq k k' then v else u k'

abbrev pub test_nvs : Nvs Flash
test_nvs = record {
  open_rw = λ u. (esp_ok, u);
  open_ro = λ u. (esp_ok, u);
  get_str = λ k size u. elim (u k) [
    | none ↦ (esp_err_nvs_not_found, [])
    | some v ↦ if ltb (length v) size then (esp_ok, v) else (esp_err_nvs_not_found, [])
  ];
  set_str = λ k v u. (esp_ok, write k (some v) u);
  erase_key = λ k u. (esp_ok, write k none u);
  commit = λ u. (esp_ok, u);
  close = λ u. u;
  mac = λ u. (esp_ok, 1 ∷ 2 ∷ 3 ∷ 4 ∷ 5 ∷ 6 ∷ []);
}

pub write_here : (k : List ℕ) (v : Option (List ℕ)) (u : Flash) → write k v u k ≡ v
write_here k v u = rw (bytes_eq_refl k) refl

pub write_other : (k k' : List ℕ) (v : Option (List ℕ)) (u : Flash) → k ≢ k' → write k v u k' ≡ u k'
write_other k k' v u ne =
    if_ind (λ x. x ≡ u k') (bytes_eq k k') (λ e. absurd (ne (bytes_eq_sound k k' e))) (λ _. refl)

pub test_nvs-IsStore : IsStore test_nvs (λ u. u)
test_nvs-IsStore = record {
  rw_keeps = λ k u. refl;
  ro_keeps = λ k u. refl;
  close_keeps = λ k u. refl;
  commit_keeps = λ k u. refl;
  get_some = λ k v size u e fits.
      let room : ltb (length v) size ≡ true = ground (arith, fits) in rw (e, room) refl;
  get_none = λ k size u e. rw e refl;
  set_ok = λ k v u h. write_here k (some v) u;
  set_other = λ k k' v u ne. write_other k k' (some v) u ne;
  erase_ok = λ k u h. write_here k none u;
  erase_other = λ k k' u ne. write_other k k' none u ne;
}

abbrev pub blank : Flash
blank = λ k. none

key_is_built : is_empty (device_name_key (codes "1-5") 64) ≡ false
unfolding device_name_key
key_is_built = refl

hostname_roundtrip_example :
    let (err, text, u'') =
      get_hostname test_nvs 64 (set_hostname test_nvs (some (codes "bench")) blank).1 in
    (err ≡ esp_ok)
    × (text
        ≡ (if is_empty (codes "bench") then default_hostname test_nvs 64 u'' else codes "bench"))
unfolding set_hostname
hostname_roundtrip_example =
    hostname_roundtrip test_nvs (λ u. u) test_nvs-IsStore (codes "bench") 64 blank refl refl
      (omega arith)
