-- ===== src/Network/Credentials.antt =====
-- main/network_init.c: the credentials in the storage.
use esp_usbip_bridge.Base.{
  ℕ, ◌<◌, ◌≡◌, refl, ◌∙◌, List, Option, some, true, not, length, arith, if_ind,
}
use esp_usbip_bridge.Esp.{EspErr, esp_ok, is_ok}
use esp_usbip_bridge.Naming.{Nvs}
use esp_usbip_bridge.Naming.Stored.{IsStore}
use esp_usbip_bridge.Network.{
  wifi_cred_max_len, key_ssid, key_pass, wifi_creds_save, wifi_creds_load,
}

module _ {U : Type 0} (nvs : Nvs U) (lookup : U → List ℕ → Option (List ℕ))
    (law : IsStore nvs lookup) where
  -- What a save with success leaves in the storage.
  abbrev Saved : List ℕ → List ℕ → U → Type 0
  Saved ssid password u = (lookup u key_ssid ≡ some ssid) × (lookup u key_pass ≡ some password)

  wifi_creds_save-Saved :
      (ssid password : List ℕ) (u : U)
      → is_ok (wifi_creds_save nvs ssid password u).0 ≡ true
      → Saved ssid password (wifi_creds_save nvs ssid password u).1
  unfolding wifi_creds_save
  wifi_creds_save-Saved ssid password u =
      let (opened, u1) = nvs.open_rw u in
      let (err1, u2) = nvs.set_str key_ssid ssid u1 in
      let (err2, u3) = nvs.set_str key_pass password u2 in
      let u4 = (nvs.commit u3).1 in
      let P : EspErr × U → Type 0 = λ r. is_ok r.0 ≡ true → Saved ssid password r.1 in
      let after : (k : List ℕ) → lookup (nvs.close u4) k ≡ lookup u3 k =
        λ k. law.close_keeps k u4 ∙ law.commit_keeps k u3 in
      if_ind P (not (is_ok opened)) (λ q g. absurd (ground (arith, q, g)))
        (λ _.
          if_ind P (not (is_ok err1)) (λ q g. absurd (ground (arith, q, g)))
            (λ q1.
              if_ind P (not (is_ok err2)) (λ q g. absurd (ground (arith, q, g)))
                (λ q2 _. (
                  after key_ssid
                      ∙ law.set_other key_pass key_ssid password u2 (λ e. ground (arith, e))
                      ∙ law.set_ok key_ssid ssid u1 (ground (arith, q1)),
                  after key_pass ∙ law.set_ok key_pass password u2 (ground (arith, q2)),
                ))))

  -- Credentials that were saved with success are loaded again while nothing else changes their keys.
  pub creds_roundtrip :
      (ssid password : List ℕ) (u u' : U)
      → is_ok (wifi_creds_save nvs ssid password u).0 ≡ true
      → ((k : List ℕ) → lookup u' k ≡ lookup (wifi_creds_save nvs ssid password u).1 k)
      → is_ok (nvs.open_ro u').0 ≡ true
      → length ssid < wifi_cred_max_len
      → length password < wifi_cred_max_len
      → let (err, ssid', password', _) = wifi_creds_load nvs u' in
        (err ≡ esp_ok) × (ssid' ≡ ssid) × (password' ≡ password)
  unfolding wifi_creds_load
  creds_roundtrip ssid password u u' saved same opens fits1 fits2 =
      let (s, p) = wifi_creds_save-Saved ssid password u saved in
      let u1 = (nvs.open_ro u').1 in
      let got_ssid =
        law.get_some key_ssid ssid wifi_cred_max_len u1
          (law.ro_keeps key_ssid u' ∙ same key_ssid ∙ s) fits1 in
      let got_pass =
        law.get_some key_pass password wifi_cred_max_len u1
          (law.ro_keeps key_pass u' ∙ same key_pass ∙ p) fits2 in
      rw (opens, got_ssid, got_pass) (refl, refl, refl)
