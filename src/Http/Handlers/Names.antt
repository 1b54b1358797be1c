-- ===== src/Http/Handlers/Names.antt =====
-- main/http_server.c: a post that sets the name of the host.
use esp_usbip_bridge.Base.{
  ℕ, ◌≡◌, refl, ap, ◌∙◌, List, [], ◌∷◌, ◌++◌, Option, none, some, codes, length, ltb, if◌then◌else◌,
  starts, bytes_eq, if_ind, Bool-cases, ◌⊎◌, inl, inr, true, false,
}
use esp_usbip_bridge.Esp.{is_ok}
use esp_usbip_bridge.Naming.{set_hostname, key_hostname}
use esp_usbip_bridge.Naming.Stored.{IsStore, held, store_value-held}
use esp_usbip_bridge.Discovery.{discovery_service_notify_config_changed}
use esp_usbip_bridge.Http.Json.{◌>>=◌, in_quotes, strstr, strchr, quoted, posted_value}
use esp_usbip_bridge.Http.Json.Laws.{NoQuote, quoted-here}
use esp_usbip_bridge.Http.Host.{HttpHost, HttpConfig, HttpState, send_text, http_500}
use esp_usbip_bridge.Http.Handlers.{value_text, ok_text, posted_name, name_set, post_hostname}

abbrev pub hostname_body : List ℕ → List ℕ
hostname_body v = value_text (codes "hostname") v

-- A name of 64 characters or more is as good as none.
abbrev pub short_name : List ℕ → List ℕ
short_name v = if ltb (length v) 64 then v else []

abbrev or_empty : Option (List ℕ) → List ℕ
or_empty none = []
or_empty (some v) = v

colon : (text : List ℕ) → quoted (b':' ∷ text) ≡ quoted text
unfolding quoted strchr
colon text = refl

posted_value-hostname :
    (v : List ℕ) (size : ℕ)
    → NoQuote v
    → posted_value (hostname_body v) (in_quotes (codes "hostname")) size
      ≡ (if ltb (length v) size then some v else none)
unfolding posted_value value_text strstr strchr starts bytes_eq
posted_value-hostname v size plain =
    let found : quoted (b':' ∷ b'"' ∷ (v ++ codes "\"}")) ≡ some (v, v ++ codes "\"}") =
      colon (b'"' ∷ (v ++ codes "\"}")) ∙ quoted-here v (codes "}") plain in
    ap (λ o. o >>= λ (r : List ℕ × List ℕ). if ltb (length r.0) size then some r.0 else none) found

posted_name-hostname :
    {W : Type 0} (h : HttpHost W) (cfg : HttpConfig) (v : List ℕ)
    → NoQuote v
    → posted_name h cfg (hostname_body v) (codes "hostname") ≡ short_name v
unfolding posted_name
posted_name-hostname h cfg v plain =
    ap (λ (o : Option (List ℕ)). or_empty o) (posted_value-hostname v 64 plain)
    ∙ if_ind (λ (o : Option (List ℕ)). or_empty o ≡ short_name v) (ltb (length v) 64)
        (λ e. rw e refl) (λ e. rw e refl)

-- `{"status":"ok","hostname":"<name>"}`.
abbrev pub set_text : List ℕ → List ℕ
set_text name = codes "{\"status\":\"ok\",\"hostname\":\"" ++ (name ++ codes "\"}")

module _ {W : Type 0} (h : HttpHost W) (cfg : HttpConfig) (lookup : W → List ℕ → Option (List ℕ))
    (store : IsStore h.nvs lookup) where
  name_set-outcome :
      (name : List ℕ) (st : HttpState) (w : W)
      → let (err, w1) = set_hostname h.nvs (some name) w in
        let (_, discovery, w2) =
          discovery_service_notify_config_changed h.mdns h.nvs cfg.target st.discovery w1 in
        let result = name_set h cfg (codes "hostname") name err st w1 in
        ((is_ok err ≡ true)
          × (lookup w1 key_hostname ≡ held name)
          × (result ≡ (record st { discovery = discovery }, send_text h cfg (set_text name) w2)))
        ⊎ ((is_ok err ≡ false) × (result ≡ (st, http_500 h cfg w1)))
  unfolding name_set ok_text set_hostname
  name_set-outcome name st w =
      let (err, w1) = set_hostname h.nvs (some name) w in
      elim (Bool-cases (is_ok err)) [
        | inl e ↦ inl (e, store_value-held h.nvs lookup store key_hostname name w e, rw e refl)
        | inr e ↦ inr (e, rw e refl)
      ]

  -- Over a storage that is a map, for a posted host name that can be written in quotes, and with the
  -- name itself if it has less than 64 characters and the empty name otherwise: either the storing
  -- succeeds, and then the storage holds the name, or none if it is empty, the change is announced,
  -- and the answer is that the status is ok and the host name is this name; or the storing fails,
  -- and then nothing is announced and the answer is the internal error.
  pub post_hostname-value :
      (v : List ℕ) (st : HttpState) (w : W)
      → NoQuote v
      → let name = short_name v in
        let (err, w1) = set_hostname h.nvs (some name) w in
        let (_, discovery, w2) =
          discovery_service_notify_config_changed h.mdns h.nvs cfg.target st.discovery w1 in
        let result = post_hostname h cfg (hostname_body v) st w in
        ((is_ok err ≡ true)
          × (lookup w1 key_hostname ≡ held name)
          × (result ≡ (record st { discovery = discovery }, send_text h cfg (set_text name) w2)))
        ⊎ ((is_ok err ≡ false) × (result ≡ (st, http_500 h cfg w1)))
  unfolding post_hostname
  post_hostname-value v st w plain =
      rw (posted_name-hostname h cfg v plain) (name_set-outcome (short_name v) st w)
