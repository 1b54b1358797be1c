-- ===== src/Http/Config/Restore.antt =====
-- main/http_server.c: the import of an exported document restores what was exported.
use esp_usbip_bridge.Base.{
  ℕ, ◌≤◌, ◌<◌, ◌≡◌, ◌≢◌, refl, ap, ◌∙◌, List, ◌∷◌, ◌++◌, some, true, length, arith, codes, ltb,
  starts, bytes_eq, read_number, decimal_digit,
}
use esp_usbip_bridge.Http.Json.{strstr, strchr, json_str_after, json_int_after, skip_while}
use esp_usbip_bridge.Http.Json.Laws.{
  NoQuote, strstr-value, json_str_after-here, json_str_after-value, scan_int-plain,
}
use esp_usbip_bridge.Http.Pins.{PinEntry}
use esp_usbip_bridge.Http.Host.{HttpHost, HttpConfig, HttpState, send_text}
use esp_usbip_bridge.Naming.{set_hostname, set_board_id}
use esp_usbip_bridge.Discovery.{discovery_service_notify_config_changed}
use esp_usbip_bridge.Http.Config.{
  key_wires, key_version, key_hostname_field, key_board_id_field, field, clear_wires,
  handle_post_config, imported_text, import_hostname, import_board_id, import_wires, import_config,
}
use esp_usbip_bridge.Http.Config.Document.{
  Wire, document, document-fields, first_text, from_wires, from_board, from_board_id,
}
use esp_usbip_bridge.Http.Config.Wires.{AllPlain, set_all, import_first}

module _ (hostname board_id board : List ℕ) (wires : List Wire) (plain : NoQuote hostname) where
  -- The document, from its fields.
  abbrev fields : List ℕ
  fields =
      codes "{"
      ++ (key_version
          ++ (codes ":1,"
              ++ field key_hostname_field hostname
                  (codes "," ++ from_board_id board_id board wires)))

  find_version : json_int_after (document hostname board_id board wires) key_version ≡ some 1
  unfolding json_int_after strstr strchr starts bytes_eq skip_while
  find_version =
      let more =
        codes ","
        ++ field key_hostname_field hostname (codes "," ++ from_board_id board_id board wires) in
      let read : read_number 10 decimal_digit 0 (49 ∷ more) ≡ (1, more) =
        unfold read_number decimal_digit in refl in
      ap (λ t. json_int_after t key_version) (document-fields hostname board_id board wires)
      ∙ rw (scan_int-plain 49 1 more more (omega arith) (omega arith) read (omega arith)) refl

  find_hostname :
      (at : List ℕ) × (json_str_after (document hostname board_id board wires) key_hostname_field
        ≡ some (hostname, at))
  unfolding json_str_after strstr starts bytes_eq
  find_hostname =
      let more = codes "," ++ from_board_id board_id board wires in
      (
        hostname ++ (b'"' ∷ more),
        ap (λ t. json_str_after t key_hostname_field)
              (document-fields hostname board_id board wires)
            ∙ json_str_after-here (codes "hostname\"") hostname more plain,
      )

  find_board_id :
      NoQuote board_id
      → hostname ≢ codes "board_id"
      → (at : List ℕ) × (json_str_after (document hostname board_id board wires) key_board_id_field
          ≡ some (board_id, at))
  unfolding json_str_after strstr starts bytes_eq from_board_id
  find_board_id plain_id ne =
      let more = codes "," ++ from_board board wires in
      (
        board_id ++ (b'"' ∷ more),
        ap (λ t. json_str_after t key_board_id_field)
              (document-fields hostname board_id board wires)
            ∙ json_str_after-value (codes "board_id") hostname
                (codes "," ++ from_board_id board_id board wires)
                (refl, (refl, (refl, (refl, (refl, (refl, (refl, (refl, tt)))))))) plain ne
            ∙ json_str_after-here (codes "board_id\"") board_id more plain_id,
      )

  find_wires :
      NoQuote board_id
      → NoQuote board
      → hostname ≢ codes "wires"
      → board_id ≢ codes "wires"
      → board ≢ codes "wires"
      → strstr key_wires (document hostname board_id board wires) ≡ some (from_wires wires)
  unfolding strstr starts bytes_eq from_board_id from_board from_wires
  find_wires plain_id plain_board ne ne_id ne_board =
      ap (strstr key_wires) (document-fields hostname board_id board wires)
      ∙ strstr-value (codes "wires") hostname (codes "," ++ from_board_id board_id board wires)
          (refl, (refl, (refl, (refl, (refl, tt))))) plain ne
      ∙ strstr-value (codes "wires") board_id (codes "," ++ from_board board wires)
          (refl, (refl, (refl, (refl, (refl, tt))))) plain_id ne_id
      ∙ strstr-value (codes "wires") board (codes "," ++ from_wires wires)
          (refl, (refl, (refl, (refl, (refl, tt))))) plain_board ne_board

module _ {W : Type 0} (h : HttpHost W) (cfg : HttpConfig) where
  import_hostname-document :
      (hostname board_id board : List ℕ) (wires : List Wire) (w : W)
      → NoQuote hostname
      → 1 ≤ length hostname
      → length hostname < 64
      → import_hostname h cfg (document hostname board_id board wires) w
        ≡ (set_hostname h.nvs (some hostname) w).1
  unfolding import_hostname
  import_hostname-document hostname board_id board wires w plain full fits =
      let (at, e) = find_hostname hostname board_id board wires plain in
      let some_text : ltb 0 (length hostname) ≡ true = ground (arith, full) in
      let room : ltb (length hostname) 64 ≡ true = ground (arith, fits) in
      rw (import_hostname, e, some_text, room) refl

  import_board_id-document :
      (hostname board_id board : List ℕ) (wires : List Wire) (w : W)
      → NoQuote hostname
      → NoQuote board_id
      → length board_id < 64
      → hostname ≢ codes "board_id"
      → import_board_id h cfg (document hostname board_id board wires) w
        ≡ (set_board_id h.nvs (some board_id) w).1
  unfolding import_board_id
  import_board_id-document hostname board_id board wires w plain plain_id fits ne =
      let (at, e) = find_board_id hostname board_id board wires plain plain_id ne in
      let room : ltb (length board_id) 64 ≡ true = ground (arith, fits) in
      rw (import_board_id, e, room) refl

  bracket : (wires : List Wire) → strchr b'[' (from_wires wires) ≡ some (b'[' ∷ first_text wires)
  unfolding strchr from_wires
  bracket wires = refl

  import_wires-document :
      (entries : List PinEntry) (hostname board_id board : List ℕ) (wires : List Wire) (w : W)
      → NoQuote hostname
      → NoQuote board_id
      → NoQuote board
      → hostname ≢ codes "wires"
      → board_id ≢ codes "wires"
      → board ≢ codes "wires"
      → AllPlain wires
      → import_wires h cfg entries (document hostname board_id board wires) w
        ≡ set_all h cfg entries wires 0 0 w
  unfolding import_wires
  import_wires-document entries hostname board_id board wires w qh qb qn n1 n2 n3 plain =
      let found = find_wires hostname board_id board wires qh qb qn n1 n2 n3 in
      rw (import_wires, found, bracket wires) (import_first h cfg entries wires w plain)

  -- What an import is to do: the names, the announcement, and the wires in the place of all others.
  unfoldable pub restored : List ℕ → List ℕ → List Wire → HttpState → W → HttpState × W
  unfolding set_all
  restored hostname board_id wires st w =
      let w1 = (set_hostname h.nvs (some hostname) w).1 in
      let w2 = (set_board_id h.nvs (some board_id) w1).1 in
      let (_, discovery, w3) =
        discovery_service_notify_config_changed h.mdns h.nvs cfg.target st.discovery w2 in
      let w4 = clear_wires h cfg st.pins.entries w3 in
      let (applied, skipped, w5) = set_all h cfg st.pins.entries wires 0 0 w4 in
      (
        record st { discovery = discovery },
        send_text h cfg (imported_text h cfg applied skipped) w5,
      )

  -- Importing the document that is exported for a host name, a board id, a board and a list of wires
  -- sets the host name and the board id, announces the change, clears the wires of all pins of the
  -- table, tries to set the exported wires in their order, and answers with how many were set and
  -- how many not. This holds if the names and wires can be written in quotes, the host name is not
  -- empty, both names have less than 64 characters, no name is the key that is searched for behind
  -- it, and no wire is called `pin`.
  pub handle_post_config-document :
      (hostname board_id board : List ℕ) (wires : List Wire) (st : HttpState) (w : W)
      → NoQuote hostname
      → NoQuote board_id
      → NoQuote board
      → 1 ≤ length hostname
      → length hostname < 64
      → length board_id < 64
      → hostname ≢ codes "board_id"
      → hostname ≢ codes "wires"
      → board_id ≢ codes "wires"
      → board ≢ codes "wires"
      → AllPlain wires
      → handle_post_config h cfg (document hostname board_id board wires) st w
        ≡ restored hostname board_id wires st w
  unfolding handle_post_config import_config restored
  handle_post_config-document hostname board_id board wires st w qh qb qn some_h fits_h fits_b n1 n2
        n3 n4 plain =
      let w1 = (set_hostname h.nvs (some hostname) w).1 in
      let w2 = (set_board_id h.nvs (some board_id) w1).1 in
      let w3 =
        (discovery_service_notify_config_changed h.mdns h.nvs cfg.target st.discovery w2).2 in
      let w4 = clear_wires h cfg st.pins.entries w3 in
      rw
        (
          find_version hostname board_id board wires qh,
          import_hostname-document hostname board_id board wires w qh some_h fits_h,
          import_board_id-document hostname board_id board wires w1 qh qb fits_b n1,
          import_wires-document st.pins.entries hostname board_id board wires w4 qh qb qn n2 n3 n4
              plain,
        )
        refl
