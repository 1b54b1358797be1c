-- ===== src/Http/Config/Document.antt =====
-- main/http_server.c: the document that `handle_get_config` writes, and how it is taken apart again.
use esp_usbip_bridge.Base.{
  ℕ, ◌≡◌, refl, ap, ◌∙◌, List, [], ◌∷◌, ◌++◌, append_assoc, Bool, true, false, codes, if◌then◌else◌,
  decimal_one,
}
use esp_usbip_bridge.Http.Json.{in_quotes}
use esp_usbip_bridge.Http.Json.Laws.{}
use esp_usbip_bridge.Http.Config.{
  key_pin, key_wire, key_wires, key_version, key_hostname_field, key_board_id_field, field,
  head_text, wire_text,
}

-- A pin's label and the name of its wire.
abbrev pub Wire : Type 0
Wire = List ℕ × List ℕ

unfoldable pub wires_text : Bool → List Wire → List ℕ
wires_text first [] = []
wires_text first ((pin, wire) ∷ wires) = wire_text first pin wire ++ wires_text false wires

-- The whole document.
unfoldable pub document : List ℕ → List ℕ → List ℕ → List Wire → List ℕ
document hostname board_id board wires =
    head_text hostname board_id board ++ (wires_text true wires ++ codes "]}")

field-append :
    (key value rest more : List ℕ) → field key value rest ++ more ≡ field key value (rest ++ more)
field-append key value rest more =
    append_assoc key (b':' ∷ b'"' ∷ (value ++ (b'"' ∷ rest))) more
    ∙ ap (λ t. key ++ (b':' ∷ b'"' ∷ t)) (append_assoc value (b'"' ∷ rest) more)

-- From the first pin on, and behind the closing quote of a wire.
unfoldable pub wire_body : List ℕ → List ℕ → List ℕ → List ℕ
wire_body pin wire rest = field key_pin pin (b',' ∷ field key_wire wire rest)

unfoldable pub rest_text : List Wire → List ℕ
unfolding wire_body
rest_text [] = codes "}]}"
rest_text ((pin, wire) ∷ wires) = codes "},{" ++ wire_body pin wire (rest_text wires)

wire_text-append :
    (first : Bool) (pin wire more : List ℕ)
    → wire_text first pin wire ++ more
      ≡ (if first then codes "{" else codes ",{") ++ wire_body pin wire (b'}' ∷ more)
unfolding wire_text wire_body
wire_text-append true pin wire more =
    ap (λ t. b'{' ∷ t)
      (field-append key_pin pin (b',' ∷ field key_wire wire (codes "}")) more
        ∙ ap (λ t. field key_pin pin (b',' ∷ t)) (field-append key_wire wire (codes "}") more))
wire_text-append false pin wire more =
    ap (λ t. b',' ∷ b'{' ∷ t)
      (field-append key_pin pin (b',' ∷ field key_wire wire (codes "}")) more
        ∙ ap (λ t. field key_pin pin (b',' ∷ t)) (field-append key_wire wire (codes "}") more))

rest_text-wires :
    (wires : List Wire) → b'}' ∷ (wires_text false wires ++ codes "]}") ≡ rest_text wires
unfolding rest_text wires_text
rest_text-wires [] = refl
rest_text-wires ((pin, wire) ∷ wires) =
    ap (λ t. b'}' ∷ t)
      (append_assoc (wire_text false pin wire) (wires_text false wires) (codes "]}")
        ∙ wire_text-append false pin wire (wires_text false wires ++ codes "]}")
        ∙ ap (λ t. codes ",{" ++ wire_body pin wire t) (rest_text-wires wires))

-- The wires from the bracket on.
unfoldable pub first_text : List Wire → List ℕ
first_text [] = codes "]}"
first_text ((pin, wire) ∷ wires) = codes "{" ++ wire_body pin wire (rest_text wires)

first_text-wires : (wires : List Wire) → wires_text true wires ++ codes "]}" ≡ first_text wires
unfolding first_text wires_text
first_text-wires [] = refl
first_text-wires ((pin, wire) ∷ wires) =
    append_assoc (wire_text true pin wire) (wires_text false wires) (codes "]}")
    ∙ wire_text-append true pin wire (wires_text false wires ++ codes "]}")
    ∙ ap (λ t. codes "{" ++ wire_body pin wire t) (rest_text-wires wires)

-- The fields of the document in their order.
unfoldable pub from_wires : List Wire → List ℕ
from_wires wires = key_wires ++ (codes ":[" ++ first_text wires)

unfoldable pub from_board : List ℕ → List Wire → List ℕ
unfolding from_wires
from_board board wires = field (in_quotes (codes "board")) board (codes "," ++ from_wires wires)

unfoldable pub from_board_id : List ℕ → List ℕ → List Wire → List ℕ
unfolding from_board
from_board_id board_id board wires =
    field key_board_id_field board_id (codes "," ++ from_board board wires)

pub document-fields :
    (hostname board_id board : List ℕ) (wires : List Wire)
    → document hostname board_id board wires
      ≡ codes "{"
        ++ (key_version
            ++ (codes ":1,"
                ++ field key_hostname_field hostname
                    (codes "," ++ from_board_id board_id board wires)))
unfolding document head_text from_board_id from_board from_wires
document-fields hostname board_id board wires =
    let wires_end = wires_text true wires ++ codes "]}" in
    let ending = key_wires ++ codes ":[" in
    let board_field = field (in_quotes (codes "board")) board (codes "," ++ ending) in
    let id_field = field key_board_id_field board_id (codes "," ++ board_field) in
    rw decimal_one (
      ap (λ t. codes "{" ++ (key_version ++ (codes ":1," ++ t)))
        (field-append key_hostname_field hostname (codes "," ++ id_field) wires_end
          ∙ ap (λ t. field key_hostname_field hostname (codes "," ++ t))
              (field-append key_board_id_field board_id (codes "," ++ board_field) wires_end
                ∙ ap (λ t. field key_board_id_field board_id (codes "," ++ t))
                    (field-append (in_quotes (codes "board")) board (codes "," ++ ending) wires_end
                      ∙ ap
                          (λ t.
                            field (in_quotes (codes "board")) board
                              (codes "," ++ (key_wires ++ (codes ":[" ++ t))))
                          (first_text-wires wires)))))
