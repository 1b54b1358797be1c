-- ===== src/Http/Config/Export.antt =====
-- main/http_server.c: `handle_get_config` writes the document.
use esp_usbip_bridge.Base.{
  ℕ, zero, suc, ◌+◌, ◌≤◌, ◌≡◌, refl, ap, ap₂, ◌∙◌, sym, List, [], ◌∷◌, ◌++◌, append_assoc, Option,
  none, some, Bool, true, false, length, drop, arith, codes, ◌==◌, if◌then◌else◌, NoNul, take-all,
  c_string, Bool-cases, inl, inr,
}
use esp_usbip_bridge.Naming.{get_hostname, get_board_id}
use esp_usbip_bridge.Discovery.{device_name_max_len}
use esp_usbip_bridge.Http.{SendResult-cases, HttpSocket, IsHttpSocket, send_loop, send_all}
use esp_usbip_bridge.Http.Stream.{
  Stream, stream_header, stream_begin, send_chunk, stream_flush, stream_write, printed,
  stream_printf, stream_end,
}
use esp_usbip_bridge.Http.Stream.Chunks.{decode}
use esp_usbip_bridge.Http.Stream.Response.{
  Piece, text, bytes, all_written, AllInt, emit, respond, respond_lem,
}
use esp_usbip_bridge.Http.Pins.{PinEntry}
use esp_usbip_bridge.Http.Host.{HttpHost, HttpConfig, HttpState}
use esp_usbip_bridge.Http.Config.{json_type, head_text, wire_text, stream_wires, handle_get_config}
use esp_usbip_bridge.Http.Config.Document.{Wire, wires_text, document}

c_string-whole : (s : List ℕ) → NoNul s → c_string s ≡ s
unfolding c_string
c_string-whole [] h = refl
c_string-whole (x ∷ xs) h = ground (arith, c_string-whole xs h.1)

-- What sending leaves alone.
module _ {W : Type 0} {A : Type 0} (h : HttpSocket W) (f : W → A)
    (keeps : (bs : List ℕ) (w : W) → f (h.send bs w).1 ≡ f w) where
  send_loop_keeps : (rounds : ℕ) (bs : List ℕ) (w : W) → f (send_loop h rounds bs w).1 ≡ f w
  unfolding send_loop
  send_loop_keeps rounds [] w = refl
  send_loop_keeps zero (b ∷ bs) w = refl
  send_loop_keeps (suc rounds) (b ∷ bs) w =
      let l = b ∷ bs in
      let w1 = (h.send l w).1 in
      elim (SendResult-cases (h.send l w).0) [
        | inl (n, q) ↦ ground (arith, q, keeps l w, send_loop_keeps rounds (drop n l) w1)
        | inr (inl q) ↦ ground (arith, q, keeps l w)
        | inr (inr (inl q)) ↦ ground (arith, q, keeps l w, send_loop_keeps rounds l w1)
        | inr (inr (inr (k, q))) ↦ ground (arith, q, keeps l w)
      ]

  send_all_keeps : (n : ℕ) (bs : List ℕ) (err : ℕ) (w : W) → f (send_all h n bs err w).1 ≡ f w
  unfolding send_all
  send_all_keeps n bs err w = ground (arith, send_loop_keeps (length bs + n) bs w)

  send_chunk_keeps : (n : ℕ) (bs : List ℕ) (err : ℕ) (w : W) → f (send_chunk h n bs err w).1 ≡ f w
  unfolding send_chunk
  send_chunk_keeps n bs err w =
      send_all_keeps n _ _ _ ∙ send_all_keeps n bs _ _ ∙ send_all_keeps n _ err w

  stream_flush_keeps : (n : ℕ) (s : Stream) (w : W) → f (stream_flush h n s w).1 ≡ f w
  unfolding stream_flush
  stream_flush_keeps n s w = ground (arith, send_chunk_keeps n s.buf s.err w)

  stream_write_keeps :
      (n : ℕ) (bs : List ℕ) (s : Stream) (w : W) → f (stream_write h n bs s w).1 ≡ f w
  unfolding stream_write
  stream_write_keeps n bs s w =
      let (s1, w1) = stream_flush h n s w in
      ground (arith, stream_flush_keeps n s w, send_chunk_keeps n bs s1.err w1)

  printf_keeps : (n : ℕ) (t : List ℕ) (s : Stream) (w : W) → f (stream_printf h n t s w).1 ≡ f w
  unfolding stream_printf
  printf_keeps n t s w = stream_write_keeps n (printed t) s w

  begin_keeps : (n : ℕ) (ct : List ℕ) (w : W) → f (stream_begin h n ct w).1 ≡ f w
  unfolding stream_begin
  begin_keeps n ct w = send_all_keeps n (stream_header ct) 0 w

-- The name of the wire of a pin, or the empty one.
abbrev pub name_of : Option (List ℕ) → List ℕ
name_of none = []
name_of (some wire) = wire

module _ (names : List ℕ → Option (List ℕ)) where
  -- The pins that have a wire.
  unfoldable pub exported_wires : List PinEntry → List Wire
  exported_wires [] = []
  exported_wires (pin ∷ pins) =
      let wires = exported_wires pins in
      if length (name_of (names pin.label)) == 0
      then wires
      else (pin.label, name_of (names pin.label)) ∷ wires

wire_pieces : Bool → List Wire → List Piece
wire_pieces first [] = []
wire_pieces first ((pin, wire) ∷ wires) = text (wire_text first pin wire) ∷ wire_pieces false wires

config_pieces : List ℕ → List ℕ → List ℕ → List Wire → List Piece
config_pieces hostname board_id board wires =
    text (head_text hostname board_id board) ∷ (wire_pieces true wires ++ (bytes (codes "]}") ∷ []))

-- A text that `stream_printf` writes whole.
abbrev pub Fits : List ℕ → Type 0
Fits t = NoNul t × (length t ≤ 2047)

printed-Fits : (t : List ℕ) → Fits t → printed t ≡ t
unfolding printed
printed-Fits t (plain, fits) = ap c_string (take-all t 2047 fits) ∙ c_string-whole t plain

abbrev pub AllFit : Bool → List Wire → Type 0
AllFit first [] = Unit
AllFit first ((pin, wire) ∷ wires) = Fits (wire_text first pin wire) × AllFit false wires

all_written-pieces :
    (first : Bool) (wires : List Wire)
    → AllFit first wires
    → all_written (wire_pieces first wires ++ (bytes (codes "]}") ∷ []))
      ≡ wires_text first wires ++ codes "]}"
unfolding wire_pieces wires_text
all_written-pieces first [] fit = refl
all_written-pieces first ((pin, wire) ∷ wires) fit =
    ap₂ ◌++◌ (printed-Fits (wire_text first pin wire) fit.0) (all_written-pieces false wires fit.1)
    ∙ sym (append_assoc (wire_text first pin wire) (wires_text false wires) (codes "]}"))

pieces-AllInt :
    (first : Bool) (wires : List Wire)
    → AllFit first wires
    → AllInt (wire_pieces first wires ++ (bytes (codes "]}") ∷ []))
unfolding wire_pieces
pieces-AllInt first [] fit = (omega arith, tt)
pieces-AllInt first ((pin, wire) ∷ wires) fit = (
  rw (printed-Fits (wire_text first pin wire) fit.0) (omega (arith, fit.0.1)),
  pieces-AllInt false wires fit.1,
)

config_pieces_written :
    (hostname board_id board : List ℕ) (wires : List Wire)
    → Fits (head_text hostname board_id board)
    → AllFit true wires
    → all_written (config_pieces hostname board_id board wires)
      ≡ document hostname board_id board wires
unfolding config_pieces document
config_pieces_written hostname board_id board wires fit fits =
    ap₂ ◌++◌ (printed-Fits (head_text hostname board_id board) fit)
      (all_written-pieces true wires fits)

config_pieces-AllInt :
    (hostname board_id board : List ℕ) (wires : List Wire)
    → Fits (head_text hostname board_id board)
    → AllFit true wires
    → AllInt (config_pieces hostname board_id board wires)
unfolding config_pieces
config_pieces-AllInt hostname board_id board wires fit fits = (
  rw (printed-Fits (head_text hostname board_id board) fit) (omega (arith, fit.1)),
  pieces-AllInt true wires fits,
)

module _ {W : Type 0} (h : HttpHost W) (cfg : HttpConfig) where
  open h use {sock}

  stream_wires-emit :
      (names : List ℕ → Option (List ℕ))
      → ((bs l : List ℕ) (w : W) → h.dut_get_wire l (sock.send bs w).1 ≡ h.dut_get_wire l w)
      → (pins : List PinEntry) (first : Bool) (more : List Piece) (s : Stream) (w : W)
      → ((l : List ℕ) → h.dut_get_wire l w ≡ names l)
      → let (s1, w1) = stream_wires h cfg pins first s w in
        emit sock cfg.interruptions more s1 w1
        ≡ emit sock cfg.interruptions (wire_pieces first (exported_wires names pins) ++ more) s w
  unfolding stream_wires wire_pieces exported_wires emit
  stream_wires-emit names keeps [] first more s w same = refl
  stream_wires-emit names keeps (pin ∷ pins) first more s w same =
      let name = name_of (names pin.label) in
      let t = wire_text first pin.label name in
      let (s1, w1) = stream_printf sock cfg.interruptions t s w in
      let later : (l : List ℕ) → h.dut_get_wire l w1 ≡ names l = λ l.
        printf_keeps sock (h.dut_get_wire l) (λ bs v. keeps bs l v) cfg.interruptions t s w
        ∙ same l in
      elim (Bool-cases (length name == 0)) [
        | inl e ↦
            rw (stream_wires, exported_wires, same pin.label, e)
              (stream_wires-emit names keeps pins first more s w same)
        | inr e ↦
            rw (stream_wires, exported_wires, same pin.label, e)
              (stream_wires-emit names keeps pins false more s1 w1 later)
      ]

  -- The names that the export reads, and the world after that.
  abbrev pub config_names : W → List ℕ × List ℕ × W
  config_names w =
      let (_, hostname, w1) = get_hostname h.nvs device_name_max_len w in
      let (_, board_id, w2) = get_board_id h.nvs device_name_max_len w1 in (hostname, board_id, w2)

  handle_get_config-respond :
      ((bs l : List ℕ) (w : W) → h.dut_get_wire l (sock.send bs w).1 ≡ h.dut_get_wire l w)
      → (st : HttpState) (w : W)
      → let (hostname, board_id, w2) = config_names w in
        let wires = exported_wires (λ l. h.dut_get_wire l w2) st.pins.entries in
        handle_get_config h cfg st w
        ≡ respond sock cfg.interruptions json_type
            (config_pieces hostname board_id cfg.board_name wires)
            w2
  unfolding handle_get_config respond config_pieces emit
  handle_get_config-respond keeps st w =
      let n = cfg.interruptions in
      let (hostname, board_id, w2) = config_names w in
      let head = head_text hostname board_id cfg.board_name in
      let (s3, w3) = stream_begin sock n json_type w2 in
      let (s4, w4) = stream_printf sock n head s3 w3 in
      let same : (l : List ℕ) → h.dut_get_wire l w4 ≡ h.dut_get_wire l w2 = λ l.
        printf_keeps sock (h.dut_get_wire l) (λ bs v. keeps bs l v) n head s3 w3
        ∙ begin_keeps sock (h.dut_get_wire l) (λ bs v. keeps bs l v) n json_type w2 in
      ap (λ (r : Stream × W). stream_end sock n r.0 r.1)
        (stream_wires-emit (λ l. h.dut_get_wire l w2) keeps st.pins.entries true
          (bytes (codes "]}") ∷ []) s4 w4 same)

  -- Over a socket that sends what it takes, and whose sending leaves the names of the wires alone:
  -- an export that reports no error has sent the stream's header and a chunked body that decodes to
  -- the document of the stored names, the board and the wires of the table's pins that have one, in
  -- the order of the table, with nothing behind it. This holds if the document's head and each of
  -- its wires fit into what `stream_printf` writes and have no NUL.
  pub handle_get_config-document :
      IsHttpSocket sock
      → ((bs l : List ℕ) (w : W) → h.dut_get_wire l (sock.send bs w).1 ≡ h.dut_get_wire l w)
      → (hostname board_id : List ℕ) (wires : List Wire) (st : HttpState) (w w2 : W)
      → config_names w ≡ (hostname, board_id, w2)
      → exported_wires (λ l. h.dut_get_wire l w2) st.pins.entries ≡ wires
      → Fits (head_text hostname board_id cfg.board_name)
      → AllFit true wires
      → (handle_get_config h cfg st w).0.err ≡ 0
      → let sent = sock.sent in
        (body : List ℕ) × (sent (handle_get_config h cfg st w).1
          ≡ sent w2 ++ (stream_header json_type ++ body))
        × (decode body ≡ some (document hostname board_id cfg.board_name wires, []))
  handle_get_config-document law keeps hostname board_id wires st w w2 names found fit fits ok =
      let n = cfg.interruptions in
      let pieces = config_pieces hostname board_id cfg.board_name wires in
      let same : handle_get_config h cfg st w ≡ respond sock n json_type pieces w2 =
        handle_get_config-respond keeps st w
        ∙ ap
            (λ (r : List ℕ × List ℕ × W).
              respond sock n json_type
                (config_pieces r.0 r.1 cfg.board_name
                  (exported_wires (λ l. h.dut_get_wire l r.2) st.pins.entries))
                r.2)
            names
        ∙ ap (λ ws. respond sock n json_type (config_pieces hostname board_id cfg.board_name ws) w2)
            found in
      let (body, on_wire, read) =
        respond_lem sock law n json_type pieces w2
          (config_pieces-AllInt hostname board_id cfg.board_name wires fit fits)
          (ap (λ (r : Stream × W). r.0.err) (sym same) ∙ ok) in
      (
        body,
        ap (λ (r : Stream × W). sock.sent r.1) same ∙ on_wire,
        read
            ∙ ap (λ t. some (t, []))
                (config_pieces_written hostname board_id cfg.board_name wires fit fits),
      )
