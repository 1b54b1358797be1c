-- ===== src/Network/Console.antt =====
-- main/network_init.c: what the console makes of a line that is typed.
use esp_usbip_bridge.Base.{
  ℕ, suc, ◌-◌, ◌+◌, ◌≤◌, ◌<◌, ◌≡◌, refl, ◌∙◌, List, [], ◌∷◌, ◌++◌, append_assoc, append-nil, some,
  true, false, length, take, drop, map, leb, ltb, if◌then◌else◌, arith, length-append, Bool-cases,
  inl, inr, take-append,
}
use esp_usbip_bridge.Network.{Typed, uart_read_line, ends_line, erases}

-- Neither the end of a line nor an erasing character.
abbrev pub AllKept : List ℕ → Type 0
AllKept [] = Unit
AllKept (c ∷ cs) = (ends_line c ≡ false) × (erases c ≡ false) × AllKept cs

abbrev pub keys : List ℕ → Typed
keys text = map some text

-- A text and the end of its line.
uart_read_line-from :
    (room c : ℕ) (text line : List ℕ) (rest : Typed)
    → AllKept text
    → ends_line c ≡ true
    → length line ≤ room
    → uart_read_line room (keys text ++ (some c ∷ rest)) line ≡ (
        if ltb (length line + length text) room
        then some (line ++ text, rest)
        else some (
          line ++ take (room - length line) text,
          keys (drop (room - length line) text) ++ (some c ∷ rest),
        ))
unfolding uart_read_line
uart_read_line-from room c [] line rest kept ends few = elim (Bool-cases (leb room (length line))) [
  | inl full ↦
      let e : room - length line ≡ 0 = ground (arith, full) in
      let no : ltb (length line + 0) room ≡ false = ground (arith, full) in
      rw (full, no, e, append-nil line) refl
  | inr space ↦
      let yes_room : ltb (length line + 0) room ≡ true = ground (arith, space) in
      rw (space, ends, yes_room, append-nil line) refl
]
uart_read_line-from room c (x ∷ text) line rest kept ends few =
    elim (Bool-cases (leb room (length line))) [
      | inl full ↦
          let e : room - length line ≡ 0 = ground (arith, full) in
          let no : ltb (length line + suc (length text)) room ≡ false = ground (arith, full) in
          rw (full, no, e, append-nil line) refl
      | inr space ↦
          let grown : length (line ++ (x ∷ [])) ≡ length line + 1 = length-append line (x ∷ []) in
          let k = room - length (line ++ (x ∷ [])) in
          let e : room - length line ≡ suc k = ground (arith, grown, space) in
          let e2 : length line + suc (length text) ≡ length (line ++ (x ∷ [])) + length text =
            omega (arith, grown) in
          let ih =
            uart_read_line-from room c text (line ++ (x ∷ [])) rest kept.2 ends
              (ground (arith, grown, space)) in
          rw
            (
              space,
              kept.0,
              kept.1,
              e,
              e2,
              ih,
              append_assoc line (x ∷ []) text,
              append_assoc line (x ∷ []) (take k text),
            )
            refl
    ]

-- If a text without erasing characters and its end of line are typed: a text that is shorter than
-- the room is the line, and what is typed behind it is left; otherwise the line is as much of the
-- text as there is room for, and the rest of the text and its end of line are left to be read as the
-- next line.
pub uart_read_line_lem :
    (room c : ℕ) (text : List ℕ) (rest : Typed)
    → AllKept text
    → ends_line c ≡ true
    → uart_read_line room (keys text ++ (some c ∷ rest)) [] ≡ (
        if ltb (length text) room
        then some (text, rest)
        else some (take room text, keys (drop room text) ++ (some c ∷ rest)))
uart_read_line_lem room c text rest kept ends =
    let e1 : 0 + length text ≡ length text = omega arith in
    let e2 : room - 0 ≡ room = omega arith in
    rw (e1, e2) at (uart_read_line-from room c text [] rest kept ends (omega arith))

-- An erasing character takes back the one before it.
pub uart_read_line_erased :
    (room c d : ℕ) (typed : Typed) (line : List ℕ)
    → ends_line c ≡ false
    → erases c ≡ false
    → ends_line d ≡ false
    → erases d ≡ true
    → length line + 1 < room
    → uart_read_line room (some c ∷ some d ∷ typed) line ≡ uart_read_line room typed line
unfolding uart_read_line
uart_read_line_erased room c d typed line c_text c_kept d_text d_erases space =
    let grown : length (line ++ (c ∷ [])) ≡ length line + 1 = length-append line (c ∷ []) in
    let first : leb room (length line) ≡ false = ground (arith, space) in
    let second : leb room (length (line ++ (c ∷ []))) ≡ false = ground (arith, space, grown) in
    let e : length (line ++ (c ∷ [])) - 1 ≡ length line = omega (arith, grown) in
    let e0 : length line + 0 ≡ length line = omega arith in
    let kept : take (length line) (line ++ (c ∷ [])) ≡ line =
      (rw e0 at (take-append line (c ∷ []) 0)) ∙ append-nil line in
    rw (first, c_text, c_kept, second, d_text, d_erases, e, kept) refl
