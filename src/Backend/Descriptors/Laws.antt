-- ===== src/Backend/Descriptors/Laws.antt =====
-- main/usb_backend.c: the walk of `parse_descriptors` over a configuration descriptor.
use esp_usbip_bridge.Base.{
  ℕ, zero, suc, ◌+◌, ◌≤◌, ◌≡◌, refl, sym, ap, ◌∙◌, List, [], ◌∷◌, ◌++◌, some, true, false, ◌&&◌,
  ◌||◌, byte_at, length, length-set, drop, ltb, leb, ◌==◌, if_ind, Bool-cases, inl, inr, arith,
  length-append, append_assoc, drop-append_left, get_or-append_left,
}
use esp_usbip_bridge.Device.{Device}
use esp_usbip_bridge.Backend.Descriptors.{
  Parsed, type_interface, type_endpoint, read_interface, read_endpoint, parse_one, parse_loop,
  w_total_length, finish_parse, parse_descriptors,
}

pub record InBounds (p : Parsed) : Type 0 where
  pub few_interfaces : p.intf_count ≤ 8
  pub few_endpoints : p.ep_count ≤ 16
  pub interface_array : length p.device.interfaces ≡ 8
  pub endpoint_array : length p.device.endpoints ≡ 16

parse_one-InBounds : (d : List ℕ) (p : Parsed) → InBounds p → InBounds (parse_one d p)
unfolding parse_one
parse_one-InBounds d p v = ground (
  arith,
  length-set p.device.interfaces p.intf_count (read_interface d),
  length-set p.device.endpoints p.ep_count (read_endpoint d),
)

parse_loop-InBounds :
    (fuel : ℕ) (raw : List ℕ) (total offset : ℕ) (p : Parsed)
    → InBounds p
    → InBounds (parse_loop fuel raw total offset p)
unfolding parse_loop
parse_loop-InBounds zero raw total offset p v = v
parse_loop-InBounds (suc fuel) raw total offset p v =
    let d = drop offset raw in
    if_ind InBounds (leb (offset + 2) total)
      (λ _.
        if_ind InBounds (ltb (byte_at d 0) 2 || ltb total (offset + byte_at d 0)) (λ _. v)
          (λ _.
            parse_loop-InBounds fuel raw total (offset + byte_at d 0) (parse_one d p)
              (parse_one-InBounds d p v)))
      (λ _. v)

-- Whatever bytes a device's configuration descriptor holds: if the device has arrays of 8 interfaces
-- and 16 endpoints, then after `parse_descriptors` it counts no more than these, and the arrays keep
-- their sizes.
pub parse_descriptors_bounds :
    (config : List ℕ) (d : Device)
    → length d.interfaces ≡ 8
    → length d.endpoints ≡ 16
    → let d' = parse_descriptors (some config) d in
      (d'.num_interfaces ≤ 8)
      × (d'.num_endpoints ≤ 16)
      × (length d'.interfaces ≡ 8)
      × (length d'.endpoints ≡ 16)
unfolding parse_descriptors
parse_descriptors_bounds config d i e = ground (
  arith,
  parse_loop-InBounds (w_total_length config) config (w_total_length config) 0
      (record { device = d; intf_count = 0; ep_count = 0 }),
)

-- A descriptor begins with its own length.
abbrev pub IsDescriptor : List ℕ → Type 0
IsDescriptor d = (byte_at d 0 ≡ length d) × (2 ≤ length d)

abbrev pub AllDescriptors : List (List ℕ) → Type 0
AllDescriptors [] = Unit
AllDescriptors (d ∷ ds) = IsDescriptor d × AllDescriptors ds

-- Descriptors one behind the other.
abbrev pub concat : List (List ℕ) → List ℕ
concat [] = []
concat (d ∷ ds) = d ++ concat ds

-- Each descriptor by itself, in order.
abbrev pub parse_each : List (List ℕ) → Parsed → Parsed
parse_each [] p = p
parse_each (d ∷ ds) p = parse_each ds (parse_one d p)

-- What lies behind a descriptor is not read.
parse_one-append :
    (d rest : List ℕ) (p : Parsed) → IsDescriptor d → parse_one (d ++ rest) p ≡ parse_one d p
unfolding parse_one
parse_one-append d rest p (len, two) =
    let at = get_or-append_left d rest in
    let t1 = byte_at d 1 == type_interface && leb 9 (byte_at d 0) && ltb p.intf_count 8 in
    let t2 = byte_at d 1 == type_endpoint && leb 7 (byte_at d 0) && ltb p.ep_count 16 in
    rw (at 0 0 (omega arith), at 1 0 (omega arith))
      (elim (Bool-cases t1) [
        | inl q ↦
            let nine : 9 ≤ length d = ground (arith, q, len) in
            rw (q, at 5 0 (omega arith), at 6 0 (omega arith), at 7 0 (omega arith))
        | inr q ↦ rw q (elim (Bool-cases t2) [
          | inl r ↦
              let seven : 7 ≤ length d = ground (arith, r, len) in
              rw (
                r,
                at 2 0 (omega arith),
                at 3 0 (omega arith),
                at 4 0 (omega arith),
                at 5 0 (omega arith),
                at 6 0 (omega arith),
              )
          | inr r ↦ rw r
        ])
      ])

parse_loop_step :
    (fuel : ℕ) (raw : List ℕ) (total offset len : ℕ) (p : Parsed)
    → byte_at (drop offset raw) 0 ≡ len
    → 2 ≤ len
    → offset + len ≤ total
    → parse_loop (suc fuel) raw total offset p
      ≡ parse_loop fuel raw total (offset + len) (parse_one (drop offset raw) p)
unfolding parse_loop
parse_loop_step fuel raw total offset len p e two fits =
    let more : leb (offset + 2) total ≡ true = ground arith in
    let ok : (ltb len 2 || ltb total (offset + len)) ≡ false = ground arith in rw (e, more, ok)

parse_loop_stop :
    (fuel : ℕ) (raw : List ℕ) (total offset : ℕ) (p : Parsed)
    → total ≤ offset
    → parse_loop fuel raw total offset p ≡ p
unfolding parse_loop
parse_loop_stop zero raw total offset p h = refl
parse_loop_stop (suc fuel) raw total offset p h =
    let stop : leb (offset + 2) total ≡ false = ground arith in rw stop

parse_loop-concat :
    (fuel : ℕ) (raw before : List ℕ) (ds : List (List ℕ)) (p : Parsed)
    → AllDescriptors ds
    → raw ≡ before ++ concat ds
    → length (concat ds) ≤ fuel
    → parse_loop fuel raw (length raw) (length before) p ≡ parse_each ds p
parse_loop-concat fuel raw before [] p all e f =
    parse_loop_stop fuel raw (length raw) (length before) p
      (omega (arith, ap length e, length-append before []))
parse_loop-concat zero raw before (d ∷ ds) p all e f =
    absurd (omega (arith, length-append d (concat ds), all.0.1))
parse_loop-concat (suc fuel) raw before (d ∷ ds) p all e f =
    let rest = concat ds in
    let here : drop (length before) raw ≡ d ++ rest =
      ap (drop (length before)) e ∙ drop-append_left before (d ++ rest) (length before) refl in
    let len : byte_at (drop (length before) raw) 0 ≡ length d =
      ap (λ l. byte_at l 0) here
      ∙ get_or-append_left d rest 0 0 (omega (arith, all.0.1))
      ∙ all.0.0 in
    let size : length raw ≡ length before + (length d + length rest) =
      omega (arith, ap length e, length-append before (d ++ rest), length-append d rest) in
    let next =
      parse_loop-concat fuel raw (before ++ d) ds (parse_one d p) all.1
        (e ∙ sym (append_assoc before d rest)) (omega (arith, length-append d rest, all.0.1)) in
    parse_loop_step fuel raw (length raw) (length before) (length d) p len all.0.1 (omega arith)
    ∙ ap (λ l. parse_loop fuel raw (length raw) (length before + length d) (parse_one l p)) here
    ∙ ap (parse_loop fuel raw (length raw) (length before + length d))
        (parse_one-append d rest p all.0)
    ∙ ap (λ n. parse_loop fuel raw (length raw) n (parse_one d p)) (sym (length-append before d))
    ∙ next

-- A configuration descriptor that is a row of descriptors, each at least two bytes long and with its
-- length in its first byte, and that states its own length, is read one descriptor after the other,
-- in order and to its end.
pub parse_descriptors-concat :
    (ds : List (List ℕ)) (d : Device)
    → AllDescriptors ds
    → w_total_length (concat ds) ≡ length (concat ds)
    → parse_descriptors (some (concat ds)) d
      ≡ finish_parse (parse_each ds (record { device = d; intf_count = 0; ep_count = 0 }))
unfolding parse_descriptors
parse_descriptors-concat ds d all total = ap finish_parse (
    ap (λ n. parse_loop n (concat ds) n 0 (record { device = d; intf_count = 0; ep_count = 0 }))
      total
    ∙ parse_loop-concat (length (concat ds)) (concat ds) [] ds
        (record { device = d; intf_count = 0; ep_count = 0 }) all refl (omega arith))
