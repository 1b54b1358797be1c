-- ===== src/Cdc/Control.antt =====
-- main/virtual_cdc.c, `cdc_control_transfer`: what each request answers and what it changes.
use esp_usbip_bridge.Base.{
  ℕ, ◌%◌, ◌≤◌, ◌≡◌, refl, List, [], ◌∷◌, none, some, length, take, length-take, arith, Bool-cases,
  inl, inr, ◌⊎◌, ◌||◌, u8, ◌/◌, ltb, leb, if◌then◌else◌, if_ind, ◌==◌, take-all,
}
use esp_usbip_bridge.Errno.{Status, success, failure, Errno}
use esp_usbip_bridge.Cdc.{
  CdcCtx, Handled, bm_request_type, b_request, w_value, request_type, string_desc, copy_desc,
  handle_get_descriptor, standard_request, class_request, cdc_control_transfer,
}

length-copy_desc : (len room : ℕ) (desc : List ℕ) → length (copy_desc len room desc).1 ≤ room
unfolding copy_desc
length-copy_desc len room desc =
    ground (arith, length-take (if ltb room len then room else len) desc)

module _ {B : Type 0} where
  descriptor_fits :
      (c : CdcCtx B) (setup : List ℕ) (room : ℕ)
      → length (handle_get_descriptor c setup room).1 ≤ room
  unfolding handle_get_descriptor
  descriptor_fits c setup room =
      let P : Status × List ℕ → Type 0 = λ r. length r.1 ≤ room in
      let kind = u8 (w_value setup / 256) in
      if_ind P (kind == 1) (λ _. length-copy_desc 18 room c.device_desc)
        (λ _.
          if_ind P (kind == 2) (λ _. length-copy_desc c.config_desc_len room c.config_desc)
            (λ _.
              if_ind P (kind == 3)
                (λ _.
                  elim (string_desc c (w_value setup % 256))
                    as (λ o. P (elim o [
                      | none ↦ (failure Errno.epipe, [])
                      | some (len, desc) ↦
                          if len == 0 then (failure Errno.epipe, []) else copy_desc len room desc
                    ])) [
                      | none ↦ omega arith
                      | some (len, desc) ↦
                          if_ind P (len == 0) (λ _. omega arith)
                            (λ _. length-copy_desc len room desc)
                    ])
                (λ _. omega arith)))

  Fits : ℕ → Handled B → Type 0
  Fits room r = length r.1 ≤ room

  standard-Fits :
      (c : CdcCtx B) (setup : List ℕ) (room : ℕ) → Fits room (standard_request c setup room)
  unfolding standard_request Fits
  standard-Fits c setup room =
      let P = Fits room in
      if_ind P (b_request setup == 0x06) (λ _. descriptor_fits c setup room)
        (λ _.
          if_ind P (b_request setup == 0x09) (λ _. omega arith)
            (λ _.
              if_ind P (b_request setup == 0x08) (λ _. ground arith)
                (λ _.
                  if_ind P (b_request setup == 0x0B) (λ _. omega arith)
                    (λ _.
                      if_ind P (b_request setup == 0x00) (λ _. ground arith) (λ _. ground arith)))))

  class-Fits :
      (c : CdcCtx B) (setup out_data : List ℕ) (room : ℕ)
      → Fits room (class_request c setup out_data room)
  unfolding class_request Fits
  class-Fits c setup out_data room = ground (arith, length-take 7 c.line_coding)

  -- No control request to the virtual serial port returns more bytes than the IN buffer has room
  -- for.
  pub control_fits :
      (c : CdcCtx B) (setup out_data : List ℕ) (room : ℕ)
      → length (cdc_control_transfer c setup out_data room).1 ≤ room
  unfolding cdc_control_transfer Fits
  control_fits c setup out_data room =
      ground (arith, standard-Fits c setup room, class-Fits c setup out_data room)

  -- A descriptor is answered with success, or the request stalls with no byte.
  descriptor_status :
      (c : CdcCtx B) (setup : List ℕ) (room : ℕ)
      → ((handle_get_descriptor c setup room).0 ≡ success)
        ⊎ (handle_get_descriptor c setup room ≡ (failure Errno.epipe, []))
  unfolding handle_get_descriptor copy_desc
  descriptor_status c setup room =
      let P : Status × List ℕ → Type 0 = λ r. (r.0 ≡ success) ⊎ (r ≡ (failure Errno.epipe, [])) in
      let kind = u8 (w_value setup / 256) in
      if_ind P (kind == 1) (λ _. inl refl)
        (λ _.
          if_ind P (kind == 2) (λ _. inl refl)
            (λ _.
              if_ind P (kind == 3)
                (λ _.
                  elim (string_desc c (w_value setup % 256))
                    as (λ o. P (elim o [
                      | none ↦ (failure Errno.epipe, [])
                      | some (len, desc) ↦
                          if len == 0 then (failure Errno.epipe, []) else copy_desc len room desc
                    ])) [
                      | none ↦ inr refl
                      | some (len, desc) ↦ if_ind P (len == 0) (λ _. inr refl) (λ _. inl refl)
                    ])
                (λ _. inr refl)))

  -- A request answers with success and leaves the device alone, or stalls with no byte and leaves it
  -- alone.
  abbrev pub Unchanged : CdcCtx B → Handled B → Type 0
  Unchanged c (status, bytes, c') =
      (c' ≡ c) × ((status ≡ success) ⊎ ((status ≡ failure Errno.epipe) × (bytes ≡ [])))

  abbrev pub SetsConfiguration : CdcCtx B → List ℕ → Handled B → Type 0
  SetsConfiguration c setup r =
      (request_type (bm_request_type setup) ≡ 0)
      × (b_request setup ≡ 0x09)
      × (r ≡ (success, [], record c { current_config = w_value setup % 256 }))

  abbrev pub SetsLineCoding : CdcCtx B → List ℕ → List ℕ → Handled B → Type 0
  SetsLineCoding c setup out_data r =
      (request_type (bm_request_type setup) ≡ 1)
      × (b_request setup ≡ 0x20)
      × (7 ≤ length out_data)
      × (r ≡ (success, [], record c { line_coding = take 7 out_data }))

  standard_changes :
      (c : CdcCtx B) (setup : List ℕ) (room : ℕ)
      → Unchanged c (standard_request c setup room)
        ⊎ ((b_request setup ≡ 0x09)
            × (standard_request c setup room
                ≡ (success, [], record c { current_config = w_value setup % 256 })))
  unfolding standard_request
  standard_changes c setup room =
      let set_config : Handled B =
        (success, [], record c { current_config = w_value setup % 256 }) in
      let P : Handled B → Type 0 =
        λ r. Unchanged c r ⊎ ((b_request setup ≡ 0x09) × (r ≡ set_config)) in
      let (status, bytes) = handle_get_descriptor c setup room in
      if_ind P (b_request setup == 0x06) (λ _. inl (ground (arith, descriptor_status c setup room)))
        (λ _.
          if_ind P (b_request setup == 0x09) (λ e. inr (ground (arith, e), refl))
            (λ _.
              if_ind P (b_request setup == 0x08) (λ _. inl (refl, inl refl))
                (λ _.
                  if_ind P (b_request setup == 0x0B) (λ _. inl (refl, inl refl))
                    (λ _.
                      if_ind P (b_request setup == 0x00) (λ _. inl (refl, inl refl))
                        (λ _.
                          if_ind P (b_request setup == 0x01 || b_request setup == 0x03)
                            (λ _. inl (refl, inl refl)) (λ _. inl (refl, inr (refl, refl))))))))

  class_changes :
      (c : CdcCtx B) (setup out_data : List ℕ) (room : ℕ)
      → Unchanged c (class_request c setup out_data room)
        ⊎ ((b_request setup ≡ 0x20)
            × (7 ≤ length out_data)
            × (class_request c setup out_data room
                ≡ (success, [], record c { line_coding = take 7 out_data })))
  unfolding class_request
  class_changes c setup out_data room =
      let set_coding : Handled B = (success, [], record c { line_coding = take 7 out_data }) in
      let P : Handled B → Type 0 = λ r.
        Unchanged c r ⊎ ((b_request setup ≡ 0x20) × (7 ≤ length out_data) × (r ≡ set_coding)) in
      if_ind P (b_request setup == 0x20)
        (λ e. elim (Bool-cases (leb 7 (length out_data))) [
          | inl p ↦ rw p (inr (ground (arith, e), ground (arith, p), refl))
          | inr p ↦ rw p (inl (refl, inl refl))
        ])
        (λ _.
          if_ind P (b_request setup == 0x21) (λ _. inl (refl, inl refl))
            (λ _.
              if_ind P (b_request setup == 0x22) (λ _. inl (refl, inl refl))
                (λ _. inl (refl, inr (refl, refl)))))

  -- Each control request to the virtual serial port leaves it as it was and succeeds, or stalls with
  -- no byte; or it is a SET_CONFIGURATION, which takes over the configuration, or a SET_LINE_CODING
  -- with seven bytes at least, which takes over the first seven, both with success and no byte.
  pub control_changes :
      (c : CdcCtx B) (setup out_data : List ℕ) (room : ℕ)
      → let r = cdc_control_transfer c setup out_data room in
        Unchanged c r ⊎ (SetsConfiguration c setup r ⊎ SetsLineCoding c setup out_data r)
  unfolding cdc_control_transfer
  control_changes c setup out_data room =
      let kind = request_type (bm_request_type setup) in
      let P : Handled B → Type 0 =
        λ r. Unchanged c r ⊎ (SetsConfiguration c setup r ⊎ SetsLineCoding c setup out_data r) in
      if_ind P (kind == 0)
        (λ e. elim (standard_changes c setup room) [
          | inl u ↦ inl u
          | inr (q, s) ↦ inr (inl (ground (arith, e), q, s))
        ])
        (λ _.
          if_ind P (kind == 1)
            (λ e. elim (class_changes c setup out_data room) [
              | inl u ↦ inl u
              | inr (q, n, s) ↦ inr (inr (ground (arith, e), q, n, s))
            ])
            (λ _. inl (refl, inr (refl, refl))))

  -- After a SET_CONFIGURATION, a GET_CONFIGURATION with room for a byte returns the low byte of the
  -- value that was set, with success, and changes nothing.
  pub configuration_roundtrip :
      (c : CdcCtx B) (set_setup get_setup out_data : List ℕ) (room : ℕ)
      → request_type (bm_request_type set_setup) ≡ 0
      → b_request set_setup ≡ 0x09
      → request_type (bm_request_type get_setup) ≡ 0
      → b_request get_setup ≡ 0x08
      → 1 ≤ room
      → let c' = (cdc_control_transfer c set_setup out_data room).2 in
        cdc_control_transfer c' get_setup [] room ≡ (success, w_value set_setup % 256 ∷ [], c')
  unfolding cdc_control_transfer standard_request
  configuration_roundtrip c s g out room k1 r1 k2 r2 fits =
      rw (k1, r1, k2, r2, standard_request) (ground arith)

  -- After a SET_LINE_CODING with seven bytes or more, a GET_LINE_CODING with room for seven bytes
  -- returns the first seven of them with success, and changes nothing.
  pub line_coding_roundtrip :
      (c : CdcCtx B) (set_setup get_setup out_data : List ℕ) (room : ℕ)
      → request_type (bm_request_type set_setup) ≡ 1
      → b_request set_setup ≡ 0x20
      → request_type (bm_request_type get_setup) ≡ 1
      → b_request get_setup ≡ 0x21
      → 7 ≤ length out_data
      → 7 ≤ room
      → let c' = (cdc_control_transfer c set_setup out_data room).2 in
        cdc_control_transfer c' get_setup [] room ≡ (success, take 7 out_data, c')
  unfolding cdc_control_transfer class_request
  line_coding_roundtrip c s g out room k1 r1 k2 r2 len fits =
      ground (arith, length-take 7 out, take-all (take 7 out) 7)
