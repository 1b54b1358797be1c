-- ===== src/Examples/Slots.antt =====
-- The theorems on a stream's slots at concrete tables.
use esp_usbip_bridge.Base.{ℕ, ◌+◌, ◌<◌, ◌≡◌, ◌∷◌, none, some, ◌⊎◌, get_elem?, set}
use esp_usbip_bridge.Server.Slots.{StreamCtx, fresh_ctx, urb_stream_alloc_slot, unlink_urb}
use esp_usbip_bridge.Server.Slots.Laws.{
  IsValid, Holds, fresh_ctx-IsValid, alloc_slot-IsValid, alloc_slot_outcome, unlink_urb_lem,
}

-- A stream with request 41, item 0, in flight.
abbrev one_ctx : StreamCtx
one_ctx = (urb_stream_alloc_slot fresh_ctx 41 0).1

one_ctx-IsValid : IsValid one_ctx
one_ctx-IsValid = alloc_slot-IsValid fresh_ctx 41 0 fresh_ctx-IsValid

alloc_slot_outcome_example :
    let (slot, c') = urb_stream_alloc_slot one_ctx 42 1 in
    ((slot ≡ none) × (c' ≡ one_ctx) × (one_ctx.inflight_count ≡ 8))
    ⊎ ((i : ℕ) × (old : ℕ) × (slot ≡ some i)
        × (i < 8)
        × (get_elem? one_ctx.in_flight i ≡ some (record { cancel_ptr = none; seqnum = old }))
        × (c'.in_flight ≡ set one_ctx.in_flight i (record { cancel_ptr = some 1; seqnum = 42 }))
        × (c'.inflight_count ≡ one_ctx.inflight_count + 1)
        × (c'.cancelled ≡ one_ctx.cancelled))
alloc_slot_outcome_example = alloc_slot_outcome one_ctx 42 1 one_ctx-IsValid

unlink_urb_example :
    ((k : ℕ) × (item : ℕ) × Holds one_ctx.in_flight k item 41
      × (unlink_urb one_ctx 41 ≡ record one_ctx { cancelled = item ∷ one_ctx.cancelled }))
    ⊎ (((k item : ℕ) → ¬ Holds one_ctx.in_flight k item 41) × (unlink_urb one_ctx 41 ≡ one_ctx))
unlink_urb_example = unlink_urb_lem one_ctx 41
