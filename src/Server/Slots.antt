-- ===== src/Server/Slots.antt =====
-- main/usbip_server.c: `urb_stream_ctx_t` and its table of the requests in flight. A pointer to a
-- cancel flag is the number of the work item that holds the flag (NULL is `none`), and `cancelled`
-- holds the numbers of the items whose flag is set.
pub mod Laws
use esp_usbip_bridge.Base.{
  ℕ, zero, suc, ◌+◌, ◌-◌, List, [], ◌∷◌, Option, none, some, Bool, true, false, ◌&&◌, is_some, set,
  get_elem?, replicate, ◌==◌, if◌then◌else◌,
}

abbrev pub urb_stream_max_inflight : ℕ
urb_stream_max_inflight = 8

pub record SlotEntry : Type 0 where
  pub cancel_ptr : Option ℕ
  pub seqnum : ℕ

-- `inflight_count` is an `atomic_int`, and the number of the slots in use. `next_item` is the number of the next work item that `calloc` returns.
pub record StreamCtx : Type 0 where
  pub cancel : Bool
  pub inflight_count : ℕ
  pub in_flight : List SlotEntry
  pub cancelled : List ℕ
  pub next_item : ℕ

abbrev pub free_entry : SlotEntry
free_entry = record { cancel_ptr = none; seqnum = 0 }

-- The zeroed context that a stream starts with.
abbrev pub fresh_ctx : StreamCtx
fresh_ctx = record {
  cancel = false;
  inflight_count = 0;
  in_flight = replicate urb_stream_max_inflight free_entry;
  cancelled = [];
  next_item = 0;
}

unfoldable pub urb_stream_free_slot : StreamCtx → ℕ → StreamCtx
urb_stream_free_slot c slot = record c {
  in_flight = set c.in_flight slot free_entry;
  inflight_count = c.inflight_count - 1;
}

-- The first entry from index `i` on whose pointer is NULL.
unfoldable pub first_free : List SlotEntry → ℕ → Option ℕ
first_free [] i = none
first_free (e ∷ es) i =
    let rest = first_free es (suc i) in if is_some e.cancel_ptr then rest else some i

-- The index, or `none` for -1.
unfoldable pub urb_stream_alloc_slot : StreamCtx → ℕ → ℕ → Option ℕ × StreamCtx
unfolding first_free
urb_stream_alloc_slot c seqnum item = elim (first_free c.in_flight 0) [
  | none ↦ (none, c)
  | some i ↦ (
    some i,
    record c {
      in_flight = set c.in_flight i (record { cancel_ptr = some item; seqnum = seqnum });
      inflight_count = c.inflight_count + 1;
    },
  )
]

unfoldable pub find_seqnum : ℕ → List SlotEntry → ℕ → Option ℕ
find_seqnum seqnum [] i = none
find_seqnum seqnum (e ∷ es) i =
    let rest = find_seqnum seqnum es (suc i) in
    if is_some e.cancel_ptr && e.seqnum == seqnum then some i else rest

unfoldable pub urb_stream_find_by_seqnum : StreamCtx → ℕ → Option ℕ
unfolding find_seqnum
urb_stream_find_by_seqnum c seqnum = find_seqnum seqnum c.in_flight 0

-- `*ctx->in_flight[slot].cancel_ptr = true`, if the pointer is not NULL.
unfoldable pub set_cancel : Option SlotEntry → StreamCtx → StreamCtx
set_cancel none c = c
set_cancel (some e) c = elim e.cancel_ptr [
  | none ↦ c
  | some item ↦ record c { cancelled = item ∷ c.cancelled }
]

-- The cancellation in the `CMD_UNLINK` branch.
unfoldable pub unlink_urb : StreamCtx → ℕ → StreamCtx
unfolding urb_stream_find_by_seqnum set_cancel
unlink_urb c seqnum = elim (urb_stream_find_by_seqnum c seqnum) [
  | none ↦ c
  | some slot ↦ set_cancel (get_elem? c.in_flight slot) c
]

unfoldable pub cancel_all : List SlotEntry → List ℕ → List ℕ
cancel_all [] flags = flags
cancel_all (e ∷ es) flags =
    cancel_all es (elim e.cancel_ptr [ none ↦ flags | some item ↦ item ∷ flags ])

-- The first part of `cleanup`: the stream and every request in flight are told to stop.
unfoldable pub signal_cleanup : StreamCtx → StreamCtx
unfolding cancel_all
signal_cleanup c = record c { cancel = true; cancelled = cancel_all c.in_flight c.cancelled }
