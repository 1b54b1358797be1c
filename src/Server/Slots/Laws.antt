-- ===== src/Server/Slots/Laws.antt =====
-- main/usbip_server.c: the table of the requests in flight, its invariant, and its operations.
use esp_usbip_bridge.Base.{
  ℕ, zero, suc, ◌+◌, ◌≤◌, ◌<◌, ◌≡◌, refl, List, [], ◌∷◌, none, some, true, set, get_elem?, length,
  length-set, arith, Option-cases, Bool-cases, inl, inr, ◌⊎◌, ◌==◌,
}
use esp_usbip_bridge.Server.Slots.{
  SlotEntry, StreamCtx, free_entry, fresh_ctx, urb_stream_free_slot, first_free,
  urb_stream_alloc_slot, find_seqnum, urb_stream_find_by_seqnum, unlink_urb, cancel_all,
  signal_cleanup,
}

-- How many slots are taken.
abbrev pub occupied : List SlotEntry → ℕ
occupied [] = 0
occupied (e ∷ es) = elim e.cancel_ptr [ none ↦ occupied es | some _ ↦ suc (occupied es) ]

pub record IsValid (c : StreamCtx) : Type 0 where
  pub size : length c.in_flight ≡ 8
  pub counted : c.inflight_count ≡ occupied c.in_flight

pub fresh_ctx-IsValid : IsValid fresh_ctx
fresh_ctx-IsValid = record { size = refl; counted = refl }

-- The entry at an index that is in use.
abbrev pub Holds : List SlotEntry → ℕ → ℕ → ℕ → Type 0
Holds es i item seqnum = get_elem? es i ≡ some (record { cancel_ptr = some item; seqnum = seqnum })

first_free-cases :
    (es : List SlotEntry) (i : ℕ)
    → ((first_free es i ≡ none) × (occupied es ≡ length es))
      ⊎ ((k : ℕ) × (seqnum : ℕ) × (first_free es i ≡ some (i + k))
          × (k < length es)
          × (get_elem? es k ≡ some (record { cancel_ptr = none; seqnum = seqnum })))
unfolding first_free
first_free-cases [] i = inl (refl, refl)
first_free-cases (e ∷ es) i = elim (Option-cases e.cancel_ptr) [
  | inl n ↦ inr (0, e.seqnum, ground (arith, n), omega arith, ground (arith, n))
  | inr (x, p) ↦ elim (first_free-cases es (suc i)) [
    | inl (a, b) ↦ inl (ground (arith, p, a), ground (arith, p, b))
    | inr (k, s, a, b, c) ↦ inr (suc k, s, ground (arith, p, a), omega arith, c)
  ]
]

occupied-set_free :
    (es : List SlotEntry) (i item s : ℕ)
    → Holds es i item s
    → occupied es ≡ suc (occupied (set es i free_entry))
occupied-set_free [] i item s h = ground arith
occupied-set_free (e ∷ es) zero item s h = ground arith
occupied-set_free (e ∷ es) (suc i) item s h = ground (arith, occupied-set_free es i item s h)

occupied-set_taken :
    (es : List SlotEntry) (i item s t : ℕ)
    → get_elem? es i ≡ some (record { cancel_ptr = none; seqnum = t })
    → occupied (set es i (record { cancel_ptr = some item; seqnum = s })) ≡ suc (occupied es)
occupied-set_taken [] i item s t h = ground arith
occupied-set_taken (e ∷ es) zero item s t h = ground arith
occupied-set_taken (e ∷ es) (suc i) item s t h = ground (arith, occupied-set_taken es i item s t h)

-- If a table has eight slots and counts those in use, this holds again after
-- `urb_stream_alloc_slot`, also when it finds no slot.
pub alloc_slot-IsValid :
    (c : StreamCtx) (seqnum item : ℕ) → IsValid c → IsValid (urb_stream_alloc_slot c seqnum item).1
unfolding urb_stream_alloc_slot
alloc_slot-IsValid c s item v = elim (first_free-cases c.in_flight 0) [
  | inl (a, b) ↦ ground (arith, a)
  | inr (k, t, a, b, h) ↦ ground (
    arith,
    a,
    occupied-set_taken c.in_flight k item s t h,
    length-set c.in_flight k (record { cancel_ptr = some item; seqnum = s }),
  )
]

-- If a table has eight slots and counts those in use, this holds again after `urb_stream_free_slot`
-- of a slot that is in use, and the count that it decrements is positive.
pub free_slot-IsValid :
    (c : StreamCtx) (slot item seqnum : ℕ)
    → IsValid c
    → Holds c.in_flight slot item seqnum
    → IsValid (urb_stream_free_slot c slot) × (1 ≤ c.inflight_count)
unfolding urb_stream_free_slot
free_slot-IsValid c slot item s v h =
    ground
      (arith, occupied-set_free c.in_flight slot item s h, length-set c.in_flight slot free_entry)

-- On a valid table of slots `urb_stream_alloc_slot` either returns no slot, because all eight are
-- counted as in use, and changes nothing, or it returns a slot below 8 that was free, puts the
-- request there, counts it, and leaves the cancel flags alone.
pub alloc_slot_outcome :
    (c : StreamCtx) (seqnum item : ℕ)
    → IsValid c
    → let (slot, c') = urb_stream_alloc_slot c seqnum item in
      ((slot ≡ none) × (c' ≡ c) × (c.inflight_count ≡ 8))
      ⊎ ((i : ℕ) × (old : ℕ) × (slot ≡ some i)
          × (i < 8)
          × (get_elem? c.in_flight i ≡ some (record { cancel_ptr = none; seqnum = old }))
          × (c'.in_flight ≡ set c.in_flight i (record { cancel_ptr = some item; seqnum = seqnum }))
          × (c'.inflight_count ≡ c.inflight_count + 1)
          × (c'.cancelled ≡ c.cancelled))
unfolding urb_stream_alloc_slot
alloc_slot_outcome c s item v = elim (first_free-cases c.in_flight 0) [
  | inl (a, b) ↦ inl (ground (arith, a), ground (arith, a), ground (arith, v))
  | inr (k, t, a, b, h) ↦
      let e : 0 + k ≡ k = omega arith in
      let a' : first_free c.in_flight 0 ≡ some k = (rw e at a) in
      inr (
        k,
        t,
        ground (arith, a'),
        omega (arith, v.size),
        h,
        ground (arith, a'),
        ground (arith, a'),
        ground (arith, a'),
      )
]

find_seqnum-set :
    (es : List SlotEntry) (i k item s t : ℕ)
    → get_elem? es k ≡ some (record { cancel_ptr = none; seqnum = t })
    → find_seqnum s es i ≡ none
    → find_seqnum s (set es k (record { cancel_ptr = some item; seqnum = s })) i ≡ some (i + k)
unfolding find_seqnum
find_seqnum-set [] i k item s t h n = ground arith
find_seqnum-set (e ∷ es) i zero item s t h n = ground arith
find_seqnum-set (e ∷ es) i (suc k) item s t h n =
    ground (arith, find_seqnum-set es (suc i) k item s t h)

-- On a valid table, a request whose sequence number is not in flight is found under that number in
-- the slot that `urb_stream_alloc_slot` gave it.
pub find-alloc_slot :
    (c : StreamCtx) (seqnum item i : ℕ)
    → IsValid c
    → urb_stream_find_by_seqnum c seqnum ≡ none
    → (urb_stream_alloc_slot c seqnum item).0 ≡ some i
    → urb_stream_find_by_seqnum (urb_stream_alloc_slot c seqnum item).1 seqnum ≡ some i
unfolding urb_stream_find_by_seqnum
find-alloc_slot c s item i v n a = elim (alloc_slot_outcome c s item v) [
  | inl (x, y, z) ↦ ground (arith, x)
  | inr (k, t, x, b, h, f, g, l) ↦
      ground (arith, x, f, find_seqnum-set c.in_flight 0 k item s t h n)
]

find_seqnum-some :
    (s : ℕ) (es : List SlotEntry) (i r : ℕ)
    → find_seqnum s es i ≡ some r
    → (k : ℕ) × (item : ℕ) × (r ≡ i + k) × Holds es k item s
unfolding find_seqnum
find_seqnum-some s [] i r h = absurd (ground (arith, h))
find_seqnum-some s (e ∷ es) i r h = elim (Option-cases e.cancel_ptr) [
  | inl n ↦
      let (k, item, a, b) = find_seqnum-some s es (suc i) r (ground (arith, n, h)) in
      (suc k, item, omega arith, b)
  | inr (x, p) ↦ elim (Bool-cases (e.seqnum == s)) [
    | inl q ↦ (0, x, ground (arith, h, p, q), ground (arith, h, p, q))
    | inr q ↦
        let (k, item, a, b) = find_seqnum-some s es (suc i) r (ground (arith, p, q, h)) in
        (suc k, item, omega arith, b)
  ]
]

find_seqnum-none :
    (s : ℕ) (es : List SlotEntry) (i k item : ℕ) → find_seqnum s es i ≡ none → ¬ Holds es k item s
unfolding find_seqnum
find_seqnum-none s [] i k item h m = ground arith
find_seqnum-none s (e ∷ es) i zero item h m = ground arith
find_seqnum-none s (e ∷ es) i (suc k) item h m =
    ground (arith, find_seqnum-none s es (suc i) k item)

-- An unlink either sets the cancel flag of a request in flight that has the sequence number, and
-- changes nothing else, or no request in flight has that number and nothing changes.
pub unlink_urb_lem :
    (c : StreamCtx) (seqnum : ℕ)
    → ((k : ℕ) × (item : ℕ) × Holds c.in_flight k item seqnum
        × (unlink_urb c seqnum ≡ record c { cancelled = item ∷ c.cancelled }))
      ⊎ (((k item : ℕ) → ¬ Holds c.in_flight k item seqnum) × (unlink_urb c seqnum ≡ c))
unfolding unlink_urb
unlink_urb_lem c s = elim (Option-cases (find_seqnum s c.in_flight 0)) [
  | inl n ↦ inr ((λ k item. find_seqnum-none s c.in_flight 0 k item n), ground (arith, n))
  | inr (r, p) ↦
      let (k, item, a, b) = find_seqnum-some s c.in_flight 0 r p in
      let e : r ≡ k = omega arith in inl (k, item, b, ground (arith, p, e, b))
]

-- The flag of the item is set.
abbrev pub IsFlagged : ℕ → List ℕ → Type 0
IsFlagged item [] = ⊥
IsFlagged item (x ∷ xs) = (item ≡ x) ⊎ IsFlagged item xs

cancel_all-keeps :
    (es : List SlotEntry) (flags : List ℕ) (item : ℕ)
    → IsFlagged item flags
    → IsFlagged item (cancel_all es flags)
unfolding cancel_all
cancel_all-keeps [] flags item h = h
cancel_all-keeps (e ∷ es) flags item h = elim (Option-cases e.cancel_ptr) [
  | inl n ↦ rw (n, cancel_all) (cancel_all-keeps es flags item h)
  | inr (x, p) ↦ rw (p, cancel_all) (cancel_all-keeps es (x ∷ flags) item (inr h))
]

cancel_all-flags :
    (es : List SlotEntry) (flags : List ℕ) (k item s : ℕ)
    → Holds es k item s
    → IsFlagged item (cancel_all es flags)
unfolding cancel_all
cancel_all-flags [] flags k item s h = ground arith
cancel_all-flags (e ∷ es) flags zero item s h =
    let p : e.cancel_ptr ≡ some item = ground arith in
    rw (p, cancel_all) (cancel_all-keeps es (item ∷ flags) item (inl refl))
cancel_all-flags (e ∷ es) flags (suc k) item s h =
    cancel_all-flags es (elim e.cancel_ptr [ none ↦ flags | some x ↦ x ∷ flags ]) k item s h

-- The cleanup of a stream sets the stream's cancel flag and that of every request in flight.
pub signal_cleanup-flags :
    (c : StreamCtx) (k item seqnum : ℕ)
    → Holds c.in_flight k item seqnum
    → ((signal_cleanup c).cancel ≡ true) × IsFlagged item (signal_cleanup c).cancelled
unfolding signal_cleanup
signal_cleanup-flags c k item s h = (refl, cancel_all-flags c.in_flight c.cancelled k item s h)
