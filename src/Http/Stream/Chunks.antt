-- ===== src/Http/Stream/Chunks.antt =====
-- The chunked coding of HTTP/1.1, as a client reads it.
use esp_usbip_bridge.Base.{
  ℕ, zero, suc, ◌≤◌, ◌<◌, ◌≡◌, refl, ap, ◌∙◌, sym, List, [], ◌∷◌, ◌++◌, append_assoc, Option, none,
  some, true, false, ◌&&◌, length, take, drop, ◌==◌, if◌then◌else◌, codes, hex_number,
  hex_digit_value, read_number, read_number-hex_number, arith, take-append_left, length-append,
  drop-append_left,
}
use esp_usbip_bridge.Http.Stream.{crlf}

after_crlf : List ℕ → Option (List ℕ)
after_crlf [] = none
after_crlf (a ∷ []) = none
after_crlf (a ∷ b ∷ rest) = if a == 13 && b == 10 then some rest else none

-- A chunk of `n` bytes whose length stood before `rest`, and then what `next` reads.
chunk_step : (List ℕ → Option (List ℕ × List ℕ)) → ℕ → List ℕ → Option (List ℕ × List ℕ)
unfolding after_crlf
chunk_step next n rest = elim (after_crlf rest) [
  | none ↦ none
  | some body ↦ elim (n == 0) [
    | true ↦ elim (after_crlf body) [ none ↦ none | some more ↦ some ([], more) ]
    | false ↦ elim (after_crlf (drop n body)) [
      | none ↦ none
      | some more ↦ elim (next more) [
        | none ↦ none
        | some (bytes, end) ↦ some (take n body ++ bytes, end)
      ]
    ]
  ]
]

-- The bytes of the chunks up to the last one, which is empty, and what follows it.
unfoldable pub dechunk : ℕ → List ℕ → Option (List ℕ × List ℕ)
unfolding chunk_step
dechunk zero bs = none
dechunk (suc fuel) bs =
    let (n, rest) = read_number 16 hex_digit_value 0 bs in chunk_step (dechunk fuel) n rest

-- As many rounds as bytes are enough: every chunk has some.
unfoldable pub decode : List ℕ → Option (List ℕ × List ℕ)
unfolding dechunk
decode bs = dechunk (length bs) bs

unfoldable pub chunk : List ℕ → List ℕ
chunk bs = hex_number (length bs) ++ (crlf ++ (bs ++ crlf))

unfoldable pub chunks : List (List ℕ) → List ℕ
chunks [] = []
chunks (c ∷ cs) = chunk c ++ chunks cs

unfoldable pub joined : List (List ℕ) → List ℕ
joined [] = []
joined (c ∷ cs) = c ++ joined cs

abbrev pub IsChunk : List ℕ → Type 0
IsChunk c = (1 ≤ length c) × (length c < 4294967296)

abbrev pub AllChunks : List (List ℕ) → Type 0
AllChunks [] = Unit
AllChunks (c ∷ cs) = IsChunk c × AllChunks cs

abbrev pub last_chunk : List ℕ
last_chunk = codes "0" ++ (crlf ++ crlf)

dechunk-last :
    (fuel : ℕ) (rest : List ℕ) → dechunk (suc fuel) (last_chunk ++ rest) ≡ some ([], rest)
unfolding dechunk chunk_step after_crlf read_number hex_digit_value
dechunk-last fuel rest = refl

chunk_step-chunk :
    (next : List ℕ → Option (List ℕ × List ℕ)) (c rest bytes end : List ℕ)
    → 1 ≤ length c
    → next rest ≡ some (bytes, end)
    → chunk_step next (length c) (crlf ++ (c ++ (crlf ++ rest))) ≡ some (c ++ bytes, end)
unfolding chunk_step after_crlf
chunk_step-chunk next c rest bytes end full h = ground (
  arith,
  full,
  h,
  drop-append_left c (crlf ++ rest) (length c),
  take-append_left c (crlf ++ rest) (length c),
)

dechunk-chunk :
    (fuel : ℕ) (c rest bytes end : List ℕ)
    → IsChunk c
    → dechunk fuel rest ≡ some (bytes, end)
    → dechunk (suc fuel) (chunk c ++ rest) ≡ some (c ++ bytes, end)
unfolding dechunk chunk hex_digit_value
dechunk-chunk fuel c rest bytes end is h =
    let body = c ++ (crlf ++ rest) in
    let flat : chunk c ++ rest ≡ hex_number (length c) ++ (crlf ++ body) =
      append_assoc (hex_number (length c)) (crlf ++ (c ++ crlf)) rest
      ∙ ap (λ t. hex_number (length c) ++ (crlf ++ t)) (append_assoc c crlf rest) in
    ap (dechunk (suc fuel)) flat
    ∙ ap (λ (r : ℕ × List ℕ). chunk_step (dechunk fuel) r.0 r.1)
        (read_number-hex_number (length c) 13 (10 ∷ body) is.1 refl)
    ∙ chunk_step-chunk (dechunk fuel) c rest bytes end is.0 h

dechunk-chunks :
    (cs : List (List ℕ)) (fuel : ℕ) (rest : List ℕ)
    → AllChunks cs
    → length cs < fuel
    → dechunk fuel (chunks cs ++ (last_chunk ++ rest)) ≡ some (joined cs, rest)
unfolding chunks joined
dechunk-chunks cs zero rest all enough = absurd (omega arith)
dechunk-chunks [] (suc fuel) rest all enough = dechunk-last fuel rest
dechunk-chunks (c ∷ cs) (suc fuel) rest all enough =
    ap (dechunk (suc fuel)) (append_assoc (chunk c) (chunks cs) (last_chunk ++ rest))
    ∙ dechunk-chunk fuel c (chunks cs ++ (last_chunk ++ rest)) (joined cs) rest all.0
        (dechunk-chunks cs fuel rest all.1 (omega arith))

length-chunks : (cs : List (List ℕ)) → length cs ≤ length (chunks cs)
unfolding chunks chunk
length-chunks [] = omega arith
length-chunks (c ∷ cs) =
    let body = crlf ++ (c ++ crlf) in
    omega (
      arith,
      length-chunks cs,
      length-append (hex_number (length c) ++ body) (chunks cs),
      length-append (hex_number (length c)) body,
    )

-- The chunks and the last one decode to what the chunks hold, in front of any rest.
pub decode-chunks :
    (cs : List (List ℕ)) (rest : List ℕ)
    → AllChunks cs
    → decode (chunks cs ++ (last_chunk ++ rest)) ≡ some (joined cs, rest)
unfolding decode
decode-chunks cs rest all =
    dechunk-chunks cs (length (chunks cs ++ (last_chunk ++ rest))) rest all
      (omega (arith, length-chunks cs, length-append (chunks cs) (last_chunk ++ rest)))

pub chunks-append : (cs ds : List (List ℕ)) → chunks (cs ++ ds) ≡ chunks cs ++ chunks ds
unfolding chunks
chunks-append [] ds = refl
chunks-append (c ∷ cs) ds =
    rw (chunks-append cs ds) (sym (append_assoc (chunk c) (chunks cs) (chunks ds)))

pub joined-append : (cs ds : List (List ℕ)) → joined (cs ++ ds) ≡ joined cs ++ joined ds
unfolding joined
joined-append [] ds = refl
joined-append (c ∷ cs) ds = rw (joined-append cs ds) (sym (append_assoc c (joined cs) (joined ds)))

pub AllChunks-append : (cs ds : List (List ℕ)) → AllChunks cs → AllChunks ds → AllChunks (cs ++ ds)
AllChunks-append [] ds hc hd = hd
AllChunks-append (c ∷ cs) ds hc hd = (hc.0, AllChunks-append cs ds hc.1 hd)
