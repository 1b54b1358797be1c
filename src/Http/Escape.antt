-- ===== src/Http/Escape.antt =====
-- main/http_server.c: `html_escape_attr`, and the browser's view of the value that it makes.
use esp_usbip_bridge.Base.{
  ℕ, zero, suc, ◌+◌, ◌*◌, ◌≤◌, ◌<◌, ◌≡◌, refl, ap, ◌∙◌, sym, List, [], ◌∷◌, ◌++◌, append_assoc,
  append-nil, Bool, true, false, ◌&&◌, ◌||◌, not, length, take, ◌==◌, leb, ltb, if_ind,
  if◌then◌else◌, codes, arith, length-append, Bool-cases, inl, inr, NoNul, bytes_eq, starts, subst,
}

abbrev is_special : ℕ → Bool
is_special c = c == b'"' || (c == b'&' || (c == b'<' || c == b'>'))

-- The entity of a special character, and any other character itself.
unfoldable pub escaped : ℕ → List ℕ
escaped c =
    if c == b'"'
    then codes "&quot;"
    else if c == b'&'
    then codes "&amp;"
    else if c == b'<'
    then codes "&lt;"
    else if c == b'>'
    then codes "&gt;"
    else c ∷ []

-- The loop, with what `out` holds already.
unfoldable pub escape_loop : List ℕ → List ℕ → ℕ → List ℕ
unfolding escaped
escape_loop [] out out_size = out
escape_loop (c ∷ cs) out out_size =
    let rest = escape_loop cs (out ++ escaped c) out_size in
    if c == 0 || not (ltb (length out + 1) out_size)
    then out
    else if is_special c && leb out_size (length out + length (escaped c) + 1)
    then out
    else rest

-- The text in `out`, before the NUL.
unfoldable pub html_escape_attr : List ℕ → ℕ → List ℕ
unfolding escape_loop
html_escape_attr text out_size = escape_loop text [] out_size

-- The character of the entity behind an ampersand, and how long it is.
entity_at : List ℕ → ℕ × ℕ
unfolding starts
entity_at cs =
    if starts (codes "quot;") cs
    then (b'"', 5)
    else if starts (codes "amp;") cs
    then (b'&', 4)
    else if starts (codes "lt;") cs
    then (b'<', 3)
    else if starts (codes "gt;") cs
    then (b'>', 3)
    else (b'&', 0)

-- What a browser makes of the value, `skip` characters of which belong to the entity before.
unfoldable pub unescape : ℕ → List ℕ → List ℕ
unfolding entity_at
unescape skip [] = []
unescape (suc skip) (c ∷ cs) = unescape skip cs
unescape zero (c ∷ cs) =
    let (shown, skip) = if c == b'&' then entity_at cs else (c, 0) in shown ∷ unescape skip cs

-- A character that neither ends the value nor opens a tag.
abbrev pub is_safe : ℕ → Bool
is_safe c = not (c == b'"' || (c == b'<' || c == b'>'))

abbrev pub AllSafe : List ℕ → Type 0
AllSafe [] = Unit
AllSafe (c ∷ cs) = (is_safe c ≡ true) × AllSafe cs

AllSafe-append : (xs ys : List ℕ) → AllSafe xs → AllSafe ys → AllSafe (xs ++ ys)
AllSafe-append [] ys hx hy = hy
AllSafe-append (x ∷ xs) ys hx hy = (hx.0, AllSafe-append xs ys hx.1 hy)

-- The five forms of an escaped character.
data Form : ℕ → List ℕ → Type 0 where
  quote_form : {c : ℕ} → c ≡ b'"' → Form c (codes "&quot;")
  amp_form : {c : ℕ} → c ≡ b'&' → Form c (codes "&amp;")
  lt_form : {c : ℕ} → c ≡ b'<' → Form c (codes "&lt;")
  gt_form : {c : ℕ} → c ≡ b'>' → Form c (codes "&gt;")
  plain_form : {c : ℕ} → is_special c ≡ false → Form c (c ∷ [])

escaped-Form : (c : ℕ) → Form c (escaped c)
unfolding escaped
escaped-Form c =
    if_ind (Form c) (c == b'"') (λ e. quote_form (ground (arith, e)))
      (λ e1.
        if_ind (Form c) (c == b'&') (λ e. amp_form (ground (arith, e)))
          (λ e2.
            if_ind (Form c) (c == b'<') (λ e. lt_form (ground (arith, e)))
              (λ e3.
                if_ind (Form c) (c == b'>') (λ e. gt_form (ground (arith, e)))
                  (λ e4. plain_form (ground (arith, e1, e2, e3, e4))))))

Form-AllSafe : {c : ℕ} {e : List ℕ} → Form c e → AllSafe e
Form-AllSafe (quote_form q) = (refl, (refl, (refl, (refl, (refl, (refl, tt))))))
Form-AllSafe (amp_form q) = (refl, (refl, (refl, (refl, (refl, tt)))))
Form-AllSafe (lt_form q) = (refl, (refl, (refl, (refl, tt))))
Form-AllSafe (gt_form q) = (refl, (refl, (refl, (refl, tt))))
Form-AllSafe (plain_form q) = (ground (arith, q), tt)

Form-unescape :
    {c : ℕ} {e : List ℕ} → Form c e → (rest : List ℕ) → unescape 0 (e ++ rest) ≡ c ∷ unescape 0 rest
unfolding unescape entity_at starts bytes_eq
Form-unescape (quote_form q) rest = ap (λ k. k ∷ unescape 0 rest) (sym q)
Form-unescape (amp_form q) rest = ap (λ k. k ∷ unescape 0 rest) (sym q)
Form-unescape (lt_form q) rest = ap (λ k. k ∷ unescape 0 rest) (sym q)
Form-unescape (gt_form q) rest = ap (λ k. k ∷ unescape 0 rest) (sym q)
Form-unescape (plain_form {c} q) rest =
    let other : (c == b'&') ≡ false = ground (arith, q) in rw (unescape, other) refl

Form-length : {c : ℕ} {e : List ℕ} → Form c e → (1 ≤ length e) × (length e ≤ 6)
Form-length (quote_form q) = omega arith
Form-length (amp_form q) = omega arith
Form-length (lt_form q) = omega arith
Form-length (gt_form q) = omega arith
Form-length (plain_form q) = omega arith

escape_all : List ℕ → List ℕ
escape_all [] = []
escape_all (c ∷ cs) = escaped c ++ escape_all cs

unescape-escape_all : (xs : List ℕ) → unescape 0 (escape_all xs) ≡ xs
unfolding escape_all
unescape-escape_all [] = unfold unescape in refl
unescape-escape_all (c ∷ cs) =
    Form-unescape (escaped-Form c) (escape_all cs) ∙ ap (λ l. c ∷ l) (unescape-escape_all cs)

escape_all-AllSafe : (xs : List ℕ) → AllSafe (escape_all xs)
unfolding escape_all
escape_all-AllSafe [] = tt
escape_all-AllSafe (c ∷ cs) =
    AllSafe-append (escaped c) (escape_all cs) (Form-AllSafe (escaped-Form c))
      (escape_all-AllSafe cs)

plain_short : (c : ℕ) → is_special c ≡ false → length (escaped c) ≡ 1
unfolding escaped
plain_short c e = ground (arith, e)

-- The loop appends the escaped characters of a prefix, and stays within the buffer.
escape_loop-prefix :
    (xs out : List ℕ) (size : ℕ)
    → length out < size
    → (k : ℕ) × (escape_loop xs out size ≡ out ++ escape_all (take k xs))
      × (length (escape_loop xs out size) < size)
unfolding escape_loop escape_all
escape_loop-prefix [] out size fits = (0, sym (append-nil out), fits)
escape_loop-prefix (c ∷ cs) out size fits =
    let grown = out ++ escaped c in
    let P =
      λ (r : List ℕ). (k : ℕ) × (r ≡ out ++ escape_all (take k (c ∷ cs))) × (length r < size) in
    let stop : P out = (0, sym (append-nil out), fits) in
    let go : length grown < size → P (escape_loop cs grown size) = λ room.
      let (k, e, f) = escape_loop-prefix cs grown size room in
      (suc k, e ∙ append_assoc out (escaped c) (escape_all (take k cs)), f) in
    if_ind P (c == 0 || not (ltb (length out + 1) size)) (λ _. stop)
      (λ e1.
        if_ind P (is_special c && leb size (length out + length (escaped c) + 1)) (λ _. stop)
          (λ e2. go (elim (Bool-cases (is_special c)) [
            | inl s ↦ ground (arith, e1, e2, s, length-append out (escaped c))
            | inr s ↦ ground (arith, e1, plain_short c s, length-append out (escaped c))
          ])))

and_right : (a b : Bool) → (a && b) ≡ true → b ≡ true
and_right true b e = e
and_right false b e = absurd (ground (arith, e))

escape_loop-all :
    (xs out : List ℕ) (size : ℕ)
    → NoNul xs
    → length out + 6 * length xs + 1 < size
    → escape_loop xs out size ≡ out ++ escape_all xs
unfolding escape_loop escape_all
escape_loop-all [] out size text room = sym (append-nil out)
escape_loop-all (c ∷ cs) out size text room =
    let grown = out ++ escaped c in
    let (_, short) = Form-length (escaped-Form c) in
    let next =
      escape_loop-all cs grown size text.1 (omega (arith, length-append out (escaped c)))
      ∙ append_assoc out (escaped c) (escape_all cs) in
    let P = λ (r : List ℕ). r ≡ out ++ (escaped c ++ escape_all cs) in
    if_ind P (c == 0 || not (ltb (length out + 1) size)) (λ e. absurd (ground (arith, e, text.0)))
      (λ _.
        if_ind P (is_special c && leb size (length out + length (escaped c) + 1))
          (λ e. absurd (ground (arith, and_right (is_special c) _ e, short))) (λ _. next))

-- For a buffer that is not empty, `html_escape_attr` writes a text that fits with its NUL, has no
-- quote, no `<` and no `>`, and reads back as the beginning of the input.
pub html_escape_attr-AllSafe :
    (text : List ℕ) (out_size : ℕ)
    → 1 ≤ out_size
    → let out = html_escape_attr text out_size in
      (length out < out_size) × AllSafe out × ((k : ℕ) × (unescape 0 out ≡ take k text))
unfolding html_escape_attr
html_escape_attr-AllSafe text out_size room =
    let (k, e, fits) = escape_loop-prefix text [] out_size (omega arith) in
    (
      fits,
      subst AllSafe (sym e) (escape_all-AllSafe (take k text)),
      (k, ap (unescape 0) e ∙ unescape-escape_all (take k text)),
    )

-- For a text without NUL, and a buffer of more than six times its length and one, what
-- `html_escape_attr` writes reads back as the text.
pub html_escape_attr_roundtrip :
    (text : List ℕ) (out_size : ℕ)
    → NoNul text
    → 6 * length text + 1 < out_size
    → unescape 0 (html_escape_attr text out_size) ≡ text
unfolding html_escape_attr
html_escape_attr_roundtrip text out_size plain room =
    ap (unescape 0) (escape_loop-all text [] out_size plain (omega arith))
    ∙ unescape-escape_all text
