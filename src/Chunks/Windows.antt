-- ===== src/Chunks/Windows.antt =====
-- The loop over the windows of a section: eventide/rag/chunker.py.
use eventide.Prelude.{
  ℕ, zero, suc, ◌+◌, ◌-◌, ◌≤◌, ◌<◌, min, max, ◌≡◌, refl, subst, inl, inr, List, [], ◌∷◌, some, Bool,
  true, false, ◌&&◌, ◌==◌, nat_eq, leb, ltb, length, take, drop, count_of, length-take, length-drop,
  arith, Bool-cases, Option-cases,
}
use eventide.Chunks.{
  Chunk, is_newline, newline_at, last_below, rfind_newline, rfind_blank_line, after_newline,
  after_blank_line, preferred_end, overlap_start, slice, is_blank_text, chunk_at, window_end,
  next_cursor, window_chunks, max_chunk_chars, min_chunk_chars, overlap_chars,
}
use eventide.Chunks.Lines.{line_number-count_of}

last_below_bounds :
    (test : ℕ → Bool) (low n i : ℕ) → last_below test low n ≡ some i → (low ≤ i) × (i < n)
unfolding last_below
last_below_bounds test low zero i h = cc
last_below_bounds test low (suc n) i h = elim (Bool-cases (ltb n low)) [
  | inl below ↦ absurd (ground arith)
  | inr above ↦ elim (Bool-cases (test n)) [
    | inl found ↦ ground arith
    | inr other ↦ ground (arith, last_below_bounds test low n i)
  ]
]

after_newline_bounds :
    (text : List ℕ) (low high limit : ℕ)
    → low < limit
    → high ≤ limit
    → (low < after_newline (rfind_newline text low high) limit)
      × (after_newline (rfind_newline text low high) limit ≤ limit)
after_newline_bounds text low high limit h k = elim (Option-cases (rfind_newline text low high)) [
  | inl missing ↦ rw missing (omega arith, omega arith)
  | inr (i, found) ↦
      let (p, q) = last_below_bounds (newline_at text) low high i found in
      rw found (omega arith, omega arith)
]

after_blank_line_bounds :
    (text : List ℕ) (low limit : ℕ)
    → low < limit
    → (let stop =
          after_blank_line (rfind_blank_line text low limit) (rfind_newline text low limit) limit in
        (low < stop) × (stop ≤ limit))
after_blank_line_bounds text low limit h = elim (Option-cases (rfind_blank_line text low limit)) [
  | inl missing ↦ rw missing (after_newline_bounds text low limit limit h (omega arith))
  | inr (i, found) ↦
      let (p, q) =
        last_below_bounds (λ k. newline_at text k && newline_at text (k + 1)) low (limit - 1) i
          found in
      rw found (omega arith, omega arith)
]

-- A window of a text that is not empty is not empty, and not too long; it is the whole text, or
-- long enough.
preferred_end_bounds :
    (text : List ℕ)
    → 0 < length text
    → (0 < preferred_end text 0)
      × (preferred_end text 0 ≤ length text)
      × (preferred_end text 0 ≤ max_chunk_chars)
      × ((preferred_end text 0 < length text) → min_chunk_chars < preferred_end text 0)
unfolding preferred_end
preferred_end_bounds text h =
    let limit = min (0 + max_chunk_chars) (length text) in
    elim (Bool-cases (limit == length text)) [
      | inl rest ↦
          let whole : limit ≡ length text = ground arith in
          rw rest (omega arith, omega arith, omega arith, λ h. omega arith)
      | inr more ↦
          let l : limit ≤ length text = omega arith in
          let b =
            after_blank_line_bounds text (min (0 + min_chunk_chars) limit) limit (ground arith) in
          let short : limit < length text = ground arith in
          rw more (omega arith, omega arith, omega arith, λ h. omega arith)
    ]

overlap_start_bounds :
    (text : List ℕ) (stop : ℕ)
    → 0 < stop
    → (0 < overlap_start text 0 stop) × (overlap_start text 0 stop ≤ stop)
unfolding overlap_start
overlap_start_bounds text stop h =
    let desired = max (0 + 1) (stop - overlap_chars) in
    let b = after_newline_bounds text 0 desired desired (omega arith) (omega arith) in
    (ground arith, omega arith)

length-slice : (text : List ℕ) (a b : ℕ) → b ≤ length text → length (slice text a b) ≡ b - a
length-slice text a b h = omega (arith, length-take (b - a) (drop a text), length-drop a text)

window_end_bounds :
    (text : List ℕ) (cursor section_end : ℕ)
    → cursor < section_end
    → section_end ≤ length text
    → (let stop = window_end text cursor section_end in
        (cursor < stop)
        × (stop ≤ section_end)
        × (stop ≤ cursor + max_chunk_chars)
        × ((stop < section_end) → cursor + min_chunk_chars < stop))
window_end_bounds text cursor section_end h k =
    let l = length-slice text cursor section_end k in
    let b = preferred_end_bounds (slice text cursor section_end) (omega arith) in
    (omega arith, omega arith, omega arith, λ h. omega (arith, b.3 (omega arith)))

next_cursor_bounds :
    (text : List ℕ) (cursor section_end stop : ℕ)
    → cursor < stop
    → (cursor < next_cursor text cursor section_end stop)
      × (next_cursor text cursor section_end stop ≤ stop)
next_cursor_bounds text cursor section_end stop h =
    let b = overlap_start_bounds (slice text cursor section_end) (stop - cursor) (omega arith) in
    (ground arith, ground arith)

-- A chunk is the part of the text from an offset to another, with the numbers of its first and
-- its last line; it is not blank, and at most 800 characters long.
pub record IsWindow (text : List ℕ) (cursor stop : ℕ) (chunk : Chunk) : Type 0 where
  pub passage : chunk.text ≡ slice text cursor stop
  pub first : chunk.start_line ≡ 1 + count_of is_newline (take cursor text)
  pub last : chunk.end_line ≡ 1 + count_of is_newline (take (stop - 1) text)
  pub shown : is_blank_text chunk.text ≡ false
  pub size : length chunk.text ≤ max_chunk_chars

-- The chunks cover a section from a cursor on, without a gap, up to its end, or up to a blank
-- stretch of more than 600 characters. Every chunk but the last has more than 600, too.
pub data Covers (text : List ℕ) (section_end : ℕ) : ℕ → List Chunk → Type 0 where
  ended : (cursor : ℕ) → section_end ≤ cursor → Covers text section_end cursor []
  blank :
      (cursor stop : ℕ)
      → cursor < stop
      → (stop < section_end → cursor + min_chunk_chars < stop)
      → is_blank_text (slice text cursor stop) ≡ true
      → Covers text section_end cursor []
  last :
      (cursor : ℕ) (chunk : Chunk)
      → IsWindow text cursor section_end chunk
      → Covers text section_end cursor (chunk ∷ [])
  next :
      (cursor stop later : ℕ) (chunk : Chunk) (chunks : List Chunk)
      → IsWindow text cursor stop chunk
      → cursor < later
      → later ≤ stop
      → stop < section_end
      → cursor + min_chunk_chars < stop
      → Covers text section_end later chunks
      → Covers text section_end cursor (chunk ∷ chunks)

chunk_at-IsWindow :
    (file heading text : List ℕ) (cursor stop : ℕ)
    → cursor < stop
    → stop ≤ length text
    → stop ≤ cursor + max_chunk_chars
    → is_blank_text (slice text cursor stop) ≡ false
    → IsWindow text cursor stop (chunk_at file heading text cursor stop)
chunk_at-IsWindow file heading text cursor stop h k m shown =
    let e : max cursor (stop - 1) ≡ stop - 1 = omega arith in
    record {
      passage = refl;
      first = line_number-count_of text cursor;
      last = rw e (line_number-count_of text (stop - 1));
      shown = shown;
      size = omega (arith, length-slice text cursor stop k);
    }

-- On fuel above the length of the section of a text, whatever it holds, the loop ends, with chunks that are
-- parts of the text under their true line numbers, none blank, none longer than 800 characters, and all
-- but the last longer than 600. They leave no gap from the start of the section to its end, or else to a
-- first stretch, from the start of a window on, of blank characters alone, which is the rest of the
-- section or longer than 600: what follows such a stretch is left out.
pub window_chunks-Covers :
    (file heading text : List ℕ) (section_end : ℕ)
    → section_end ≤ length text
    → (fuel cursor : ℕ) → section_end - cursor < fuel
    → (chunks : List Chunk) × (window_chunks fuel file heading text cursor section_end
        ≡ some chunks)
      × Covers text section_end cursor chunks
unfolding window_chunks
window_chunks-Covers file heading text section_end k zero cursor f = absurd (omega arith)
window_chunks-Covers file heading text section_end k (suc fuel) cursor f =
    elim (Bool-cases (ltb cursor section_end)) [
      | inr over ↦ ([], rw over refl, ended cursor (ground arith))
      | inl inside ↦
          let stop = window_end text cursor section_end in
          let w = window_end_bounds text cursor section_end (ground arith) k in
          elim (Bool-cases (is_blank_text (slice text cursor stop))) [
            | inl nothing ↦ ([], rw (inside, nothing) refl, blank cursor stop w.0 w.3 nothing)
            | inr shown ↦
                let chunk = chunk_at file heading text cursor stop in
                let v =
                  chunk_at-IsWindow file heading text cursor stop w.0 (omega arith) w.2 shown in
                elim (Bool-cases (leb section_end stop)) [
                  | inl done ↦
                      let e : stop ≡ section_end = ground arith in
                      (
                        chunk ∷ [],
                        rw (inside, shown, done) refl,
                        last cursor chunk (subst (λ s. IsWindow text cursor s chunk) e v),
                      )
                  | inr more ↦
                      let n = next_cursor_bounds text cursor section_end stop w.0 in
                      let later = next_cursor text cursor section_end stop in
                      let (chunks, e, c) =
                        window_chunks-Covers file heading text section_end k fuel later
                          (omega arith) in
                      (
                        chunk ∷ chunks,
                        rw (inside, shown, more, e) refl,
                        next cursor stop later chunk chunks v n.0 n.1 (ground arith)
                            (w.3 (ground arith)) c,
                      )
                ]
          ]
    ]
