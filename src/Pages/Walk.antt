-- ===== src/Pages/Walk.antt =====
-- Reading a stored result page by page: eventide/tool_results.py.
use eventide.Prelude.{
  ℕ, zero, suc, ◌+◌, ◌-◌, ◌≤◌, ◌<◌, min, pos, ◌≡◌, refl, ap, inl, inr, String, List, ◌++◌, Option,
  none, some, false, ◌||◌, ltb, length, drop, take-append-drop, drop-drop, take_all, length-drop,
  arith, Bool-cases,
}
use eventide.Pages.{
  Reader, Acceptance, integer, Reply, refused, page, page_at, page_max_chars, find_result,
  read_tool_result,
}

-- The text of a page, and what follows from its hint.
abbrev follow : List ℕ → Option ℕ → (ℕ → Option (List ℕ)) → Option (List ℕ)
follow text none rest = some text
follow text (some offset) rest = elim (rest offset) [
  | none ↦ none
  | some more ↦ some (text ++ more)
]

abbrev join_reply : Reply → (ℕ → Option (List ℕ)) → Option (List ℕ)
join_reply (refused message) rest = none
join_reply (page p) rest = follow p.text p.next_offset rest

-- The pages that one gets by following the hints; `none` where a page is refused, or where the
-- fuel does not last.
unfoldable pub read_on : ℕ → (ℕ → Reply) → ℕ → Option (List ℕ)
read_on zero read offset = none
read_on (suc fuel) read offset = join_reply (read offset) (read_on fuel read)

read_tool_result-found :
    (r : Reader) (run_id call_id : String) (found : Option Acceptance × List ℕ) (offset limit : ℕ)
    → find_result r run_id call_id ≡ some found
    → 1 ≤ limit
    → limit ≤ page_max_chars
    → read_tool_result r run_id call_id (integer (pos offset)) (integer (pos limit))
      ≡ page (page_at found.0 found.1 offset limit)
unfolding read_tool_result
read_tool_result-found r run_id call_id found offset limit h low high =
    let e : (ltb limit 1 || ltb page_max_chars limit) ≡ false = ground arith in rw (e, h) refl

-- The text of a page, put before the rest from its hint, is the rest from its offset.
page_at-follow :
    (origin : Option Acceptance) (content : List ℕ) (offset limit : ℕ)
    → offset ≤ length content
    → (rest : ℕ → Option (List ℕ))
    → (offset + limit < length content
        → rest (offset + limit) ≡ some (drop (offset + limit) content))
    → join_reply (page (page_at origin content offset limit)) rest ≡ some (drop offset content)
unfolding page_at
page_at-follow origin content offset limit h rest k =
    let s : min offset (length content) ≡ offset = omega arith in
    elim (Bool-cases (ltb (offset + limit) (length content))) [
      | inl more ↦
          let e : min (offset + limit) (length content) ≡ offset + limit = ground arith in
          let d : offset + limit - offset ≡ limit = omega arith in
          let joined = take-append-drop limit (drop offset content) in
          rw (s, e, more, k (ground arith), d)
            (ap some ((rw (drop-drop limit offset content) at joined)))
      | inr last ↦
          let e : min (offset + limit) (length content) ≡ length content = ground arith in
          let done : ltb (length content) (length content) ≡ false = ground arith in
          rw (s, e, done)
            (ap some (
              take_all (length content - offset) (drop offset content)
                (omega (arith, length-drop offset content))))
    ]

read_on-drop :
    (r : Reader) (run_id call_id : String) (found : Option Acceptance × List ℕ) (limit : ℕ)
    → find_result r run_id call_id ≡ some found
    → 1 ≤ limit
    → limit ≤ page_max_chars
    → (fuel offset : ℕ) → offset ≤ length found.1
    → length found.1 < offset + fuel
    → read_on fuel
        (λ o. read_tool_result r run_id call_id (integer (pos o)) (integer (pos limit)))
        offset
      ≡ some (drop offset found.1)
unfolding read_on
read_on-drop r run_id call_id found limit h low high zero offset w f = absurd (omega arith)
read_on-drop r run_id call_id found limit h low high (suc fuel) offset w f =
    rw (read_tool_result-found r run_id call_id found offset limit h low high) (
      page_at-follow found.0 found.1 offset limit w
        (read_on fuel
          (λ o. read_tool_result r run_id call_id (integer (pos o)) (integer (pos limit))))
        (λ more.
          read_on-drop r run_id call_id found limit h low high fuel (offset + limit) (omega arith)
            (omega arith)))

-- A stored result that a reader may see, whatever its length, is read whole: with any limit that
-- the tool accepts, the pages that one gets from offset 0 by following the hints for the next
-- offset join to the stored text, after at most one page more than it has characters.
pub read_tool_result-pages :
    (r : Reader) (run_id call_id : String) (found : Option Acceptance × List ℕ) (limit : ℕ)
    → find_result r run_id call_id ≡ some found
    → 1 ≤ limit
    → limit ≤ page_max_chars
    → read_on
        (length found.1 + 1)
        (λ o. read_tool_result r run_id call_id (integer (pos o)) (integer (pos limit)))
        0
      ≡ some found.1
read_tool_result-pages r run_id call_id found limit h low high =
    read_on-drop r run_id call_id found limit h low high (length found.1 + 1) 0 (omega arith)
      (omega arith)
