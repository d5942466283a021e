-- ===== src/Chunks/Lines.antt =====
-- The line numbers of eventide/rag/chunker.py.
use eventide.Prelude.{
  ℕ, zero, suc, ◌+◌, ◌≤◌, ◌≡◌, refl, List, [], ◌∷◌, nat_eq, take, count_of, arith, inl, inr,
  Bool-cases,
}
use eventide.Chunks.{is_newline, newline_starts, line_starts, bisect_right, line_number}

bisect_right-zero : (text : List ℕ) (i x : ℕ) → x ≤ i → bisect_right (newline_starts i text) x ≡ 0
bisect_right-zero [] i x h = refl
bisect_right-zero (c ∷ text) i x h = ground (arith, bisect_right-zero text (i + 1) x)

bisect_right-newline_starts :
    (text : List ℕ) (i o : ℕ)
    → bisect_right (newline_starts i text) (i + o) ≡ count_of is_newline (take o text)
bisect_right-newline_starts [] i zero = refl
bisect_right-newline_starts [] i (suc o) = refl
bisect_right-newline_starts (c ∷ text) i zero = bisect_right-zero (c ∷ text) i (i + 0) (omega arith)
bisect_right-newline_starts (c ∷ text) i (suc o) =
    let e : i + suc o ≡ i + 1 + o = omega arith in
    rw e (elim (Bool-cases (is_newline c)) [
      | inl new ↦ rw new (ground (arith, bisect_right-newline_starts text (i + 1) o))
      | inr old ↦ rw old (ground (arith, bisect_right-newline_starts text (i + 1) o))
    ])

-- The number that the binary search gives for an offset is one more than the number of newlines
-- before it.
pub line_number-count_of :
    (text : List ℕ) (offset : ℕ)
    → line_number (line_starts text) offset ≡ 1 + count_of is_newline (take offset text)
line_number-count_of text offset = ground (arith, bisect_right-newline_starts text 0 offset)
