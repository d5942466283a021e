-- ===== src/Store/Sets.antt =====
-- Sets of texts as Python has them, beside `contains`, and `sorted` on texts, for eventide/host.py and
-- eventide/budget_prices.py.
use eventide.Prelude.{
  ℕ, ◌≡◌, refl, String, List, [], ◌∷◌, Bool, true, false, ◌||◌, ltb, ◌==◌, codes, nat_eq, string_eq,
  if◌then◌else◌, arith,
}
use eventide.Store.State.{contains}

-- `ids.add(identity)`
abbrev pub add_id : String → List String → List String
add_id identity ids = if contains identity ids then ids else identity ∷ ids

-- `<` on Python's texts
abbrev pub codes_before : List ℕ → List ℕ → Bool
codes_before [] [] = false
codes_before [] (d ∷ ds) = true
codes_before (c ∷ cs) [] = false
codes_before (c ∷ cs) (d ∷ ds) = let rest = codes_before cs ds in if c == d then rest else ltb c d

abbrev pub put_sorted : String → List String → List String
put_sorted s [] = s ∷ []
put_sorted s (t ∷ ts) = if codes_before (codes t) (codes s) then t ∷ put_sorted s ts else s ∷ t ∷ ts

unfoldable pub sorted : List String → List String
sorted [] = []
sorted (s ∷ ss) = put_sorted s (sorted ss)

pub contains-add_id :
    (k i : String) (ids : List String) → contains k (add_id i ids) ≡ (k == i || contains k ids)
contains-add_id k i ids = ground arith

pub contains-put_sorted :
    (k s : String) (ts : List String) → contains k (put_sorted s ts) ≡ (k == s || contains k ts)
contains-put_sorted k s [] = refl
contains-put_sorted k s (t ∷ ts) = ground (arith, contains-put_sorted k s ts)

pub contains-sorted : (k : String) (ss : List String) → contains k (sorted ss) ≡ contains k ss
unfolding sorted
contains-sorted k [] = refl
contains-sorted k (s ∷ ss) =
    ground (arith, contains-put_sorted k s (sorted ss), contains-sorted k ss)
