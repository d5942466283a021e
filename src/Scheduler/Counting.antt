-- ===== src/Scheduler/Counting.antt =====
-- Counting what passes a test in the lists and dicts of eventide/scheduler.py.
use eventide.Prelude.{
  suc, ◌+◌, ◌≤◌, ◌≡◌, refl, String, List, [], ◌∷◌, some, Bool, true, false, Dict, lookup, insert,
  remove, has, values, length, any, count_of, ◌==◌, string_eq, if◌then◌else◌, arith,
}

module _ {A : Type 0} (p : A → Bool) where
  pub count_of-insert :
      (k : String) (v : A) (d : Dict String A)
      → count_of p (values (insert k v d)) ≤ count_of p (values d) + (if p v then 1 else 0)
  count_of-insert k v [] = ground arith
  count_of-insert k v ((j, w) ∷ d) = ground (arith, count_of-insert k v d)

  pub count_of-remove :
      (k : String) (v : A) (d : Dict String A)
      → lookup k d ≡ some v
      → count_of p (values (remove k d)) + (if p v then 1 else 0) ≡ count_of p (values d)
  count_of-remove k v [] h = cc
  count_of-remove k v ((j, w) ∷ d) h = ground (arith, count_of-remove k v d)

  pub count_of-none : (xs : List A) → any p xs ≡ false → count_of p xs ≡ 0
  count_of-none [] h = refl
  count_of-none (x ∷ xs) h = ground (arith, count_of-none xs)

  pub count_of_mono :
      (q : A → Bool) (xs : List A)
      → ((x : A) → p x ≡ true → q x ≡ true)
      → count_of p xs ≤ count_of q xs
  count_of_mono q [] f = omega arith
  count_of_mono q (x ∷ xs) f = ground (arith, f x, count_of_mono q xs f)

  pub count_of-remove-le :
      (k : String) (d : Dict String A) → count_of p (values (remove k d)) ≤ count_of p (values d)
  count_of-remove-le k [] = omega arith
  count_of-remove-le k ((j, w) ∷ d) = ground (arith, count_of-remove-le k d)

pub length-insert-le :
    {A : Type 0} (k : String) (v : A) (d : Dict String A) → length (insert k v d) ≤ suc (length d)
length-insert-le k v [] = omega arith
length-insert-le k v ((j, w) ∷ d) = ground (arith, length-insert-le k v d)

-- What a key that was there leaves behind.
pub has-remove :
    {A : Type 0} (k j : String) (d : Dict String A)
    → has j d ≡ true
    → (j == k) ≡ false
    → has j (remove k d) ≡ true
has-remove k j [] h n = cc
has-remove k j ((i, w) ∷ d) h n = ground (arith, has-remove k j d)
