-- ===== src/Json.antt =====
-- The length of what `json.dumps(value, ensure_ascii=False)` writes, as eventide/delivery_repair.py
-- and eventide/input_composition.py measure it.
use eventide.Prelude.{
  ℕ, zero, suc, ◌+◌, ◌≤◌, String, codes, List, [], ◌∷◌, ◌≡◌, refl, Bool, true, false, ◌||◌, ◌==◌,
  nat_eq, ltb, if◌then◌else◌, sum_of, take, drop, length, arith,
}

-- A character inside a string: an escape of two or of six characters, or itself.
abbrev pub escape_size : ℕ → ℕ
escape_size c =
    if c == b'"' || c == b'\\' || c == 8 || c == 9 || c == 10 || c == 12 || c == 13
    then 2
    else (if ltb c 32 then 6 else 1)

-- A string without its quotes.
unfoldable pub escaped_size : List ℕ → ℕ
escaped_size = sum_of escape_size

pub escaped_size-take :
    (text : List ℕ) (a b : ℕ) → a ≤ b → escaped_size (take a text) ≤ escaped_size (take b text)
unfolding escaped_size
escaped_size-take [] zero zero h = omega arith
escaped_size-take [] zero (suc b) h = omega arith
escaped_size-take [] (suc a) zero h = omega arith
escaped_size-take [] (suc a) (suc b) h = omega arith
escaped_size-take (c ∷ text) zero b h = omega arith
escaped_size-take (c ∷ text) (suc a) zero h = absurd (omega arith)
escaped_size-take (c ∷ text) (suc a) (suc b) h =
    omega (arith, escaped_size-take text a b (omega arith))

pub escaped_size-drop :
    (text : List ℕ) (a b : ℕ) → a ≤ b → escaped_size (drop b text) ≤ escaped_size (drop a text)
unfolding escaped_size
escaped_size-drop [] zero zero h = omega arith
escaped_size-drop [] zero (suc b) h = omega arith
escaped_size-drop [] (suc a) zero h = omega arith
escaped_size-drop [] (suc a) (suc b) h = omega arith
escaped_size-drop (c ∷ text) zero zero h = omega arith
escaped_size-drop (c ∷ text) zero (suc b) h =
    omega (arith, escaped_size-drop text zero b (omega arith))
escaped_size-drop (c ∷ text) (suc a) zero h = absurd (omega arith)
escaped_size-drop (c ∷ text) (suc a) (suc b) h = escaped_size-drop text a b (omega arith)

pub escaped_size-drop_all :
    (text : List ℕ) (n : ℕ) → length text ≤ n → escaped_size (drop n text) ≡ 0
unfolding escaped_size
escaped_size-drop_all [] zero h = refl
escaped_size-drop_all [] (suc n) h = refl
escaped_size-drop_all (c ∷ text) zero h = absurd (omega arith)
escaped_size-drop_all (c ∷ text) (suc n) h = escaped_size-drop_all text n (omega arith)

-- A number stands as its digits.
mutual
  pub data Json : Type 0 where
    null : Json
    boolean : Bool → Json
    number : String → Json
    text : String → Json
    array : Items → Json
    object : Fields → Json

  pub data Items : Type 0 where
    nil : Items
    cons : Json → Items → Items

  pub data Fields : Type 0 where
    end : Fields
    field : String → Json → Fields → Fields

abbrev items_comma : Items → ℕ
items_comma nil = 0
items_comma (cons x xs) = 2

abbrev fields_comma : Fields → ℕ
fields_comma end = 0
fields_comma (field k v fs) = 2

-- `len(json.dumps(value, ensure_ascii=False))`; a comma and a colon are followed by a space.
unfoldable mutual
  pub size : Json → ℕ
  size null = 4
  size (boolean true) = 4
  size (boolean false) = 5
  size (number digits) = length (codes digits)
  size (text s) = 2 + escaped_size (codes s)
  size (array xs) = 2 + size_items xs
  size (object fs) = 2 + size_fields fs

  pub size_items : Items → ℕ
  size_items nil = 0
  size_items (cons x xs) = size x + items_comma xs + size_items xs

  pub size_fields : Fields → ℕ
  size_fields end = 0
  size_fields (field k v fs) =
      2 + escaped_size (codes k) + 2 + size v + fields_comma fs + size_fields fs
