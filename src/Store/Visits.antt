-- ===== src/Store/Visits.antt =====
-- The keys that a walk along the rows of eventide/store.py has not visited yet.
use eventide.Prelude.{
  ℕ, suc, ◌≤◌, ◌<◌, String, ◌≡◌, refl, List, [], ◌∷◌, some, false, Dict, lookup, keys, length,
  string_eq, arith, if◌then◌else◌,
}
use eventide.Store.State.{contains}

-- The keys that have not been visited.
abbrev pub unvisited : List String → List String → ℕ
unvisited visited [] = 0
unvisited visited (k ∷ ks) =
    let rest = unvisited visited ks in if contains k visited then rest else suc rest

unvisited-le :
    (v : String) (visited ks : List String) → unvisited (v ∷ visited) ks ≤ unvisited visited ks
unvisited-le v visited [] = omega arith
unvisited-le v visited (k ∷ ks) = ground (arith, unvisited-le v visited ks)

-- A key that is visited for the first time is one fewer to visit.
pub unvisited-lt :
    (v : String) (visited : List String) {V : Type 0} (parents : Dict String V) (p : V)
    → lookup v parents ≡ some p
    → contains v visited ≡ false
    → unvisited (v ∷ visited) (keys parents) < unvisited visited (keys parents)
unvisited-lt v visited [] p h n = cc
unvisited-lt v visited ((k, q) ∷ parents) p h n =
    ground (arith, unvisited-lt v visited parents p, unvisited-le v visited (keys parents))

pub unvisited-nil : (ks : List String) → unvisited [] ks ≡ length ks
unvisited-nil [] = refl
unvisited-nil (k ∷ ks) = omega (arith, unvisited-nil ks)

pub length-keys : {V : Type 0} (d : Dict String V) → length (keys d) ≡ length d
length-keys [] = refl
length-keys ((k, v) ∷ d) = omega (arith, length-keys d)
