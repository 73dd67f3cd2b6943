-- ===== src/Saga/Distinct.antt =====
-- The Slices of a Saga have distinct names, so a name splits its states in one place only.
use dsp.Prelude.{
  String, ◌≡◌, refl, ap, List, [], ◌∷◌, ◌++◌, map, Bool, true, false, arith, any, elem, elem-append,
  tally, eq_iff, any-append,
}
use dsp.Contracts.{unique}
use dsp.Saga.State.{SliceState}
use dsp.Saga.Transitions.Checks.{is_active, other_active}

abbrev pub name : SliceState → String
name s = s.execution_slice_hash

abbrev pub is_busy : SliceState → Bool
is_busy s = is_active s.status

pub unique-middle :
    (xs : List String) (x : String) (ys : List String)
    → unique (xs ++ (x ∷ ys)) ≡ true
    → (elem x xs ≡ false) × (elem x ys ≡ false)
unfolding unique
unique-middle [] x ys h = ground arith
unique-middle (z ∷ xs) x ys h =
    ground (arith, unique-middle xs x ys, elem-append z xs (x ∷ ys), eq_iff x z, eq_iff z x)

idle_of_alone :
    (h : String) (ss : List SliceState)
    → any (other_active h) ss ≡ false
    → elem h (map name ss) ≡ false
    → tally is_busy ss ≡ 0
idle_of_alone h [] p q = refl
idle_of_alone h (s ∷ ss) p q =
    ground (arith, idle_of_alone h ss, eq_iff h (name s), eq_iff (name s) h)

pub map-name-append : (xs ys : List SliceState) → map name (xs ++ ys) ≡ map name xs ++ map name ys
map-name-append [] ys = refl
map-name-append (x ∷ xs) ys = ap (λ l. name x ∷ l) (map-name-append xs ys)

-- no other Slice is active, in a Saga with distinct names
pub idle_siblings :
    (pre : List SliceState) (s : SliceState) (post : List SliceState)
    → unique (map name (pre ++ (s ∷ post))) ≡ true
    → any (other_active (name s)) (pre ++ (s ∷ post)) ≡ false
    → (tally is_busy pre ≡ 0) × (tally is_busy post ≡ 0)
idle_siblings pre s post u a =
    let (l, r) = unique-middle (map name pre) (name s) (map name post) (rw map-name-append at u) in
    ground (
      arith,
      any-append (other_active (name s)) pre (s ∷ post),
      idle_of_alone (name s) pre,
      idle_of_alone (name s) post,
    )
