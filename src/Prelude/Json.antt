-- ===== src/Prelude/Json.antt =====
-- The JSON values that the program hashes.
use Prim.Native.Nat.{ℕ}
use Prim.Native.String.{String}
use mathlib.Core.List.{List, [], ◌∷◌}
use mathlib.Core.Option.{Option, none, some}

mutual
  pub data Json : Type 0 where
    null : Json
    str : String → Json
    num : ℕ → Json
    arr : Items → Json
    obj : Fields → Json

  pub data Items : Type 0 where
    nil : Items
    cons : Json → Items → Items

  pub data Fields : Type 0 where
    end : Fields
    field : String → Json → Fields → Fields

abbrev pub items {ℓ} : {A : Type ℓ} → (A → Json) → List A → Items
items f [] = nil
items f (x ∷ xs) = cons (f x) (items f xs)

-- `[f(x) for x in xs]`
abbrev pub array {ℓ} : {A : Type ℓ} → (A → Json) → List A → Json
array f xs = arr (items f xs)

abbrev pub optional : Option String → Json
optional none = null
optional (some s) = str s
