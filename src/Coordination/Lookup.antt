-- ===== src/Coordination/Lookup.antt =====
-- What the indexes of materialized_coordinator.py find.
use dsp.Prelude.{
  String, ◌≡◌, refl, ap, sym, ◌∙◌, Option, none, some, List, [], ◌∷◌, true, false, ◌==◌, eq_iff,
  eq_refl, all, elem, map, ok, >>=-eq-ok, All, inl, inr, subst, Bool-cases, arith, if◌then◌else◌,
}
use dsp.Contracts.{unique}
use dsp.Scope.Listing.{Among}
use dsp.Scope.Allocation.{or_else}
use dsp.Coordination.Indexes.{Check, index_by, found, covers, check_each}

pub cons_eq :
    {A : Type 0} {x y : A} {xs ys : List A} → x ≡ y → xs ≡ ys → ◌≡◌ {A = List A} (x ∷ xs) (y ∷ ys)
cons_eq e es = cc

pub map-map :
    {A B C : Type 0} (f : A → B) (g : B → C) (xs : List A)
    → map g (map f xs) ≡ map (λ x. g (f x)) xs
map-map f g [] = refl
map-map f g (x ∷ xs) = cons_eq refl (map-map f g xs)

pub All-Among :
    {A : Type 0} (xs : List A) (ys : List A)
    → ((x : A) → Among x xs → Among x ys)
    → All (λ x. Among x ys) xs
All-Among [] ys h = tt
All-Among (x ∷ xs) ys h = (h x (inl refl), All-Among xs ys (λ z m. h z (inr m)))

some-injective : {A : Type 0} {a b : A} → some a ≡ some b → a ≡ b
some-injective e = cc

module _ {A : Type 0} where
  module _ (key : A → String) where
    pub index_by-Among :
        (xs : List A) (k : String) {x : A} → index_by key xs k ≡ some x → Among x xs × (key x ≡ k)
    unfolding index_by
    index_by-Among [] k e = cc
    index_by-Among (y ∷ ys) k {x} e = later (index_by key ys k) refl e (λ h. index_by-Among ys k h)
      where
        same : key y == k ≡ true → key y ≡ k
        same t = ground (arith, eq_iff (key y) k)

        later :
            (o : Option A)
            → index_by key ys k ≡ o
            → or_else o (if key y == k then some y else none) ≡ some x
            → (index_by key ys k ≡ some x → Among x ys × (key x ≡ k))
            → Among x (y ∷ ys) × (key x ≡ k)
        later (some z) known e recursive = let (m, named) = recursive (known ∙ e) in (inr m, named)
        later none known e _ = elim (Bool-cases (key y == k)) [
          | inl t ↦
              let here = some-injective (rw t at e) in (inl (sym here), ap key (sym here) ∙ same t)
          | inr t ↦ let no_way = rw t at e in cc
        ]

    index_by-absent :
        (xs : List A) (k : String) → elem k (map key xs) ≡ false → index_by key xs k ≡ none
    unfolding index_by
    index_by-absent [] k e = refl
    index_by-absent (y ∷ ys) k e =
        ground (arith, index_by-absent ys k, eq_iff k (key y), eq_iff (key y) k)

    pub index_by-unique :
        (xs : List A) (x : A)
        → unique (map key xs) ≡ true
        → Among x xs
        → index_by key xs (key x) ≡ some x
    unfolding index_by unique
    index_by-unique [] x distinct m = absurd m
    index_by-unique (y ∷ ys) x distinct (inl e) =
        subst (λ z. index_by key (y ∷ ys) (key z) ≡ some z) (sym e)
          (rw (index_by-absent ys (key y) (ground arith)) (rw (eq_refl (key y)) refl))
    index_by-unique (y ∷ ys) x distinct (inr m) = rw (index_by-unique ys x (ground arith) m) refl

  pub check_each-Among :
      (check : A → Check) (xs : List A) (x : A)
      → check_each check xs ≡ ok tt
      → Among x xs
      → check x ≡ ok tt
  unfolding check_each
  check_each-Among check [] x run m = absurd m
  check_each-Among check (y ∷ ys) x run (inl e) =
      let (tt, first, rest) = >>=-eq-ok (check y) _ run in ap check e ∙ first
  check_each-Among check (y ∷ ys) x run (inr m) =
      let (tt, first, rest) = >>=-eq-ok (check y) _ run in check_each-Among check ys x rest m

  pub found-eq-ok : (o : Option A) {x : A} → found o ≡ ok x → o ≡ some x
  found-eq-ok none e = cc
  found-eq-ok (some y) e = cc

pub covers-unique : (xs ys : List String) → covers xs ys ≡ true → unique xs ≡ true
unfolding covers
covers-unique xs ys h = ground arith

elem-all :
    (k : String) (xs ys : List String)
    → all (λ x. elem x ys) xs ≡ true
    → elem k xs ≡ true
    → elem k ys ≡ true
elem-all k [] ys h m = cc
elem-all k (x ∷ xs) ys h m = elim (Bool-cases (k == x)) [
  | inl t ↦
      let same : k ≡ x = ground (arith, eq_iff k x) in
      subst (λ z. elem z ys ≡ true) (sym same) (ground arith)
  | inr t ↦ elem-all k xs ys (ground arith) (ground arith)
]

-- what is supplied covers the same ids as anything else that covers what is expected
pub covers-elem :
    (k : String) (xs ys expected : List String)
    → covers xs expected ≡ true
    → covers ys expected ≡ true
    → elem k xs ≡ true
    → elem k ys ≡ true
unfolding covers
covers-elem k xs ys expected hx hy m =
    elem-all k expected ys (ground arith) (elem-all k xs expected (ground arith) m)

pub Among-elem :
    {A : Type 0} (key : A → String) (xs : List A) (x : A)
    → Among x xs
    → elem (key x) (map key xs) ≡ true
Among-elem key [] x m = absurd m
Among-elem key (y ∷ ys) x (inl e) =
    subst (λ z. elem (key x) (map key (z ∷ ys)) ≡ true) e (rw (eq_refl (key x)) refl)
Among-elem key (y ∷ ys) x (inr m) = ground (arith, Among-elem key ys x m)

pub index_by-present :
    {A : Type 0} (key : A → String) (xs : List A) (k : String)
    → elem k (map key xs) ≡ true
    → (x : A) × (index_by key xs k ≡ some x)
unfolding index_by
index_by-present key [] k m = cc
index_by-present {A = A} key (y ∷ ys) k m = elim (Bool-cases (elem k (map key ys))) [
  | inl t ↦ let (x, h) = index_by-present key ys k t in (x, rw h refl)
  | inr t ↦ one_of (index_by key ys k) (ground (arith, eq_iff k (key y), eq_iff (key y) k))
]
  where
    one_of :
        (o : Option A)
        → key y == k ≡ true
        → (x : A) × (or_else o (if key y == k then some y else none) ≡ some x)
    one_of (some z) h = (z, refl)
    one_of none h = (y, rw h refl)
