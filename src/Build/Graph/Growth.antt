-- ===== src/Build/Graph/Growth.antt =====
-- The loop over the dependencies of `_topological_order` (saga.py): each step adds the edge of its
-- dependency and no other.
use dsp.Prelude.{
  ◌≡◌, refl, ap, sym, ◌∙◌, subst, String, List, [], ◌∷◌, Bool, true, false, ◌&&◌, ◌||◌, ◌==◌, not,
  ◌⊎◌, inl, inr, arith, elem, ok, >>=-eq-ok, >>=-returns, guard_then, ok-injective, if◌then◌else◌,
  eq_iff, eq_refl,
}
use dsp.Prelude.Tests.{Bool-cases, is_none}
use dsp.Saga.Definition.{SliceDependency}
use dsp.Scope.Listing.{Among}
use dsp.Build.Order.{Graph, unlinked, linked, add_dependency, add_dependencies}
use dsp.Build.Graph.{IsGraph, edge, unlinked-edge, unlinked-IsGraph, linked-edge, linked-IsGraph}

-- what a step adds to the edges
record Grows (g out : Graph) (p n : String) : Type 0 where
  has : edge out p n ≡ true
  keeps : (q m : String) → edge g q m ≡ true → edge out q m ≡ true
  only : (q m : String) → edge out q m ≡ true → (edge g q m ≡ true) ⊎ ((p ≡ q) × (m ≡ n))

linked-Grows :
    (hashes : List String) (g : Graph) (graph : IsGraph hashes g) (p n : String)
    → (p_in : elem p hashes ≡ true) → (n_in : elem n hashes ≡ true) → (fresh : edge g p n ≡ false)
    → Grows g (linked g p n) p n
linked-Grows hashes g graph p n p_in n_in fresh = record {
  has = has p n (eq_refl p) (eq_refl n) (at p n);
  keeps = λ q m h. keeps q m h (at q m);
  only = λ q m h. only q m h (at q m);
}
  where
    Edge : String → String → Type 0
    Edge q m =
        ((p ≡ q) × (edge (linked g p n) q m ≡ (m == n || edge g q m)))
        ⊎ ((p == q ≡ false) × (edge (linked g p n) q m ≡ edge g q m))

    at : (q m : String) → Edge q m
    at q m = linked-edge hashes g graph p n p_in n_in fresh q m

    has : (q m : String) → p == q ≡ true → m == n ≡ true → Edge q m → edge (linked g p n) q m ≡ true
    has q m s t (inl (_, e)) = rw t at e
    has q m s t (inr (u, _)) = cc

    keeps : (q m : String) → edge g q m ≡ true → Edge q m → edge (linked g p n) q m ≡ true
    keeps q m h (inl (_, e)) = ground (arith, e, h)
    keeps q m h (inr (_, e)) = e ∙ h

    only :
        (q m : String)
        → edge (linked g p n) q m ≡ true
        → Edge q m
        → (edge g q m ≡ true) ⊎ ((p ≡ q) × (m ≡ n))
    only q m h (inl (e, e')) = elim (Bool-cases (m == n)) [
      | inl t ↦ inr (e, (eq_iff m n).0 t)
      | inr t ↦ inl (sym (rw t at e') ∙ h)
    ]
    only q m h (inr (_, e)) = inl (sym e ∙ h)

both_known :
    (a b x y : Bool) → (not a && not b) ≡ true → a ≡ not x → b ≡ not y → (x ≡ true) × (y ≡ true)
both_known a b true true h e f = (refl, refl)
both_known a b true false h e f = ground (arith, e, f, h)
both_known a b false y h e f = ground (arith, e, f, h)

-- one dependency
add_dependency-IsGraph :
    (hashes : List String) (g out : Graph) (d : SliceDependency)
    → add_dependency g d ≡ ok out
    → IsGraph hashes g
    → IsGraph hashes out × Grows g out d.predecessor_slice_hash d.successor_slice_hash
unfolding add_dependency
add_dependency-IsGraph hashes g out d run graph =
    let p = d.predecessor_slice_hash in
    let n = d.successor_slice_hash in
    let (named, done) =
      guard_then (not (is_none (g.indegree p)) && not (is_none (g.indegree n))) _ _ run in
    let (p_in, n_in) =
      both_known (is_none (g.indegree p)) (is_none (g.indegree n)) (elem p hashes) (elem n hashes)
        named (graph.keys p) (graph.keys n) in
    elim (Bool-cases (edge g p n)) [
      | inl there ↦ subst After (ok-injective g out (rw there at done)) (graph, unchanged there)
      | inr fresh ↦ subst After (ok-injective (linked g p n) out (rw fresh at done)) (
        linked-IsGraph hashes g graph p n p_in n_in fresh,
        linked-Grows hashes g graph p n p_in n_in fresh,
      )
    ]
  where
    After : Graph → Type 0
    After x = IsGraph hashes x × Grows g x d.predecessor_slice_hash d.successor_slice_hash

    unchanged :
        edge g d.predecessor_slice_hash d.successor_slice_hash ≡ true
        → Grows g g d.predecessor_slice_hash d.successor_slice_hash
    unchanged there = record { has = there; keeps = λ q m h. h; only = λ q m h. inl h }

-- the graph has the dependencies, and no edge but them
abbrev pub Covers : Graph → List SliceDependency → Type 0
Covers g ds =
    (d : SliceDependency)
    → Among d ds
    → edge g d.predecessor_slice_hash d.successor_slice_hash ≡ true

abbrev pub From : Graph → List SliceDependency → String → String → Type 0
From g ds q m =
    (edge g q m ≡ true)
    ⊎ ((d : SliceDependency) × Among d ds
        × (d.predecessor_slice_hash ≡ q)
        × (m ≡ d.successor_slice_hash))

record Grown (g out : Graph) (ds : List SliceDependency) : Type 0 where
  covers : Covers out ds
  keeps : (q m : String) → edge g q m ≡ true → edge out q m ≡ true
  only : (q m : String) → edge out q m ≡ true → From g ds q m

add_dependencies-Grown :
    (hashes : List String) (g out : Graph) (ds : List SliceDependency)
    → add_dependencies g ds ≡ ok out
    → IsGraph hashes g
    → IsGraph hashes out × Grown g out ds
unfolding add_dependencies
add_dependencies-Grown hashes g out [] run graph =
    subst (λ x. IsGraph hashes x × Grown g x []) (ok-injective g out run)
      (graph, record { covers = λ d m. absurd m; keeps = λ q m h. h; only = λ q m h. inl h })
add_dependencies-Grown hashes g out (d ∷ ds) run graph =
    let (next, one, later) = >>=-eq-ok (add_dependency g d) _ run in
    let (graph', grows) = add_dependency-IsGraph hashes g next d one graph in
    let (graph'', grown) = add_dependencies-Grown hashes next out ds later graph' in
    (
      graph'',
      record {
        covers = covers next grows grown;
        keeps = λ q m h. grown.keeps q m (grows.keeps q m h);
        only = λ q m h. only next grows q m (grown.only q m h);
      },
    )
  where
    covers :
        (next : Graph)
        → Grows g next d.predecessor_slice_hash d.successor_slice_hash
        → Grown next out ds
        → Covers out (d ∷ ds)
    covers next grows grown e (inl same) =
        ap (λ (x : SliceDependency). edge out x.predecessor_slice_hash x.successor_slice_hash) same
        ∙ grown.keeps d.predecessor_slice_hash d.successor_slice_hash grows.has
    covers next grows grown e (inr m) = grown.covers e m

    only :
        (next : Graph)
        → Grows g next d.predecessor_slice_hash d.successor_slice_hash
        → (q m : String) → From next ds q m
        → From g (d ∷ ds) q m
    only next grows q m (inr (e, a, s, t)) = inr (e, inr a, s, t)
    only next grows q m (inl h) = elim (grows.only q m h) [
      | inl old ↦ inl old
      | inr (s, t) ↦ inr (d, inl refl, s, t)
    ]

-- What the loop over the dependencies returns has an edge for each dependency and no others, and
-- its degrees count them.
pub add_dependencies-IsGraph :
    (hashes : List String) (out : Graph) (ds : List SliceDependency)
    → add_dependencies (unlinked hashes) ds ≡ ok out
    → IsGraph hashes out
      × Covers out ds
      × ((q m : String)
          → edge out q m ≡ true
          → (d : SliceDependency) × Among d ds
            × (d.predecessor_slice_hash ≡ q)
            × (m ≡ d.successor_slice_hash))
add_dependencies-IsGraph hashes out ds run =
    let (graph, grown) =
      add_dependencies-Grown hashes (unlinked hashes) out ds run (unlinked-IsGraph hashes) in
    (graph, grown.covers, λ q m h. own q m (grown.only q m h))
  where
    own :
        (q m : String)
        → From (unlinked hashes) ds q m
        → (d : SliceDependency) × Among d ds
          × (d.predecessor_slice_hash ≡ q)
          × (m ≡ d.successor_slice_hash)
    own q m (inr found) = found
    own q m (inl h) = let none_yet = unlinked-edge hashes q m in cc

-- both ends of each dependency are Slices
abbrev pub AreInside : List String → List SliceDependency → Type 0
AreInside hashes ds =
    (d : SliceDependency)
    → Among d ds
    → (elem d.predecessor_slice_hash hashes ≡ true) × (elem d.successor_slice_hash hashes ≡ true)

add_dependency-returns :
    (hashes : List String) (g : Graph) (d : SliceDependency)
    → IsGraph hashes g
    → (elem d.predecessor_slice_hash hashes ≡ true) × (elem d.successor_slice_hash hashes ≡ true)
    → (out : Graph) × (add_dependency g d ≡ ok out)
unfolding add_dependency
add_dependency-returns hashes g d graph (a, b) =
    let a' : is_none (g.indegree d.predecessor_slice_hash) ≡ false =
      graph.keys d.predecessor_slice_hash ∙ ap not a in
    let b' : is_none (g.indegree d.successor_slice_hash) ≡ false =
      graph.keys d.successor_slice_hash ∙ ap not b in
    let out =
      if edge g d.predecessor_slice_hash d.successor_slice_hash
      then g
      else linked g d.predecessor_slice_hash d.successor_slice_hash in
    (out, rw a' (rw b' refl))

pub add_dependencies-returns :
    (hashes : List String) (g : Graph) (ds : List SliceDependency)
    → IsGraph hashes g
    → AreInside hashes ds
    → (out : Graph) × (add_dependencies g ds ≡ ok out)
unfolding add_dependencies
add_dependencies-returns hashes g [] graph h = (g, refl)
add_dependencies-returns hashes g (d ∷ ds) graph h =
    let (next, one) = add_dependency-returns hashes g d graph (h d (inl refl)) in
    let (graph', _) = add_dependency-IsGraph hashes g next d one graph in
    let later = add_dependencies-returns hashes next ds graph' (λ e m. h e (inr m)) in
    >>=-returns (add_dependency g d) _ one later
