-- ===== src/Build/Graph.antt =====
-- The dictionaries that `_topological_order` (saga.py) fills from the dependencies.
pub mod Growth
use dsp.Prelude.{
  ℕ, suc, ◌+◌, ◌≤◌, ◌≡◌, refl, ap, sym, ◌∙◌, subst, String, Option, none, some, List, [], ◌∷◌, Bool,
  true, false, ◌&&◌, ◌||◌, ◌==◌, not, ◌⊎◌, inl, inr, arith, elem, tally, tally_no, Result, ok, err,
  >>=-eq-ok, >>=-returns, guard_then, ok-injective, if◌then◌else◌, eq_iff, eq_refl,
}
use dsp.Prelude.Tests.{Bool-cases, is_none}
use dsp.Prelude.Dict.{Dict, update}
use dsp.Contracts.{Error, distinct}
use dsp.Saga.Definition.{SliceDependency}
use dsp.Scope.Listing.{Among}
use dsp.Build.Order.{
  Graph, unlinked, degree, successors_of, linked, add_dependency, add_dependencies,
}
use dsp.Build.Counting.{
  count, one_if, IsSingle, count-cons, count-absent, distinct-count, tally_one, tally_agree,
}
use dsp.Build.Relax.{degree-update}

-- an edge of the graph
abbrev pub edge : Graph → String → String → Bool
edge g p n = elem n (successors_of g.successors p)

-- the degree of a Slice counts the Slices that it depends on
pub record IsGraph (hashes : List String) (g : Graph) : Type 0 where
  pub keys : (h : String) → is_none (g.indegree h) ≡ not (elem h hashes)
  pub degrees : (n : String) → degree g.indegree n ≡ tally (λ p. edge g p n) (distinct hashes)
  pub single : (p : String) → IsSingle (successors_of g.successors p)
  pub inside : (p n : String) → edge g p n ≡ true → (elem p hashes ≡ true) × (elem n hashes ≡ true)

successors_of-update :
    (d : Dict (List String)) (p q : String) (l : List String)
    → ((p ≡ q) × (successors_of (update d p l) q ≡ l))
      ⊎ ((p == q ≡ false) × (successors_of (update d p l) q ≡ successors_of d q))
unfolding successors_of
successors_of-update d p q l = elim (Bool-cases (p == q)) [
  | inl t ↦ inl ((eq_iff p q).0 t, rw t refl)
  | inr t ↦ inr (t, rw t refl)
]

-- before the loop there are no edges
pub unlinked-edge : (hashes : List String) (p n : String) → edge (unlinked hashes) p n ≡ false
unfolding unlinked successors_of
unlinked-edge [] p n = refl
unlinked-edge (h ∷ hs) p n = elim (successors_of-update (unlinked hs).successors h p []) [
  | inl (_, e) ↦ ap (elem n) e
  | inr (_, e) ↦ ap (elem n) e ∙ unlinked-edge hs p n
]

unlinked-degree : (hashes : List String) (n : String) → degree (unlinked hashes).indegree n ≡ 0
unfolding unlinked degree
unlinked-degree [] n = refl
unlinked-degree (h ∷ hs) n = elim (degree-update (unlinked hs).indegree h n 0) [
  | inl (_, e) ↦ e
  | inr (_, e) ↦ e ∙ unlinked-degree hs n
]

unlinked-keys :
    (hashes : List String) (h : String)
    → is_none ((unlinked hashes).indegree h) ≡ not (elem h hashes)
unfolding unlinked
unlinked-keys [] h = refl
unlinked-keys (k ∷ ks) h = elim (Bool-cases (k == h)) [
  | inl t ↦ let u : h == k ≡ true = (eq_iff h k).1 (sym ((eq_iff k h).0 t)) in rw t (rw u refl)
  | inr t ↦ elim (Bool-cases (h == k)) [
    | inl u ↦ let t' : k == h ≡ true = (eq_iff k h).1 (sym ((eq_iff h k).0 u)) in cc
    | inr u ↦ rw t (rw u (unlinked-keys ks h))
  ]
]

tally_zero : (p : String → Bool) (xs : List String) → ((x : String) → p x ≡ false) → tally p xs ≡ 0
tally_zero p [] h = refl
tally_zero p (x ∷ xs) h = tally_no p x xs (h x) ∙ tally_zero p xs h

pub unlinked-IsGraph : (hashes : List String) → IsGraph hashes (unlinked hashes)
unlinked-IsGraph hashes = record {
  keys = unlinked-keys hashes;
  degrees = λ n.
      unlinked-degree hashes n
      ∙ sym (
          tally_zero (λ p. edge (unlinked hashes) p n) (distinct hashes)
            (λ p. unlinked-edge hashes p n));
  single = λ p v.
      let e =
        count-absent v (successors_of (unlinked hashes).successors p) (unlinked-edge hashes p v) in
      omega (arith, e);
  inside = λ p n h. let e = unlinked-edge hashes p n in cc;
}

module _ (hashes : List String) (g : Graph) (graph : IsGraph hashes g) (p n : String)
    (p_in : elem p hashes ≡ true) (n_in : elem n hashes ≡ true) (fresh : edge g p n ≡ false) where
  -- the edges after one more
  pub linked-edge :
      (q m : String)
      → ((p ≡ q) × (edge (linked g p n) q m ≡ (m == n || edge g q m)))
        ⊎ ((p == q ≡ false) × (edge (linked g p n) q m ≡ edge g q m))
  unfolding linked
  linked-edge q m =
      elim (successors_of-update g.successors p q (n ∷ successors_of g.successors p)) [
        | inl (e, h) ↦
            inl (e, ap (elem m) h ∙ ap (λ x. m == n || elem m (successors_of g.successors x)) e)
        | inr (t, h) ↦ inr (t, ap (elem m) h)
      ]

  linked-keys : (h : String) → is_none ((linked g p n).indegree h) ≡ not (elem h hashes)
  unfolding linked
  linked-keys h = elim (Bool-cases (n == h)) [
    | inl t ↦
        let h_in : elem h hashes ≡ true = ap (λ x. elem x hashes) (sym ((eq_iff n h).0 t)) ∙ n_in in
        rw t (rw h_in refl)
    | inr t ↦ rw t (graph.keys h)
  ]

  linked-degree :
      (m : String)
      → degree (linked g p n).indegree m ≡ tally (λ q. edge (linked g p n) q m) (distinct hashes)
  unfolding linked
  linked-degree m = elim (degree-update g.indegree n m (suc (degree g.indegree n))) [
    | inl (e, v) ↦
        v
        ∙ ap suc (ap (degree g.indegree) e ∙ graph.degrees m)
        ∙ sym (
            tally_one (λ q. edge g q m) (λ q. edge (linked g p n) q m) p (distinct hashes)
              (distinct-count p hashes ∙ ap one_if p_in) (ap (edge g p) (sym e) ∙ fresh) (added m e)
              (kept m))
    | inr (t, v) ↦
        v
        ∙ graph.degrees m
        ∙ tally_agree (λ q. edge g q m) (λ q. edge (linked g p n) q m) (distinct hashes)
            (λ q. other m t q (linked-edge q m))
  ]
    where
      added : (m : String) → n ≡ m → edge (linked g p n) p m ≡ true
      added m e = elim (linked-edge p m) [
        | inl (_, e') ↦ let t : m == n ≡ true = (eq_iff m n).1 (sym e) in e' ∙ rw t refl
        | inr (t, _) ↦ let r = eq_refl p in cc
      ]

      kept : (m q : String) → p == q ≡ false → edge g q m ≡ edge (linked g p n) q m
      kept m q t = elim (linked-edge q m) [
        | inl (e, _) ↦ let r : p == q ≡ true = (eq_iff p q).1 e in cc
        | inr (_, e') ↦ sym e'
      ]

      other :
          (m : String)
          → m == n ≡ false
          → (q : String)
          → ((p ≡ q) × (edge (linked g p n) q m ≡ (m == n || edge g q m)))
            ⊎ ((p == q ≡ false) × (edge (linked g p n) q m ≡ edge g q m))
          → edge g q m ≡ edge (linked g p n) q m
      other m t q (inl (_, e')) = sym (rw t at e')
      other m t q (inr (_, e')) = sym e'

  linked-IsSingle : (q : String) → IsSingle (successors_of (linked g p n).successors q)
  unfolding linked
  linked-IsSingle q v =
      elim (successors_of-update g.successors p q (n ∷ successors_of g.successors p)) [
        | inl (_, e) ↦ let e' = ap (count v) e in omega (arith, e', one_more (Bool-cases (v == n)))
        | inr (_, e) ↦ let e' = ap (count v) e in omega (arith, e', graph.single q v)
      ]
    where
      one_more :
          ((v == n ≡ true) ⊎ (v == n ≡ false)) → count v (n ∷ successors_of g.successors p) ≤ 1
      one_more (inl t) =
          let absent =
            count-absent v (successors_of g.successors p)
              (ap (edge g p) ((eq_iff v n).0 t) ∙ fresh) in
          omega (arith, count-cons v n (successors_of g.successors p), ap one_if t, absent)
      one_more (inr t) =
          omega
            (arith, count-cons v n (successors_of g.successors p), ap one_if t, graph.single p v)

  linked-inside :
      (q m : String)
      → edge (linked g p n) q m ≡ true
      → (elem q hashes ≡ true) × (elem m hashes ≡ true)
  linked-inside q m h = elim (linked-edge q m) [
    | inl (e, e') ↦ elim (Bool-cases (m == n)) [
      | inl t ↦ (
        ap (λ x. elem x hashes) (sym e) ∙ p_in,
        ap (λ x. elem x hashes) ((eq_iff m n).0 t) ∙ n_in,
      )
      | inr t ↦ graph.inside q m (sym (rw t at e') ∙ h)
    ]
    | inr (_, e') ↦ graph.inside q m (sym e' ∙ h)
  ]

  pub linked-IsGraph : IsGraph hashes (linked g p n)
  linked-IsGraph = record {
    keys = linked-keys;
    degrees = linked-degree;
    single = linked-IsSingle;
    inside = linked-inside;
  }
