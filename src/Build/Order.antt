-- ===== src/Build/Order.antt =====
-- saga.py: `_topological_order`, Kahn's algorithm over a heap of the Slices that are eligible.
use dsp.Prelude.{
  ℕ, zero, suc, ◌-◌, String, Option, none, some, List, [], ◌∷◌, ◌++◌, ◌&&◌, not, elem, length,
  Result, ok, err, ◌>>=◌, ◌>>◌, guard, if◌then◌else◌,
}
use dsp.Prelude.Tests.{is_none, nat_eq}
use dsp.Prelude.Dict.{Dict, empty, update}
use dsp.Prelude.Sort.{sort_by, insert_by, str_le}
use dsp.Contracts.{Error, saga_integrity_invalid, distinct}
use dsp.Saga.Definition.{SliceDependency}
use dsp.Scope.Compare.{keep}

-- the two dictionaries that the loop over the dependencies fills; a set is a list
pub record Graph : Type 0 where
  pub indegree : Dict ℕ
  pub successors : Dict (List String)

-- `{slice_hash: 0 for slice_hash in slice_hashes}`, and the same with empty sets
unfoldable pub unlinked : List String → Graph
unlinked [] = record { indegree = empty; successors = empty }
unlinked (h ∷ hs) =
    let g = unlinked hs in
    record { indegree = update g.indegree h 0; successors = update g.successors h [] }

abbrev or_zero : Option ℕ → ℕ
or_zero none = 0
or_zero (some n) = n

abbrev or_none : Option (List String) → List String
or_none none = []
or_none (some l) = l

-- `indegree[slice_hash]` and `successors[slice_hash]`, for keys that are there
unfoldable pub degree : Dict ℕ → String → ℕ
degree d h = or_zero (d h)

unfoldable pub successors_of : Dict (List String) → String → List String
successors_of d h = or_none (d h)

-- an edge that is not there yet
unfoldable pub linked : Graph → String → String → Graph
unfolding degree successors_of
linked g predecessor successor = record {
  successors = update g.successors predecessor (successor ∷ successors_of g.successors predecessor);
  indegree = update g.indegree successor (suc (degree g.indegree successor));
}

unfoldable pub add_dependency : Graph → SliceDependency → Result Error Graph
unfolding linked successors_of
add_dependency g d = do
  guard
      (not (is_none (g.indegree d.predecessor_slice_hash))
        && not (is_none (g.indegree d.successor_slice_hash)))
      saga_integrity_invalid
  ok (
      if elem d.successor_slice_hash (successors_of g.successors d.predecessor_slice_hash)
      then g
      else linked g d.predecessor_slice_hash d.successor_slice_hash)

unfoldable pub add_dependencies : Graph → List SliceDependency → Result Error Graph
unfolding add_dependency
add_dependencies g [] = ok g
add_dependencies g (d ∷ ds) = do next ← add_dependency g d; add_dependencies next ds

-- what the inner loop changes; the heap is its sorted content
pub record Frontier : Type 0 where
  pub degrees : Dict ℕ
  pub eligible : List String

-- One round of the inner loop: the degree goes down, and if it is 0 then, so was 1, the Slice is
-- eligible. A degree of 0 stands for itself and all below: none of them becomes 0.
unfoldable pub lowered : Frontier → String → Frontier
unfolding degree insert_by
lowered s h = record {
  degrees = update s.degrees h (degree s.degrees h - 1);
  eligible = if nat_eq (degree s.degrees h) 1 then insert_by str_le h s.eligible else s.eligible;
}

unfoldable pub relax : List String → Frontier → Frontier
unfolding lowered
relax [] s = s
relax (h ∷ hs) s = relax hs (lowered s h)

-- `while eligible`, on fuel; `none` means that the fuel ran out
unfoldable pub drain :
    ℕ → Dict (List String) → Dict ℕ → List String → List String → Option (List String)
unfolding relax successors_of sort_by
drain fuel successors degrees [] ordered = some ordered
drain zero successors degrees (current ∷ eligible) ordered = none
drain (suc fuel) successors degrees (current ∷ eligible) ordered =
    let s =
      relax (sort_by str_le (successors_of successors current))
        (record { degrees = degrees; eligible = eligible }) in
    drain fuel successors s.degrees s.eligible (ordered ++ (current ∷ []))

unfoldable pub eligible_at_first : Graph → List String → List String
unfolding keep degree sort_by distinct
eligible_at_first g hashes =
    sort_by str_le (keep (λ h. nat_eq (degree g.indegree h) 0) (distinct hashes))

-- one round for each Slice is enough
unfoldable pub drained : Graph → List String → Option (List String)
unfolding drain eligible_at_first
drained g hashes = drain (length hashes) g.successors g.indegree (eligible_at_first g hashes) []

-- `len(ordered) != len(slice_hashes)`; `none` does not arise
abbrev pub complete_order : ℕ → Option (List String) → Result Error (List String)
complete_order n none = err saga_integrity_invalid
complete_order n (some ordered) = do
  guard (nat_eq (length ordered) n) saga_integrity_invalid
  ok ordered

-- _topological_order
unfoldable pub topological_order : List String → List SliceDependency → Result Error (List String)
unfolding unlinked add_dependencies drained
topological_order hashes dependencies = do
  g ← add_dependencies (unlinked hashes) dependencies
  complete_order (length hashes) (drained g hashes)
