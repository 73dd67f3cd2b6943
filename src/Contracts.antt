-- ===== src/Contracts.antt =====
-- The checks that the `__post_init__` methods of the platform's contracts are made of, and the
-- errors that they and the domain operations raise (platform/execution_reconciliation, contracts.py
-- and saga_state_v2.py).
pub mod Normal
use dsp.Prelude.{
  String, ◌≡◌, Option, none, some, List, [], ◌∷◌, Result, ok, err, ◌>>=◌, ◌>>◌, guard, not, ◌==◌,
  elem, if◌then◌else◌, Bool, true, false, ◌&&◌,
}
use dsp.Prelude.Text.{strip, is_digest}
use dsp.Prelude.Sort.{sort_by, str_le}

-- A `ReconciliationError` by its stable code; `value_error` and `key_error` are Python's own.
pub data Error : Type 0 where
  value_error key_error index_error : Error
  saga_conflict saga_integrity_invalid saga_not_found : Error
  actual_delta_input_invalid actual_delta_integrity_invalid : Error
  dispatch_intent_conflict : Error
  scope_comparison_invalid reconciliation_lineage_mismatch reconciliation_input_invalid : Error

-- _text
unfoldable pub text : String → Result Error String
unfolding strip
text value =
    let normalized = strip value in if normalized == "" then err value_error else ok normalized

-- _optional_text
unfoldable pub optional_text : Option String → Result Error (Option String)
unfolding text
optional_text none = ok none
optional_text (some value) = do t ← text value; ok (some t)

-- _digest
unfoldable pub digest : String → Result Error String
unfolding text is_digest
digest value = do normalized ← text value; guard (is_digest normalized) value_error; ok normalized

-- _optional_digest
unfoldable pub optional_digest : Option String → Result Error (Option String)
unfolding digest
optional_digest none = ok none
optional_digest (some value) = do t ← digest value; ok (some t)

-- `len(set(values)) == len(values)`
unfoldable pub unique : List String → Bool
unique [] = true
unique (x ∷ xs) = not (elem x xs) && unique xs

unfoldable pub map_digest : List String → Result Error (List String)
unfolding digest
map_digest [] = ok []
map_digest (x ∷ xs) = do d ← digest x; ds ← map_digest xs; ok (d ∷ ds)

-- `not values`
abbrev pub is_empty {ℓ} : {A : Type ℓ} → List A → Bool
is_empty [] = true
is_empty (_ ∷ _) = false

-- _digests
unfoldable pub digests : List String → Result Error (List String)
unfolding map_digest unique
digests values = do
  normalized ← map_digest values
  guard (not (is_empty normalized)) value_error
  guard (unique normalized) value_error
  ok normalized

map_text : List String → Result Error (List String)
unfolding text
map_text [] = ok []
map_text (x ∷ xs) = do t ← text x; ts ← map_text xs; ok (t ∷ ts)

-- `set(values)`, as a list without repetitions
unfoldable pub distinct : List String → List String
distinct [] = []
distinct (x ∷ xs) = let rest = distinct xs in if elem x xs then rest else x ∷ rest

-- _texts
unfoldable pub texts : List String → Result Error (List String)
unfolding map_text distinct sort_by
texts values = do ts ← map_text values; ok (sort_by str_le (distinct ts))
