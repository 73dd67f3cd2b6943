-- ===== src/Prelude/Strip.antt =====
-- `str.strip` is idempotent.
use Prim.Native.Char.{Char, code}
use Prim.Native.String.{String, [], ◌∷◌}
use mathlib.Core.Path.{◌≡◌, refl, ap, ◌∙◌}
use mathlib.Core.Logic.{inl, inr}
use mathlib.Core.Bool.{Bool, true, false}
use dsp.Prelude.Tests.{Bool-cases}
use dsp.Prelude.Text.{is_space, lstrip, rstrip, strip, keep_unless}

abbrev behead : String → String
behead [] = []
behead (c ∷ s) = s

lstrip_idem : (s : String) → lstrip (lstrip s) ≡ lstrip s
unfolding lstrip
lstrip_idem [] = refl
lstrip_idem (c ∷ s) = elim (Bool-cases (is_space (code c))) [
  | inl e ↦ rw e (lstrip_idem s)
  | inr e ↦ rw e (rw e refl)
]

-- what `rstrip` leaves of a tail decides what it leaves of the whole
keep_again :
    (c : Char) (b : Bool) (t : String)
    → is_space (code c) ≡ b
    → rstrip t ≡ t
    → rstrip (keep_unless b t (c ∷ t)) ≡ keep_unless b t (c ∷ t)
unfolding rstrip
keep_again c true [] e h = refl
keep_again c true (d ∷ t) e h = rw (e, h) refl
keep_again c false t e h = rw (e, h) refl

rstrip-cons :
    (c : Char) (s : String)
    → rstrip (c ∷ s) ≡ keep_unless (is_space (code c)) (rstrip s) (c ∷ rstrip s)
unfolding rstrip
rstrip-cons c s = refl

rstrip_idem : (s : String) → rstrip (rstrip s) ≡ rstrip s
rstrip_idem [] = unfold rstrip in refl
rstrip_idem (c ∷ s) = rw rstrip-cons (keep_again c _ (rstrip s) refl (rstrip_idem s))

tail_of : (b : Bool) (t : String) (c : Char) (s : String) → keep_unless b t (c ∷ t) ≡ c ∷ s → t ≡ s
tail_of true [] c s h = cc
tail_of true (d ∷ t) c s h = ap behead h
tail_of false t c s h = ap behead h

rstrip-tail : (c : Char) (s : String) → rstrip (c ∷ s) ≡ c ∷ s → rstrip s ≡ s
rstrip-tail c s h = tail_of (is_space (code c)) (rstrip s) c s (rw rstrip-cons at h)

rstrip-lstrip : (s : String) → rstrip s ≡ s → rstrip (lstrip s) ≡ lstrip s
unfolding lstrip
rstrip-lstrip [] h = h
rstrip-lstrip (c ∷ s) h = elim (Bool-cases (is_space (code c))) [
  | inl e ↦ rw e (rstrip-lstrip s (rstrip-tail c s h))
  | inr e ↦ rw e h
]

pub strip_idem : (s : String) → strip (strip s) ≡ strip s
unfolding strip
strip_idem s = ap lstrip (rstrip-lstrip (rstrip s) (rstrip_idem s)) ∙ lstrip_idem (rstrip s)
