-- ===== src/Contracts/Normal.antt =====
-- What the checks of Contracts.antt return: the stripped value, which passes the same check again.
use dsp.Prelude.{String, ◌≡◌, refl, ap, Option, none, some, ok, err, ◌⊎◌, inl, arith}
use dsp.Prelude.Text.{strip}
use dsp.Prelude.Strip.{strip_idem}
use dsp.Contracts.{value_error, text, optional_text, digest, optional_digest}

-- an optional text, stripped
abbrev pub strip? : Option String → Option String
strip? none = none
strip? (some v) = some (strip v)

pub text_cases : (v : String) → (text v ≡ ok (strip v)) ⊎ (text v ≡ err value_error)
unfolding text
text_cases v = ground arith

pub optional_text_cases :
    (o : Option String) → (optional_text o ≡ ok (strip? o)) ⊎ (optional_text o ≡ err value_error)
unfolding optional_text
optional_text_cases none = inl refl
optional_text_cases (some v) = ground (arith, text_cases v)

pub digest_cases : (v : String) → (digest v ≡ ok (strip v)) ⊎ (digest v ≡ err value_error)
unfolding digest
digest_cases v = ground (arith, text_cases v)

pub optional_digest_cases :
    (o : Option String)
    → (optional_digest o ≡ ok (strip? o)) ⊎ (optional_digest o ≡ err value_error)
unfolding optional_digest
optional_digest_cases none = inl refl
optional_digest_cases (some v) = ground (arith, digest_cases v)

pub strip?_idem : (o : Option String) → strip? (strip? o) ≡ strip? o
strip?_idem none = refl
strip?_idem (some v) = ap some (strip_idem v)

pub text-strip : (v : String) → text (strip v) ≡ text v
unfolding text
text-strip v = rw (strip_idem v) refl

pub optional_text-strip? : (o : Option String) → optional_text (strip? o) ≡ optional_text o
unfolding optional_text
optional_text-strip? none = refl
optional_text-strip? (some v) = ground (arith, text-strip v)

pub digest-strip : (v : String) → digest (strip v) ≡ digest v
unfolding digest
digest-strip v = ground (arith, text-strip v)

pub optional_digest-strip? : (o : Option String) → optional_digest (strip? o) ≡ optional_digest o
unfolding optional_digest
optional_digest-strip? none = refl
optional_digest-strip? (some v) = ground (arith, digest-strip v)
