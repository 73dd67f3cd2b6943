-- ===== src/Dispatch/Lookup.antt =====
-- `get_for_saga_slice` finds what `prepare` accepted.
use dsp.Prelude.{>>=-eq-ok, ◌≡◌, refl, ap, some, ok, arith}
use dsp.Contracts.{text, digest}
use dsp.Contracts.Normal.{text_cases, digest_cases}
use dsp.Dispatch.Intent.{Intent, check_intent}
use dsp.Dispatch.Store.{Store, prepare, get_for_saga_slice}
use dsp.Dispatch.Changes.{IsNormal, check_intent_cases}
use dsp.Dispatch.Linked.{IsLinked}
use dsp.Dispatch.Recovery.{prepare-Prepared}

made-IsNormal : (i : Intent) → check_intent i ≡ ok i → IsNormal i
made-IsNormal i e = ground (arith, check_intent_cases i)

-- A reader finds what was prepared. After an intent, as its constructor made it, was accepted, the
-- look-up by its Saga and Slice returns the intent that `prepare` returned.
pub prepare-get :
    (store : Store) (i : Intent) {k : Intent}
    → IsLinked store
    → check_intent i ≡ ok i
    → (prepare store i).0 ≡ ok k
    → get_for_saga_slice (prepare store i).1 i.saga_id i.execution_slice_hash ≡ ok (some k)
unfolding get_for_saga_slice check_intent
prepare-get store i w made accepted =
    let s = prepare-Prepared store i w accepted in
    let (a, ea, e₁) = >>=-eq-ok (text i.saga_id) _ made in
    let (b, eb, e₂) = >>=-eq-ok (digest i.execution_slice_hash) _ e₁ in
    let n : IsNormal i = made-IsNormal i made in
    let t : text i.saga_id ≡ ok i.saga_id =
      ground (arith, text_cases i.saga_id, ap (λ (x : Intent). x.saga_id) n) in
    let d : digest i.execution_slice_hash ≡ ok i.execution_slice_hash =
      ground (
        arith,
        digest_cases i.execution_slice_hash,
        ap (λ (x : Intent). x.execution_slice_hash) n,
      ) in
    rw (t, d, s.slice, s.held) refl
