-- ===== src/Prelude/Dict.antt =====
-- Python's `dict` with text keys, as a finite map of which only look-ups are observed.
use Prim.Native.String.{String}
use mathlib.Core.Bool.{◌&&◌}
use mathlib.Core.Option.{Option, none, some}
use text.Mathlib.Text.{◌==◌}
use dsp.Prelude.Tests.{if◌then◌else◌}

abbrev pub Dict {ℓ} : Type ℓ → Type ℓ
Dict V = String → Option V

module _ {ℓ} {V : Type ℓ} where
  abbrev pub empty : Dict V
  empty k = none

  -- d[k] = v
  abbrev pub update : Dict V → String → V → Dict V
  update d k v j = if k == j then some v else d j

  -- d[(k, l)] = v on pairs of texts
  abbrev pub update₂ : (String → Dict V) → String → String → V → String → Dict V
  update₂ d k l v i j = if k == i && l == j then some v else d i j
