-- ===== src/Prelude/Dict.antt =====
-- Python's `dict` with keys that are texts. The order of its keys matters to `assign` only; `put`
-- puts the key in front.
use Prim.Native.String.{String}
use mathlib.Core.Path.{◌≡◌}
use mathlib.Core.List.{List, [], ◌∷◌}
use mathlib.Core.Option.{Option, none, some}
use native.Mathlib.Omega.{arith}
use text.Mathlib.Text.{◌==◌}
use text.Mathlib.TextEquality.{eq_iff}
use tetra_host.Prelude.Tests.{if◌then◌else◌}

abbrev pub Dict {ℓ} : Type ℓ → Type ℓ
Dict V = List (String × V)

module _ {ℓ} {V : Type ℓ} where
  -- d.get(key)
  unfoldable pub get : String → Dict V → Option V
  get key [] = none
  get key ((k, v) ∷ d) = let later = get key d in if k == key then some v else later

  -- d.pop(key, None)
  unfoldable pub pop : String → Dict V → Dict V
  pop key [] = []
  pop key ((k, v) ∷ d) = let later = pop key d in if k == key then later else (k, v) ∷ later

  -- d[key] = value
  unfoldable pub put : String → V → Dict V → Dict V
  unfolding pop
  put key v d = (key, v) ∷ pop key d

  pub get-pop :
      (key other : String) (d : Dict V)
      → get other (pop key d) ≡ (if key == other then none else get other d)
  unfolding get pop
  get-pop key other [] = ground arith
  get-pop key other ((k, v) ∷ d) =
      ground (arith, get-pop key other d, eq_iff k key, eq_iff k other, eq_iff key other)

  pub get-put :
      (key other : String) (v : V) (d : Dict V)
      → get other (put key v d) ≡ (if key == other then some v else get other d)
  unfolding get put
  get-put key other v d = ground (arith, get-pop key other d)

  -- d[key] = value, in the order of a dict
  unfoldable pub assign : String → V → Dict V → Dict V
  assign key v [] = (key, v) ∷ []
  assign key v ((k, w) ∷ d) =
      let later = assign key v d in if k == key then (k, v) ∷ d else (k, w) ∷ later

  pub get-assign :
      (key other : String) (v : V) (d : Dict V)
      → get other (assign key v d) ≡ (if key == other then some v else get other d)
  unfolding get assign
  get-assign key other v [] = ground arith
  get-assign key other v ((k, w) ∷ d) =
      ground (arith, get-assign key other v d, eq_iff k key, eq_iff k other, eq_iff key other)
