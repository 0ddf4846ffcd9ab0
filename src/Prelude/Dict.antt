-- ===== src/Prelude/Dict.antt =====
-- Python's `dict` with text keys, as an association list, with its laws in the form of `ite`.
use Prim.Native.String.{String}
use mathlib.Core.Path.{◌≡◌, refl}
use mathlib.Core.Logic.{ite}
use mathlib.Core.Option.{Option, none, some}
use mathlib.Core.List.{List, [], ◌∷◌}
use native.Mathlib.Omega.{arith}
use mastery.Prelude.Text.{String_discrete}

module _ {ℓ} {V : Type ℓ} where
  -- `d.get(k)`
  unfoldable pub lookup : String → List (String × V) → Option V
  unfolding String_discrete
  lookup k [] = none
  lookup k ((j, v) ∷ d) = ite (String_discrete j k) (some v) (lookup k d)

  -- `d[k] = v`
  unfoldable pub put : String → V → List (String × V) → List (String × V)
  unfolding String_discrete
  put k v [] = (k, v) ∷ []
  put k v ((j, w) ∷ d) = ite (String_discrete j k) ((k, v) ∷ d) ((j, w) ∷ put k v d)

  pub lookup-put :
      (k j : String) (v : V) (d : List (String × V))
      → lookup j (put k v d) ≡ ite (String_discrete k j) (some v) (lookup j d)
  unfolding lookup put
  lookup-put k j v [] = refl
  lookup-put k j v ((i, w) ∷ d) = ground (arith, lookup-put k j v d)

  pub lookup-put_self : (k : String) (v : V) (d : List (String × V)) → lookup k (put k v d) ≡ some v
  lookup-put_self k v d = ground (arith, lookup-put k k v d)

  pub put-put : (k : String) (v w : V) (d : List (String × V)) → put k w (put k v d) ≡ put k w d
  unfolding put
  put-put k v w [] = ground arith
  put-put k v w ((i, u) ∷ d) = ground (arith, put-put k v w d)

  -- `d.pop(k, None)`
  unfoldable pub delete : String → List (String × V) → List (String × V)
  unfolding String_discrete
  delete k [] = []
  delete k ((j, w) ∷ d) = let rest = delete k d in ite (String_discrete j k) rest ((j, w) ∷ rest)

  pub lookup-delete :
      (k j : String) (d : List (String × V))
      → lookup j (delete k d) ≡ ite (String_discrete k j) none (lookup j d)
  unfolding lookup delete
  lookup-delete k j [] = ground arith
  lookup-delete k j ((i, w) ∷ d) = ground (arith, lookup-delete k j d)
