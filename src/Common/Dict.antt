-- ===== src/Common/Dict.antt =====
-- Go maps as association lists: `m[k]`, `m[k] = v` and `delete(m, k)`, over keys with a
-- decidable equality.
use mathlib.Core.List.{List, [], ◌∷◌}
use mathlib.Core.Logic.{ite}
use mathlib.Core.Option.{Option, none, some}
use mathlib.Core.Path.{◌≡◌}
use native.Mathlib.Omega.{arith}

module _ {ℓ} {K V : Type ℓ} (dec : Discrete K) where
  unfoldable pub find : K → List (K × V) → Option V
  find k [] = none
  find k ((j, v) ∷ m) = ite (dec j k) (some v) (find k m)

  unfoldable pub delete : K → List (K × V) → List (K × V)
  delete k [] = []
  delete k ((j, v) ∷ m) = ite (dec j k) (delete k m) ((j, v) ∷ delete k m)

  unfoldable pub put : K → V → List (K × V) → List (K × V)
  put k v m = (k, v) ∷ delete k m

  pub find-delete :
      (j k : K) (m : List (K × V)) → find k (delete j m) ≡ ite (dec j k) none (find k m)
  unfolding find delete
  find-delete j k [] = ground arith
  find-delete j k ((i, v) ∷ m) = ground (arith, find-delete j k m)

  pub find-put :
      (j k : K) (v : V) (m : List (K × V)) → find k (put j v m) ≡ ite (dec j k) (some v) (find k m)
  unfolding find put
  find-put j k v m = ground (arith, find-delete j k m)
