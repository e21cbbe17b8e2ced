-- ===== src/Base/Dicts.antt =====
-- Python's `dict` with text keys, in insertion order, as a list of entries.
use Prim.Native.String.{String}
use mathlib.Core.Path.{◌≡◌, refl}
use mathlib.Core.Bool.{Bool, true, false, ◌||◌}
use mathlib.Core.Option.{Option, none, some}
use mathlib.Core.List.{List, [], ◌∷◌}
use native.Mathlib.Omega.{arith}
use text.Mathlib.Text.{◌==◌}
use text.Mathlib.TextEquality.{eq_iff}
use lv_dcp.Base.Tests.{if◌then◌else◌}
use lv_dcp.Base.Text.{contains, IsUnique}

abbrev pub Dict {ℓ} : Type ℓ → Type ℓ
Dict V = List (String × V)

abbrev pub is_some {ℓ} : {A : Type ℓ} → Option A → Bool
is_some none = false
is_some (some a) = true

module _ {ℓ} {V : Type ℓ} where
  -- d.get(k)
  abbrev pub get : String → Dict V → Option V
  get k [] = none
  get k ((j, v) ∷ d) = if k == j then some v else get k d

  -- d[k] = v: an old key keeps its place.
  abbrev pub put : String → V → Dict V → Dict V
  put k v [] = (k, v) ∷ []
  put k v ((j, w) ∷ d) = if k == j then (j, v) ∷ d else (j, w) ∷ put k v d

  abbrev pub keys : Dict V → List String
  keys [] = []
  keys ((k, v) ∷ d) = k ∷ keys d

  pub contains-keys : (k : String) (d : Dict V) → contains k (keys d) ≡ is_some (get k d)
  contains-keys k [] = refl
  contains-keys k ((j, v) ∷ d) = ground (arith, contains-keys k d)

  pub get-put :
      (j k : String) (v : V) (d : Dict V) → get j (put k v d) ≡ (if j == k then some v else get j d)
  get-put j k v [] = refl
  get-put j k v ((i, w) ∷ d) = ground (arith, get-put j k v d, eq_iff k i, eq_iff j i, eq_iff j k)

  contains-keys-put :
      (j k : String) (v : V) (d : Dict V)
      → contains j (keys (put k v d)) ≡ (j == k || contains j (keys d))
  contains-keys-put j k v [] = refl
  contains-keys-put j k v ((i, w) ∷ d) =
      ground (arith, contains-keys-put j k v d, eq_iff k i, eq_iff j i, eq_iff j k)

  pub put-IsUnique :
      (k : String) (v : V) (d : Dict V) → IsUnique (keys d) → IsUnique (keys (put k v d))
  put-IsUnique k v [] u = (refl, tt)
  put-IsUnique k v ((i, w) ∷ d) u =
      ground (arith, put-IsUnique k v d, contains-keys-put i k v d, eq_iff k i, eq_iff i k)
