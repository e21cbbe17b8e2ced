-- ===== src/Base/Members.antt =====
-- Elements of lists, with the place where they stand.
use mathlib.Core.Path.{◌≡◌, refl}
use mathlib.Core.Bool.{Bool, true}
use mathlib.Core.List.{List, [], ◌∷◌, Memᴰ}
use native.Mathlib.Omega.{arith}
use lv_dcp.Base.Lists.{All, All-imp, any}

module _ {ℓ} {A : Type ℓ} where
  All-tail : (a : A) (xs ys : List A) → All (λ x. Memᴰ x ys) xs → All (λ x. Memᴰ x (a ∷ ys)) xs
  All-tail a xs ys h = All-imp _ _ xs (λ x m. Memᴰ.tail m) h

  -- Every element of a list is in it.
  pub All-self : (xs : List A) → All (λ x. Memᴰ x xs) xs
  All-self [] = tt
  All-self (x ∷ xs) = (Memᴰ.head refl, All-tail x xs xs (All-self xs))

  pub All-at {κ} : (P : A → Type κ) (x : A) (xs : List A) → All P xs → Memᴰ x xs → P x
  All-at P x [] h m = elim m [ ]
  All-at P x (y ∷ xs) h (Memᴰ.head e) = rw e h.0
  All-at P x (y ∷ xs) h (Memᴰ.tail t) = All-at P x xs h.1 t

  pub any_of_mem : (p : A → Bool) (x : A) (xs : List A) → Memᴰ x xs → p x ≡ true → any p xs ≡ true
  any_of_mem p x [] m h = elim m [ ]
  any_of_mem p x (y ∷ xs) (Memᴰ.head e) h = rw (← e) (ground arith)
  any_of_mem p x (y ∷ xs) (Memᴰ.tail t) h = ground (arith, any_of_mem p x xs t h)
