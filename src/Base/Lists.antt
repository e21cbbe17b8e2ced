-- ===== src/Base/Lists.antt =====
-- Lists over the native numbers under the library's names, and Boolean searches and filters, which
-- run in a test. Membership of a text is a Boolean, as the code's `in` is.
use Prim.Native.Nat.{ℕ, zero, suc, ◌+◌}
use mathlib.Core.Path.{◌≡◌, refl}
use mathlib.Core.Bool.{Bool, false, ◌&&◌, ◌||◌}
use mathlib.Core.List.{List, [], ◌∷◌, ◌++◌}
use native.Mathlib.Omega.{arith}
use lv_dcp.Base.Tests.{ltb, if◌then◌else◌}

module _ {ℓ} {A : Type ℓ} where
  abbrev pub length : List A → ℕ
  length [] = 0
  length (x ∷ xs) = suc (length xs)

  -- [x for x in xs if p(x)]
  abbrev pub keep : (A → Bool) → List A → List A
  keep p [] = []
  keep p (x ∷ xs) = let rest = keep p xs in if p x then x ∷ rest else rest

  -- How many elements pass the test.
  abbrev pub count_if : (A → Bool) → List A → ℕ
  count_if p [] = 0
  count_if p (x ∷ xs) = (if p x then 1 else 0) + count_if p xs

  -- any(p(x) for x in xs)
  abbrev pub any : (A → Bool) → List A → Bool
  any p [] = false
  any p (x ∷ xs) = p x || any p xs

module _ {ℓ κ} {A : Type ℓ} where
  abbrev pub All : (A → Type κ) → List A → Type κ
  All P [] = Unit
  All P (x ∷ xs) = P x × All P xs

  pub All-append : (P : A → Type κ) (xs ys : List A) → All P xs → All P ys → All P (xs ++ ys)
  All-append P [] ys hx hy = hy
  All-append P (x ∷ xs) ys hx hy = (hx.0, All-append P xs ys hx.1 hy)

  pub All-imp :
      (P : A → Type κ) (Q : A → Type κ) (xs : List A) → ((x : A) → P x → Q x) → All P xs → All Q xs
  All-imp P Q [] f h = tt
  All-imp P Q (x ∷ xs) f h = (f x h.0, All-imp P Q xs f h.1)

module _ {ℓ κ} {A : Type ℓ} {B : Type κ} where
  -- [y for x in xs for y in f(x)]
  abbrev pub collect : (A → List B) → List A → List B
  collect f [] = []
  collect f (x ∷ xs) = f x ++ collect f xs

module _ {ℓ} {A : Type ℓ} where
  pub keep-append : (p : A → Bool) (xs ys : List A) → keep p (xs ++ ys) ≡ keep p xs ++ keep p ys
  keep-append p [] ys = refl
  keep-append p (x ∷ xs) ys = ground (arith, keep-append p xs ys)

  pub count_if-append :
      (p : A → Bool) (xs ys : List A) → count_if p (xs ++ ys) ≡ count_if p xs + count_if p ys
  count_if-append p [] ys = omega arith
  count_if-append p (x ∷ xs) ys = omega (arith, count_if-append p xs ys)

  pub length-keep : (p : A → Bool) (xs : List A) → length (keep p xs) ≡ count_if p xs
  length-keep p [] = refl
  length-keep p (x ∷ xs) = ground (arith, length-keep p xs)

module _ {ℓ} {A : Type ℓ} where
  -- A filter of a filter is one filter.
  pub keep-keep :
      (p q r : A → Bool) (xs : List A)
      → ((x : A) → (q x && p x) ≡ r x)
      → keep p (keep q xs) ≡ keep r xs
  keep-keep p q r [] h = refl
  keep-keep p q r (x ∷ xs) h = ground (arith, h x, keep-keep p q r xs h)

  pub keep-ext : (p q : A → Bool) (xs : List A) → ((x : A) → p x ≡ q x) → keep p xs ≡ keep q xs
  keep-ext p q [] h = refl
  keep-ext p q (x ∷ xs) h = ground (arith, h x, keep-ext p q xs h)

  pub any-eq-count_if : (p : A → Bool) (xs : List A) → any p xs ≡ ltb 0 (count_if p xs)
  any-eq-count_if p [] = refl
  any-eq-count_if p (x ∷ xs) = ground (arith, any-eq-count_if p xs)

module _ {ℓ} {A : Type ℓ} where
  -- xs[:n]
  abbrev pub take : ℕ → List A → List A
  take zero xs = []
  take (suc n) [] = []
  take (suc n) (x ∷ xs) = x ∷ take n xs

  -- xs[n:]
  abbrev pub drop : ℕ → List A → List A
  drop zero xs = xs
  drop (suc n) [] = []
  drop (suc n) (x ∷ xs) = drop n xs

module _ {ℓ} {A : Type ℓ} where
  pub count_if-keep :
      (p q : A → Bool) (xs : List A) → count_if p (keep q xs) ≡ count_if (λ x. q x && p x) xs
  count_if-keep p q [] = refl
  count_if-keep p q (x ∷ xs) = ground (arith, count_if-keep p q xs)

  pub count_if-ext :
      (p q : A → Bool) (xs : List A) → ((x : A) → p x ≡ q x) → count_if p xs ≡ count_if q xs
  count_if-ext p q [] h = refl
  count_if-ext p q (x ∷ xs) h = ground (arith, h x, count_if-ext p q xs h)
