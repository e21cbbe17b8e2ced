-- ===== src/Base/Text.antt =====
-- Texts: sets of texts as lists, and Python's order of `str` by code points.
use Prim.Native.Nat.{ℕ, zero, suc, compare, Ordering, ◌+◌}
use Prim.Native.Char.{Char, code}
use Prim.Native.String
use Prim.Native.String.{String}
use mathlib.Core.Path.{◌≡◌, refl, ap, ◌∙◌}
use mathlib.Core.Logic.{inl, inr}
use mathlib.Core.Bool.{Bool, true, false, ◌&&◌, ◌||◌}
use mathlib.Core.List.{List, [], ◌∷◌, ◌++◌}
use native.Mathlib.Omega.{arith}
use text.Mathlib.Text.{◌==◌}
use text.Mathlib.TextEquality.{eq_iff}
use text.Mathlib.TextLemmas.{nil-append, cons-append}
use lv_dcp.Base.Tests.{leb, Bool-cases, if◌then◌else◌}
use lv_dcp.Base.Lists.{keep}

-- k in ks
abbrev pub contains : String → List String → Bool
contains k [] = false
contains k (j ∷ ks) = k == j || contains k ks

abbrev pub char_between : ℕ → ℕ → Char → Bool
char_between lo hi c = leb lo (code c) && leb (code c) hi

-- s < t
unfoldable pub str_lt : String → String → Bool
str_lt String.[] String.[] = false
str_lt String.[] (String.◌∷◌ d t) = true
str_lt (String.◌∷◌ c s) String.[] = false
str_lt (String.◌∷◌ c s) (String.◌∷◌ d t) =
    let rest = str_lt s t in
    elim (compare (code c) (code d)) [
      | Ordering.lt ↦ true
      | Ordering.eq ↦ rest
      | Ordering.gt ↦ false
    ]

-- sorted(ks), by insertion: stable, as Python's sort is.
pub insert_sorted : String → List String → List String
insert_sorted k [] = k ∷ []
insert_sorted k (j ∷ ks) = if str_lt j k then j ∷ insert_sorted k ks else k ∷ j ∷ ks

unfoldable pub sorted : List String → List String
unfolding insert_sorted str_lt
sorted [] = []
sorted (k ∷ ks) = insert_sorted k (sorted ks)

contains-insert_sorted :
    (x k : String) (ks : List String) → contains x (insert_sorted k ks) ≡ (x == k || contains x ks)
unfolding insert_sorted
contains-insert_sorted x k [] = refl
contains-insert_sorted x k (j ∷ ks) = ground (arith, contains-insert_sorted x k ks)

-- Sorting keeps the members.
pub contains-sorted : (x : String) (ks : List String) → contains x (sorted ks) ≡ contains x ks
unfolding sorted
contains-sorted x [] = refl
contains-sorted x (k ∷ ks) =
    contains-insert_sorted x k (sorted ks) ∙ ap (λ b. x == k || b) (contains-sorted x ks)

pub contains-keep :
    (x : String) (p : String → Bool) (ks : List String)
    → contains x (keep p ks) ≡ (contains x ks && p x)
contains-keep x p [] = refl
contains-keep x p (k ∷ ks) = elim (Bool-cases (x == k)) [
  | inl same ↦ rw ((eq_iff x k).0 same) (ground (arith, contains-keep k p ks, eq_iff k k))
  | inr other ↦ ground (arith, contains-keep x p ks)
]

pub contains-append :
    (k : String) (xs ys : List String) → contains k (xs ++ ys) ≡ (contains k xs || contains k ys)
contains-append k [] ys = refl
contains-append k (x ∷ xs) ys = ground (arith, contains-append k xs ys)

-- The members of the set that the elements are added to, in some order.
unfoldable pub distinct : List String → List String
distinct [] = []
distinct (x ∷ xs) = let rest = distinct xs in if contains x rest then rest else x ∷ rest

pub contains-distinct : (s : String) (xs : List String) → contains s (distinct xs) ≡ contains s xs
unfolding distinct
contains-distinct s [] = refl
contains-distinct s (x ∷ xs) = elim (Bool-cases (contains x (distinct xs))) [
  | inl here ↦ elim (Bool-cases (s == x)) [
    | inl same ↦ ground (arith, here, same, (eq_iff s x).0 same, contains-distinct s xs)
    | inr other ↦ ground (arith, here, other, contains-distinct s xs)
  ]
  | inr new ↦ ground (arith, new, contains-distinct s xs)
]

test_sorted : sorted ("b" ∷ "a" ∷ "ab" ∷ []) ≡ "a" ∷ "ab" ∷ "b" ∷ []
unfolding sorted
test_sorted = refl

-- The members differ from one another, as a set's and a dict's keys do.
abbrev pub IsUnique : List String → Type 0
IsUnique [] = Unit
IsUnique (k ∷ ks) = (contains k ks ≡ false) × IsUnique ks

insert_sorted-IsUnique :
    (k : String) (ks : List String)
    → contains k ks ≡ false
    → IsUnique ks
    → IsUnique (insert_sorted k ks)
unfolding insert_sorted
insert_sorted-IsUnique k [] n u = (refl, tt)
insert_sorted-IsUnique k (j ∷ ks) n u =
    ground
      (arith, insert_sorted-IsUnique k ks, contains-insert_sorted j k ks, eq_iff j k, eq_iff k j)

pub sorted-IsUnique : (ks : List String) → IsUnique ks → IsUnique (sorted ks)
unfolding sorted
sorted-IsUnique [] u = tt
sorted-IsUnique (k ∷ ks) u =
    insert_sorted-IsUnique k (sorted ks) (contains-sorted k ks ∙ u.0) (sorted-IsUnique ks u.1)

pub keep-IsUnique : (p : String → Bool) (ks : List String) → IsUnique ks → IsUnique (keep p ks)
keep-IsUnique p [] u = tt
keep-IsUnique p (k ∷ ks) u = ground (arith, keep-IsUnique p ks, contains-keep k p ks)

pub append_one-IsUnique :
    (k : String) (ks : List String)
    → contains k ks ≡ false
    → IsUnique ks
    → IsUnique (ks ++ (k ∷ []))
append_one-IsUnique k [] absent u = (refl, tt)
append_one-IsUnique k (j ∷ ks) absent u = ground (
  arith,
  append_one-IsUnique k ks,
  contains-append j ks (k ∷ []),
  absent,
  u,
  eq_iff j k,
  eq_iff k j,
)

-- s[:n]
unfoldable pub prefix : ℕ → String → String
prefix zero s = String.[]
prefix (suc n) String.[] = String.[]
prefix (suc n) (String.◌∷◌ c s) = String.◌∷◌ c (prefix n s)

-- len(s), and s[n:]
unfoldable pub text_length : String → ℕ
text_length String.[] = 0
text_length (String.◌∷◌ c s) = text_length s + 1

unfoldable pub drop_chars : ℕ → String → String
drop_chars zero s = s
drop_chars (suc n) String.[] = String.[]
drop_chars (suc n) (String.◌∷◌ c s) = drop_chars n s

-- The texts one after another, each with `end` behind it.
unfoldable pub join_ended : String → List String → String
join_ended end [] = String.[]
join_ended end (k ∷ ks) = String.◌++◌ k (String.◌++◌ end (join_ended end ks))

-- s.split(c) for one character: always at least one piece.
abbrev pub grow_first : Char → List String → List String
grow_first c [] = String.◌∷◌ c String.[] ∷ []
grow_first c (p ∷ ps) = String.◌∷◌ c p ∷ ps

unfoldable pub split_on : ℕ → String → List String
split_on sep String.[] = String.[] ∷ []
split_on sep (String.◌∷◌ c s) =
    let pieces = split_on sep s in
    elim (compare (code c) sep) [ Ordering.eq ↦ String.[] ∷ pieces | _ ↦ grow_first c pieces ]

test_split_on : split_on b',' "a,,b" ≡ "a" ∷ "" ∷ "b" ∷ []
unfolding split_on
test_split_on = refl

-- s.startswith(p), and `p in s`
unfoldable pub starts_with : String → String → Bool
starts_with String.[] s = true
starts_with (String.◌∷◌ c p) String.[] = false
starts_with (String.◌∷◌ c p) (String.◌∷◌ d s) =
    let rest = starts_with p s in
    elim (compare (code c) (code d)) [ Ordering.eq ↦ rest | _ ↦ false ]

unfoldable pub is_inside : String → String → Bool
is_inside p String.[] = starts_with p String.[]
is_inside p (String.◌∷◌ c s) = starts_with p (String.◌∷◌ c s) || is_inside p s

-- s.endswith(p)
unfoldable pub ends_with : String → String → Bool
ends_with p String.[] = p == ""
ends_with p (String.◌∷◌ c s) = p == String.◌∷◌ c s || ends_with p s

-- s.rsplit(c, 1)[-1], of the pieces of a split at `c`.
abbrev pub last_piece : List String → String
last_piece [] = ""
last_piece (p ∷ []) = p
last_piece (p ∷ q ∷ ps) = last_piece (q ∷ ps)

pub starts_with-append : (p s : String) → starts_with p (String.◌++◌ p s) ≡ true
unfolding starts_with
starts_with-append String.[] s = refl
starts_with-append (String.◌∷◌ c p) s =
    rw (cons-append c p s) (ground (arith, starts_with-append p s))

starts_with-is_inside : (p s : String) → starts_with p s ≡ true → is_inside p s ≡ true
unfolding is_inside
starts_with-is_inside p String.[] h = h
starts_with-is_inside p (String.◌∷◌ c s) h = ground (arith, h)

pub is_inside-append : (a p s : String) → is_inside p (String.◌++◌ a (String.◌++◌ p s)) ≡ true
unfolding is_inside
is_inside-append String.[] p s =
    rw (nil-append (String.◌++◌ p s))
      (starts_with-is_inside p (String.◌++◌ p s) (starts_with-append p s))
is_inside-append (String.◌∷◌ c a) p s =
    rw (cons-append c a (String.◌++◌ p s)) (ground (arith, is_inside-append a p s))
