-- ===== src/Memories/Newlines.antt =====
-- The ends of line that libs/memory/store.py reads: a text that was read has no carriage return.
use Prim.Native.Char.{Char, code}
use Prim.Native.String
use text.Mathlib.TextLemmas.{nil-append, cons-append}
use lv_dcp.Base.{
  ℕ, zero, suc, String, ◌==◌, Bool, true, false, ◌&&◌, ◌||◌, Option, none, some, if◌then◌else◌, ◌≡◌,
  refl, sym, ap, ◌∙◌, inl, inr, Bool-cases, arith, starts_with, drop_chars,
}
use lv_dcp.Timeline.Reconcile.{is_blank, rstrip}
use lv_dcp.Memories.{is_return, newlines, grow_front, until_rule, frontmatter}

unfoldable pub has_return : String → Bool
has_return String.[] = false
has_return (String.◌∷◌ c s) = is_return c || has_return s

has_return-append : (s t : String) → has_return (String.◌++◌ s t) ≡ (has_return s || has_return t)
unfolding has_return
has_return-append String.[] t = ap has_return (nil-append t)
has_return-append (String.◌∷◌ c s) t =
    ap has_return (cons-append c s t) ∙ ground (arith, has_return-append s t)

has_return-if :
    (b : Bool) (s t : String)
    → has_return s ≡ false
    → has_return t ≡ false
    → has_return (if b then s else t) ≡ false
has_return-if true s t p q = p
has_return-if false s t p q = q

pub has_return-newlines : (s : String) → has_return (newlines s) ≡ false
unfolding has_return newlines
has_return-newlines String.[] = refl
has_return-newlines (String.◌∷◌ c s) =
    let rest = has_return-newlines s in
    elim (Bool-cases (is_return c)) [
      | inl here ↦ rw here (
          has_return-if (starts_with "\n" s) (newlines s) (String.◌++◌ "\n" (newlines s)) rest
            (has_return-append "\n" (newlines s) ∙ rest))
      | inr other ↦ rw other (rw other rest)
    ]

-- A text without carriage returns is read as it is, whatever is behind it.
pub newlines-append :
    (h t : String) → has_return h ≡ false → newlines (String.◌++◌ h t) ≡ String.◌++◌ h (newlines t)
unfolding has_return newlines
newlines-append String.[] t plain = rw (nil-append t) (sym (nil-append (newlines t)))
newlines-append (String.◌∷◌ c h) t plain = elim (Bool-cases (is_return c)) [
  | inl here ↦ absurd (ground (arith, here, plain))
  | inr other ↦
      ap newlines (cons-append c h t)
      ∙ rw other (
          ap (String.◌∷◌ c) (newlines-append h t (ground (arith, other, plain)))
          ∙ sym (cons-append c h (newlines t)))
]

newlines_plain : (s : String) → has_return s ≡ false → newlines s ≡ s
unfolding has_return newlines
newlines_plain String.[] plain = refl
newlines_plain (String.◌∷◌ c s) plain = elim (Bool-cases (is_return c)) [
  | inl here ↦ absurd (ground (arith, here, plain))
  | inr other ↦ rw other (ap (String.◌∷◌ c) (newlines_plain s (ground (arith, other, plain))))
]

has_return-rstrip : (s : String) → has_return s ≡ false → has_return (rstrip s) ≡ false
unfolding has_return rstrip
has_return-rstrip String.[] plain = refl
has_return-rstrip (String.◌∷◌ c s) plain = elim (Bool-cases (is_return c)) [
  | inl here ↦ absurd (ground (arith, here, plain))
  | inr other ↦
      has_return-if (is_blank (code c) && rstrip s == "") "" (String.◌∷◌ c (rstrip s)) refl
        (rw other (has_return-rstrip s (ground (arith, other, plain))))
]

has_return-drop_chars :
    (n : ℕ) (s : String) → has_return s ≡ false → has_return (drop_chars n s) ≡ false
unfolding has_return drop_chars
has_return-drop_chars zero s plain = plain
has_return-drop_chars (suc n) String.[] plain = refl
has_return-drop_chars (suc n) (String.◌∷◌ c s) plain =
    has_return-drop_chars n s (ground (arith, plain))

-- Whether the text behind what is found has a carriage return.
abbrev pub is_behind : Option (String × String) → Bool
is_behind none = false
is_behind (some parts) = has_return parts.1

is_behind-grow_front :
    (c : Char) (parts : Option (String × String)) → is_behind (grow_front c parts) ≡ is_behind parts
is_behind-grow_front c none = refl
is_behind-grow_front c (some parts) = refl

is_behind-if :
    (b : Bool) (x y : Option (String × String))
    → is_behind x ≡ false
    → is_behind y ≡ false
    → is_behind (if b then x else y) ≡ false
is_behind-if true x y p q = p
is_behind-if false x y p q = q

is_behind-until_rule : (s : String) → has_return s ≡ false → is_behind (until_rule s) ≡ false
unfolding until_rule
is_behind-until_rule String.[] plain = refl
is_behind-until_rule (String.◌∷◌ c s) plain =
    is_behind-if (starts_with "\n---\n" (String.◌∷◌ c s))
      (some (String.[], drop_chars 5 (String.◌∷◌ c s))) (grow_front c (until_rule s))
      (has_return-drop_chars 5 (String.◌∷◌ c s) plain)
      (is_behind-grow_front c (until_rule s)
        ∙ is_behind-until_rule s (has_return-drop_chars 1 (String.◌∷◌ c s) plain))

pub is_behind-frontmatter : (s : String) → has_return s ≡ false → is_behind (frontmatter s) ≡ false
unfolding frontmatter
is_behind-frontmatter s plain =
    is_behind-if (starts_with "---\n" s) (until_rule (drop_chars 4 s)) none
      (is_behind-until_rule (drop_chars 4 s) (has_return-drop_chars 4 s plain)) refl

pub newlines-rstrip :
    (s : String)
    → has_return s ≡ false
    → newlines (String.◌++◌ (rstrip s) "\n") ≡ String.◌++◌ (rstrip s) "\n"
unfolding has_return
newlines-rstrip s plain =
    newlines_plain (String.◌++◌ (rstrip s) "\n")
      (has_return-append (rstrip s) "\n" ∙ ap (λ b. b || false) (has_return-rstrip s plain))
