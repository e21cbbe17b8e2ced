-- ===== src/Memories/Header.antt =====
-- The header of a note of libs/memory/store.py reads back as it was written.
use Prim.Native.Char.{Char}
use Prim.Native.String
use text.Mathlib.TextLemmas.{nil-append, cons-append, append_assoc}
use lv_dcp.Base.{
  String, ◌==◌, eq_iff, true, false, ◌||◌, some, ◌≡◌, refl, sym, ap, ◌∙◌, inl, inr, Bool-cases,
  arith, starts_with, is_inside, starts_with-append, text_length, ◌+◌, ◌≤◌, drop_chars,
}
use lv_dcp.Timeline.Reconcile.{rstrip}
use lv_dcp.Memories.{
  proposed, accepted, rejected, MemoryStatus, Memory, ok, mapping, Yaml, text_value, status_value,
  header_of, newlines, grow_front, until_rule, frontmatter, status_of, shown, render, memory_of,
  parse,
}
use lv_dcp.Memories.Newlines.{has_return, newlines-append}

-- What is documented of YAML, for one note: the header of the note reads back, also without the
-- blanks at its end, none of its lines is "---", and a carriage return is escaped in it.
pub record IsYaml (y : Yaml) (m : Memory) : Type 0 where
  pub load-dump : y.load (rstrip (y.dump (header_of m))) ≡ some (mapping (header_of m))
  pub no_rule : is_inside "\n---\n" (String.◌++◌ (rstrip (y.dump (header_of m))) "\n---") ≡ false
  pub no_return : has_return (rstrip (y.dump (header_of m))) ≡ false

-- A text as long as what it should start with decides by itself.
starts_with-longer :
    (p s t : String)
    → text_length p ≤ text_length s
    → starts_with p (String.◌++◌ s t) ≡ starts_with p s
unfolding starts_with text_length
starts_with-longer String.[] s t h = refl
starts_with-longer (String.◌∷◌ c p) String.[] t h = absurd (omega (arith, h))
starts_with-longer (String.◌∷◌ c p) (String.◌∷◌ d s) t h =
    rw (cons-append d s t) (ground (arith, starts_with-longer p s t))

drop_chars-append : (p s : String) → drop_chars (text_length p) (String.◌++◌ p s) ≡ s
unfolding drop_chars text_length
drop_chars-append String.[] s = rw (nil-append s) refl
drop_chars-append (String.◌∷◌ c p) s =
    rw (cons-append c p s) (ground (arith, drop_chars-append p s))

text_length-append : (s t : String) → text_length (String.◌++◌ s t) ≡ text_length s + text_length t
unfolding text_length
text_length-append String.[] t = rw (nil-append t) (omega arith)
text_length-append (String.◌∷◌ c s) t =
    rw (cons-append c s t) (omega (arith, text_length-append s t))

until_rule_hit :
    (s : String) → starts_with "\n---\n" s ≡ true → until_rule s ≡ some (String.[], drop_chars 5 s)
unfolding until_rule starts_with
until_rule_hit String.[] h = absurd (ground (arith, h))
until_rule_hit (String.◌∷◌ c s) h = rw h refl

until_rule_miss :
    (c : Char) (s : String)
    → starts_with "\n---\n" (String.◌∷◌ c s) ≡ false
    → until_rule (String.◌∷◌ c s) ≡ grow_front c (until_rule s)
unfolding until_rule
until_rule_miss c s h = rw h refl

-- The text between its header and its rule, and the rest.
regroup :
    (h rest : String)
    → String.◌++◌ h (String.◌++◌ "\n---\n" rest)
      ≡ String.◌++◌ (String.◌++◌ h "\n---") (String.◌++◌ "\n" rest)
regroup h rest =
    ap (String.◌++◌ h) (append_assoc "\n---" "\n" rest)
    ∙ sym (append_assoc h "\n---" (String.◌++◌ "\n" rest))

-- The first rule behind a header without one is the rule that follows it.
until_rule-append :
    (h rest : String)
    → is_inside "\n---\n" (String.◌++◌ h "\n---") ≡ false
    → until_rule (String.◌++◌ h (String.◌++◌ "\n---\n" rest)) ≡ some (h, rest)
unfolding is_inside text_length
until_rule-append String.[] rest absent = rw (nil-append (String.◌++◌ "\n---\n" rest)) (
    until_rule_hit (String.◌++◌ "\n---\n" rest) (starts_with-append "\n---\n" rest)
    ∙ ap (λ t. some (String.[], t)) (drop_chars-append "\n---\n" rest))
until_rule-append (String.◌∷◌ c h) rest absent =
    let cut = String.◌++◌ h "\n---" in
    let none_yet : (starts_with "\n---\n" (String.◌∷◌ c cut) || is_inside "\n---\n" cut) ≡ false =
      ap (is_inside "\n---\n") (sym (cons-append c h "\n---")) ∙ absent in
    let longer =
      starts_with-longer "\n---\n" (String.◌∷◌ c cut) (String.◌++◌ "\n" rest)
        (omega (arith, text_length-append h "\n---")) in
    let text = regroup h rest in
    let missed : starts_with "\n---\n" (String.◌∷◌ c (String.◌++◌ h (String.◌++◌ "\n---\n" rest)))
        ≡ false =
      ap (λ t. starts_with "\n---\n" (String.◌∷◌ c t)) text
      ∙ ap (starts_with "\n---\n") (sym (cons-append c cut (String.◌++◌ "\n" rest)))
      ∙ longer
      ∙ ground (arith, none_yet) in
    ap until_rule (cons-append c h (String.◌++◌ "\n---\n" rest))
    ∙ until_rule_miss c (String.◌++◌ h (String.◌++◌ "\n---\n" rest)) missed
    ∙ ap (grow_front c) (until_rule-append h rest (ground (arith, none_yet)))

module _ (y : Yaml) where
  shown_text : (s : String) → shown y (some (text_value s)) ≡ s
  shown_text s = elim (Bool-cases (s == "")) [
    | inl blank ↦ ground (arith, (eq_iff s "").0 blank)
    | inr full ↦ ground (arith, full)
  ]

  status_of-status_value :
      (st : MemoryStatus) → status_of (some (text_value (status_value st))) ≡ some st
  status_of-status_value proposed = refl
  status_of-status_value accepted = refl
  status_of-status_value rejected = refl

  -- The fields of a header that was written.
  memory_of-header_of :
      (path body : String) (m : Memory)
      → memory_of y path body (header_of m) ≡ ok (record m { body = body; path = path })
  memory_of-header_of path body m = ground (
    arith,
    status_of-status_value m.status,
    shown_text m.id,
    shown_text m.topic,
    shown_text m.created_at_iso,
    shown_text m.created_by,
  )

  newlines-render :
      (m : Memory)
      → IsYaml y m
      → newlines (render y m)
        ≡ String.◌++◌ "---\n" (
            String.◌++◌
              (rstrip (y.dump (header_of m)))
              (String.◌++◌ "\n---\n" (newlines (String.◌++◌ (rstrip m.body) "\n"))))
  unfolding render has_return
  newlines-render m yaml =
      let header = rstrip (y.dump (header_of m)) in
      let body = String.◌++◌ (rstrip m.body) "\n" in
      newlines-append "---\n" (String.◌++◌ header (String.◌++◌ "\n---\n" body)) refl
      ∙ ap (String.◌++◌ "---\n") (
          newlines-append header (String.◌++◌ "\n---\n" body) yaml.no_return
          ∙ ap (String.◌++◌ header) (newlines-append "\n---\n" body refl))

  frontmatter-render :
      (m : Memory)
      → IsYaml y m
      → frontmatter (newlines (render y m))
        ≡ some (rstrip (y.dump (header_of m)), newlines (String.◌++◌ (rstrip m.body) "\n"))
  unfolding frontmatter text_length
  frontmatter-render m yaml =
      let header = rstrip (y.dump (header_of m)) in
      let body = newlines (String.◌++◌ (rstrip m.body) "\n") in
      let behind = String.◌++◌ header (String.◌++◌ "\n---\n" body) in
      rw (newlines-render m yaml) (
        rw (starts_with-append "---\n" behind) (
          ap until_rule (drop_chars-append "---\n" behind)
          ∙ until_rule-append header body yaml.no_rule))

  -- Where YAML reads back the header of a note, the note that is written to a path is read from it with all
  -- its fields; of its body the blanks at the end become one end of line, and each "\r\n" or "\r" in it
  -- becomes "\n".
  pub parse-render :
      (path : String) (m : Memory)
      → IsYaml y m
      → parse y path (render y m)
        ≡ ok (record m { body = newlines (String.◌++◌ (rstrip m.body) "\n"); path = path })
  unfolding parse
  parse-render path m yaml =
      rw (frontmatter-render m yaml) (
        rw yaml.load-dump
          (memory_of-header_of path (newlines (String.◌++◌ (rstrip m.body) "\n")) m))
