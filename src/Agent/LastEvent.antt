-- ===== src/Agent/LastEvent.antt =====
-- The last event of a path decides what a flush says of it.
use lv_dcp.Base.{
  contains-append, String, ◌==◌, eq_iff, ◌≡◌, refl, sym, ◌∙◌, ap, Bool, true, false, not, ◌&&◌,
  ◌||◌, Option, none, some, List, [], ◌∷◌, ◌++◌, arith, contains, contains-keep, contains-keys,
  Dict, get, put, get-put, keys, if◌then◌else◌, Bool-cases, Option-cases, inl, inr,
}
use lv_dcp.Agent.{
  FileEvent, deleted, other, DebounceBuffer, empty_buffer, paths_at, with_path, without_path,
  add_in, discard_in, add, Pending, pending_for, all_projects, flush_all,
}

-- A file event: the project's root, the path in it, and the kind.
abbrev pub FileChange : Type 0
FileChange = String × (String × FileEvent)

unfoldable pub add_all : List FileChange → DebounceBuffer → DebounceBuffer
add_all [] b = b
add_all ((root, (rel, kind)) ∷ changes) b = add_all changes (add root rel kind b)

abbrev pub is_deletion : Option FileEvent → Bool
is_deletion (some deleted) = true
is_deletion _ = false

abbrev pub is_change : Option FileEvent → Bool
is_change (some other) = true
is_change _ = false

paths_at-put :
    (p q : String) (paths : List String) (d : Dict (List String))
    → paths_at p (put q paths d) ≡ (if p == q then paths else paths_at p d)
paths_at-put p q paths d = elim (Bool-cases (p == q)) [
  | inl same ↦ rw (get-put p q paths d, same) refl
  | inr apart ↦ rw (get-put p q paths d, apart) refl
]

contains-append_one :
    (r s : String) (paths : List String)
    → contains r (paths ++ s ∷ []) ≡ (contains r paths || r == s)
contains-append_one r s [] = ground arith
contains-append_one r s (p ∷ paths) = ground (arith, contains-append_one r s paths)

contains-with_path :
    (r s : String) (paths : List String)
    → contains r (with_path s paths) ≡ (contains r paths || r == s)
contains-with_path r s paths = ground (arith, contains-append_one r s paths, eq_iff r s)

contains-without_path :
    (r s : String) (paths : List String)
    → contains r (without_path s paths) ≡ (contains r paths && not (r == s))
contains-without_path r s paths = contains-keep r (λ p. not (p == s)) paths

module _ (p r : String) where
  -- Whether the path is in the project's set.
  abbrev pub is_in : Dict (List String) → Bool
  is_in d = contains r (paths_at p d)

  is_in-add_in :
      (q s : String) (d : Dict (List String))
      → is_in (add_in q s d) ≡ (is_in d || (p == q && r == s))
  is_in-add_in q s d =
      ap (contains r) (paths_at-put p q (with_path s (paths_at q d)) d)
      ∙ elim (Bool-cases (p == q)) [
        | inl same ↦ rw same (
            contains-with_path r s (paths_at q d)
            ∙ ap (λ j. contains r (paths_at j d) || r == s) (sym ((eq_iff p q).0 same)))
        | inr apart ↦ rw apart (ground arith)
      ]

  is_in-discard_in :
      (q s : String) (d : Dict (List String))
      → is_in (discard_in q s d) ≡ (is_in d && not (p == q && r == s))
  is_in-discard_in q s d =
      ap (contains r) (paths_at-put p q (without_path s (paths_at q d)) d)
      ∙ elim (Bool-cases (p == q)) [
        | inl same ↦ rw same (
            contains-without_path r s (paths_at q d)
            ∙ ap (λ j. contains r (paths_at j d) && not (r == s)) (sym ((eq_iff p q).0 same)))
        | inr apart ↦ rw apart (ground arith)
      ]

  -- The kind of the last event of this path.
  abbrev pub last_event : List FileChange → Option FileEvent → Option FileEvent
  last_event [] old = old
  last_event ((q, (s, kind)) ∷ changes) old =
      last_event changes (if p == q && r == s then some kind else old)

  abbrev pub Agrees : Option FileEvent → DebounceBuffer → Type 0
  Agrees last b =
      (is_in b.modified_paths ≡ is_change last) × (is_in b.deleted_paths ≡ is_deletion last)

  add-Agrees :
      (q s : String) (kind : FileEvent) (old : Option FileEvent) (b : DebounceBuffer)
      → Agrees old b
      → Agrees (if p == q && r == s then some kind else old) (add q s kind b)
  unfolding add
  add-Agrees q s deleted old b h = (
    is_in-discard_in q s b.modified_paths ∙ ground (arith, h.0),
    is_in-add_in q s b.deleted_paths ∙ ground (arith, h.1),
  )
  add-Agrees q s other old b h = (
    is_in-add_in q s b.modified_paths ∙ ground (arith, h.0),
    is_in-discard_in q s b.deleted_paths ∙ ground (arith, h.1),
  )

  add_all-Agrees :
      (changes : List FileChange) (old : Option FileEvent) (b : DebounceBuffer)
      → Agrees old b
      → Agrees (last_event changes old) (add_all changes b)
  unfolding add_all
  add_all-Agrees [] old b h = h
  add_all-Agrees ((q, (s, kind)) ∷ changes) old b h =
      add_all-Agrees changes (if p == q && r == s then some kind else old) (add q s kind b)
        (add-Agrees q s kind old b h)

paths_at-absent :
    (p : String) (d : Dict (List String)) → contains p (keys d) ≡ false → paths_at p d ≡ []
paths_at-absent p d absent = elim (Option-cases (get p d)) [
  | inl none' ↦ rw none' refl
  | inr (paths, there) ↦ ground (arith, there, contains-keys p d, absent)
]

-- What a flush has for a project: no entry is two empty sets.
abbrev pub or_nothing : Option (List String × List String) → List String × List String
or_nothing none = ([], [])
or_nothing (some entry) = entry

abbrev pub flushed_at : String → List Pending → List String × List String
flushed_at p pending = or_nothing (get p pending)

module _ (p : String) (b : DebounceBuffer) where
  flushed_at-pending_for :
      (roots : List String)
      → flushed_at p (pending_for b roots) ≡ (
          if contains p roots
          then (paths_at p b.modified_paths, paths_at p b.deleted_paths)
          else ([], []))
  flushed_at-pending_for [] = refl
  flushed_at-pending_for (q ∷ roots) = elim (Bool-cases (p == q)) [
    | inl same ↦ rw (same, (eq_iff p q).0 same) refl
    | inr apart ↦ rw apart (flushed_at-pending_for roots)
  ]

  contains-all_projects :
      contains p (all_projects b)
      ≡ (contains p (keys b.modified_paths) || contains p (keys b.deleted_paths))
  contains-all_projects =
      contains-append p (keys b.modified_paths) _
      ∙ ap (λ c. contains p (keys b.modified_paths) || c)
          (contains-keep p (λ root. not (contains root (keys b.modified_paths)))
            (keys b.deleted_paths))
      ∙ ground arith

  flushed_at-flush_all :
      flushed_at p (flush_all b).1 ≡ (paths_at p b.modified_paths, paths_at p b.deleted_paths)
  unfolding flush_all
  flushed_at-flush_all =
      flushed_at-pending_for (all_projects b) ∙ elim (Bool-cases (contains p (all_projects b))) [
        | inl listed ↦ rw listed refl
        | inr absent ↦
            rw
              (
                absent,
                paths_at-absent p b.modified_paths (ground (arith, absent, contains-all_projects)),
                paths_at-absent p b.deleted_paths (ground (arith, absent, contains-all_projects)),
              )
              refl
      ]

-- After any file events, a flush of the buffer lists a path of a project as modified if its last
-- event was no deletion, as deleted if it was one, and not at all if it had no event.
pub flush_all-last :
    (changes : List FileChange) (p r : String)
    → let (modified, gone) = flushed_at p (flush_all (add_all changes empty_buffer)).1 in
      let last = last_event p r changes none in
      (contains r modified ≡ is_change last) × (contains r gone ≡ is_deletion last)
flush_all-last changes p r =
    let b = add_all changes empty_buffer in
    rw (flushed_at-flush_all p b) (add_all-Agrees p r changes none empty_buffer (refl, refl))
