-- ===== src/Agent/Quarantine.antt =====
-- A project whose cache was found corrupt is left alone.
use lv_dcp.Base.{
  contains-append, ℕ, String, ◌==◌, eq_iff, ◌≡◌, refl, sym, ◌∙◌, ap, true, false, not, List, [],
  ◌∷◌, ◌++◌, arith, contains-keep, keep-IsUnique, keep, contains, Dict, get, get-put, keys, is_some,
  IsUnique, Bool-cases, inl, inr,
}
use lv_dcp.Agent.{
  DebounceBuffer, Pending, flush_all, Outcome, done, corrupt, failed, Services, Options,
  DaemonState, work, finish, pending_for, all_projects, process_project, process_all,
  process_pending_events,
}

-- What is pending of the projects that are not in quarantine.
abbrev pub healthy : Dict String → List Pending → List Pending
healthy quarantined = keep (λ (entry : Pending). not (is_some (get entry.0 quarantined)))

healthy-known :
    (q : Dict String) (entry : Pending) (rest : List Pending)
    → is_some (get entry.0 q) ≡ true
    → healthy q (entry ∷ rest) ≡ healthy q rest
healthy-known q entry rest known = rw known refl

healthy-free :
    (q : Dict String) (entry : Pending) (rest : List Pending)
    → is_some (get entry.0 q) ≡ false
    → healthy q (entry ∷ rest) ≡ entry ∷ healthy q rest
healthy-free q entry rest free = rw free refl

module _ {W : Type 0} (services : Services W) (options : Options) where
  -- Working on one project does not change whether another is in quarantine.
  finish-others :
      (p root : String) (st : DaemonState W) (outcome : Outcome W ℕ)
      → (p == root) ≡ false
      → get p (finish services options root st outcome).quarantined ≡ get p st.quarantined
  finish-others p root st (done w n) apart = refl
  finish-others p root st (corrupt w message) apart =
      get-put p root message st.quarantined ∙ rw apart refl
  finish-others p root st (failed w) apart = refl

  process_project-others :
      (p : String) (entry : Pending) (st : DaemonState W)
      → (p == entry.0) ≡ false
      → get p (process_project services options entry st).quarantined ≡ get p st.quarantined
  process_project-others p entry st apart =
      elim (Bool-cases (is_some (get entry.0 st.quarantined))) [
        | inl known ↦ rw known refl
        | inr free ↦
            rw free (finish-others p entry.0 st (work services options entry st.world) apart)
      ]

  -- The entries to come are of other projects.
  healthy-others :
      (root : String) (q q' : Dict String) (rest : List Pending)
      → ((p : String) → (p == root) ≡ false → get p q' ≡ get p q)
      → contains root (keys rest) ≡ false
      → healthy q' rest ≡ healthy q rest
  healthy-others root q q' [] same absent = refl
  healthy-others root q q' ((p, paths) ∷ rest) same absent =
      let apart : (p == root) ≡ false = ground (arith, absent, eq_iff p root, eq_iff root p) in
      let later = healthy-others root q q' rest same (ground (arith, absent)) in
      rw (same p apart) (ground (arith, later))

  process_project-known :
      (entry : Pending) (st : DaemonState W)
      → is_some (get entry.0 st.quarantined) ≡ true
      → process_project services options entry st ≡ st
  process_project-known entry st known = rw known refl

  process_all-healthy :
      (pending : List Pending) (st : DaemonState W)
      → IsUnique (keys pending)
      → process_all services options pending st
        ≡ process_all services options (healthy st.quarantined pending) st
  unfolding process_all
  process_all-healthy [] st u = refl
  process_all-healthy (entry ∷ rest) st u =
      let after = process_project services options entry st in
      elim (Bool-cases (is_some (get entry.0 st.quarantined))) [
        | inl known ↦
            ap (process_all services options rest) (process_project-known entry st known)
            ∙ process_all-healthy rest st u.1
            ∙ ap (λ es. process_all services options es st)
                (sym (healthy-known st.quarantined entry rest known))
        | inr free ↦
            process_all-healthy rest after u.1
            ∙ ap (λ es. process_all services options es after)
                (healthy-others entry.0 st.quarantined after.quarantined rest
                  (λ p apart. process_project-others p entry st apart) u.0)
            ∙ ap (λ es. process_all services options es st)
                (sym (healthy-free st.quarantined entry rest free))
      ]

keys-pending_for : (b : DebounceBuffer) (roots : List String) → keys (pending_for b roots) ≡ roots
keys-pending_for b [] = refl
keys-pending_for b (root ∷ roots) = ap (λ ks. root ∷ ks) (keys-pending_for b roots)

-- The keys of the buffer's two dicts are distinct, as those of a dict are.
abbrev pub IsBuffer : DebounceBuffer → Type 0
IsBuffer b = IsUnique (keys b.modified_paths) × IsUnique (keys b.deleted_paths)

append-IsUnique :
    (xs ys : List String)
    → IsUnique xs
    → IsUnique ys
    → IsUnique (xs ++ keep (λ y. not (contains y xs)) ys)
append-IsUnique xs ys u v =
    grown xs (keep (λ y. not (contains y xs)) ys) u (keep-IsUnique _ ys v) apart
  where
    apart :
        (k : String)
        → contains k xs ≡ true
        → contains k (keep (λ y. not (contains y xs)) ys) ≡ false
    apart k k_in = contains-keep k (λ y. not (contains y xs)) ys ∙ ground (arith, k_in)

    grown :
        (us vs : List String)
        → IsUnique us
        → IsUnique vs
        → ((k : String) → contains k us ≡ true → contains k vs ≡ false)
        → IsUnique (us ++ vs)
    grown [] vs ua ub h = ub
    grown (a ∷ us) vs ua ub h = (
      contains-append a us vs ∙ ground (arith, ua.0, h a, eq_iff a a),
      grown us vs ua.1 ub (λ k k_in. h k (ground (arith, k_in))),
    )

flush_all-IsUnique : (b : DebounceBuffer) → IsBuffer b → IsUnique (keys (flush_all b).1)
unfolding flush_all
flush_all-IsUnique b h =
    rw (keys-pending_for b (all_projects b))
      (append-IsUnique (keys b.modified_paths) (keys b.deleted_paths) h.0 h.1)

-- Whatever the services do, a call of `process_pending_events` is the same as one whose flush has
-- no entry for a project in quarantine: such a project is neither opened nor scanned, and neither
-- its results nor its books are touched.
pub process_pending_events-healthy :
    {W : Type 0} (services : Services W) (options : Options) (b : DebounceBuffer)
    (quarantined : Dict String) (w : W)
    → IsBuffer b
    → (process_pending_events services options b quarantined w).1
      ≡ process_all services options
          (healthy quarantined (flush_all b).1)
          (record { quarantined = quarantined; results = []; world = w })
unfolding process_pending_events
process_pending_events-healthy services options b quarantined w h =
    process_all-healthy services options (flush_all b).1
      (record { quarantined = quarantined; results = []; world = w }) (flush_all-IsUnique b h)
