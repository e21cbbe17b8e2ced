-- ===== src/Timeline/Query/Renames.antt =====
-- The confirmed renames that the queries of libs/symbol_timeline/query.py take from the store.
use lv_dcp.Base.{
  ℕ, String, ◌==◌, ◌≡◌, refl, ◌∙◌, Bool, not, ◌&&◌, ◌||◌, Option, List, [], ◌∷◌, arith, ltb, leb,
  map, keep, any, contains,
}
use lv_dcp.Timeline.Events.{RenameEdgeRow}
use lv_dcp.Timeline.Query.{
  is_reached, pair_of, insert_older, newest_first, confirmed_old, confirmed_new,
}

-- A rename in the project after a time, in a commit that is reached; and one not after another time.
abbrev pub is_rename_after : String → ℕ → Option (List String) → RenameEdgeRow → Bool
is_rename_after root from_ts reachable r =
    r.project_root == root && (ltb from_ts r.timestamp && is_reached reachable r.commit_sha)

abbrev pub is_rename_between : String → ℕ → ℕ → Option (List String) → RenameEdgeRow → Bool
is_rename_between root from_ts upper reachable r =
    is_rename_after root from_ts reachable r && leb r.timestamp upper

-- A confirmed rename in a window that came from a symbol, and one that came to it.
abbrev pub confirms_from : (RenameEdgeRow → Bool) → String → RenameEdgeRow → Bool
confirms_from in_window sid r = in_window r && (not r.is_candidate && sid == r.old_symbol_id)

abbrev pub confirms_to : (RenameEdgeRow → Bool) → String → RenameEdgeRow → Bool
confirms_to in_window sid r = in_window r && (not r.is_candidate && sid == r.new_symbol_id)

any-keep :
    (p q t : RenameEdgeRow → Bool) (rs : List RenameEdgeRow)
    → ((r : RenameEdgeRow) → (q r && p r) ≡ t r)
    → any p (keep q rs) ≡ any t rs
any-keep p q t [] h = refl
any-keep p q t (r ∷ rs) h = ground (arith, h r, any-keep p q t rs h)

any-newest_first :
    (p : RenameEdgeRow → Bool) (rs : List RenameEdgeRow) → any p (newest_first rs) ≡ any p rs
unfolding newest_first
any-newest_first p [] = refl
any-newest_first p (r ∷ rs) =
    any-insert_older r (newest_first rs) ∙ ground (arith, any-newest_first p rs)
  where
    any-insert_older :
        (r : RenameEdgeRow) (qs : List RenameEdgeRow)
        → any p (insert_older r qs) ≡ (p r || any p qs)
    any-insert_older r [] = refl
    any-insert_older r (q ∷ qs) = ground (arith, any-insert_older r qs)

module _ (name : String → Option String) (sid : String) where
  contains-confirmed_old :
      (rs : List RenameEdgeRow)
      → contains sid (confirmed_old (map (pair_of name) rs))
        ≡ any (λ (r : RenameEdgeRow). not r.is_candidate && sid == r.old_symbol_id) rs
  contains-confirmed_old [] = refl
  contains-confirmed_old (r ∷ rs) = ground (arith, contains-confirmed_old rs)

  contains-confirmed_new :
      (rs : List RenameEdgeRow)
      → contains sid (confirmed_new (map (pair_of name) rs))
        ≡ any (λ (r : RenameEdgeRow). not r.is_candidate && sid == r.new_symbol_id) rs
  contains-confirmed_new [] = refl
  contains-confirmed_new (r ∷ rs) = ground (arith, contains-confirmed_new rs)

  -- Of the rows in a window, filtered before and after the sort.
  module _ (early late in_window : RenameEdgeRow → Bool) (rs : List RenameEdgeRow)
      (split : (r : RenameEdgeRow) → (early r && late r) ≡ in_window r) where
    pub confirmed_old-eq :
        contains sid (confirmed_old (map (pair_of name) (keep late (newest_first (keep early rs)))))
        ≡ any (confirms_from in_window sid) rs
    confirmed_old-eq =
        contains-confirmed_old (keep late (newest_first (keep early rs)))
        ∙ any-keep _ late
            (λ (r : RenameEdgeRow). late r && (not r.is_candidate && sid == r.old_symbol_id)) _
            (λ r. refl)
        ∙ any-newest_first _ (keep early rs)
        ∙ any-keep _ early (confirms_from in_window sid) rs λ r. ground (arith, split r)

    pub confirmed_new-eq :
        contains sid (confirmed_new (map (pair_of name) (keep late (newest_first (keep early rs)))))
        ≡ any (confirms_to in_window sid) rs
    confirmed_new-eq =
        contains-confirmed_new (keep late (newest_first (keep early rs)))
        ∙ any-keep _ late
            (λ (r : RenameEdgeRow). late r && (not r.is_candidate && sid == r.new_symbol_id)) _
            (λ r. refl)
        ∙ any-newest_first _ (keep early rs)
        ∙ any-keep _ early (confirms_to in_window sid) rs λ r. ground (arith, split r)
