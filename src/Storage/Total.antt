-- ===== src/Storage/Total.antt =====
-- When the writes of libs/storage/sqlite_cache.py do not raise, and that they leave the table files.
use lv_dcp.Base.{
  String, ◌==◌, ◌≡◌, refl, Bool, true, false, not, Option, none, some, List, [], ◌∷◌, ◌++◌, arith,
  keep, contains, All, if◌then◌else◌,
}
use lv_dcp.Timeline.Bracket.{◌>>=◌}
use lv_dcp.Storage.{
  Symbol, Relation, RelationRow, SqliteCache, paths, insert_symbol, insert_symbols, replace_symbols,
  insert_relations, rows_of, replace_relations,
}
use lv_dcp.Storage.Intact.{OfKnown, FromKnown}

-- There is a result, and it holds of it.
abbrev pub HasSome {ℓ} : {A : Type ℓ} → (A → Type 0) → Option A → Type 0
HasSome P none = ⊥
HasSome P (some a) = P a

pub bind-HasSome :
    {A B : Type 0} (P : A → Type 0) (Q : B → Type 0) (o : Option A) (f : A → Option B)
    → HasSome P o
    → ((a : A) → P a → HasSome Q (f a))
    → HasSome Q (o >>= f)
bind-HasSome P Q none f h next = absurd h
bind-HasSome P Q (some a) f h next = next a h

pub HasSome-result :
    {A : Type 0} (P : A → Type 0) (o : Option A) → HasSome P o → (a : A) × ((o ≡ some a) × P a)
HasSome-result P none h = absurd h
HasSome-result P (some a) h = (a, (refl, h))

guard-HasSome :
    {A : Type 0} (P : A → Type 0) (b : Bool) (o : Option A)
    → b ≡ true
    → HasSome P o
    → HasSome P (if b then o else none)
guard-HasSome P true o e h = h
guard-HasSome P false o e h = absurd (ground (arith, e))

insert_symbols-HasSome :
    (known : List String) (new symbols : List Symbol)
    → All (OfKnown known) new
    → HasSome (λ _. Unit) (insert_symbols known new symbols)
unfolding insert_symbols
insert_symbols-HasSome known [] symbols h = tt
insert_symbols-HasSome known (s ∷ new) symbols h =
    bind-HasSome (λ _. Unit) (λ _. Unit) (insert_symbol known s symbols) (insert_symbols known new)
      (guard-HasSome (λ _. Unit) (contains s.file_path known)
        (some (keep (λ t. not (t.fq_name == s.fq_name)) symbols ++ (s ∷ []))) h.0 tt)
      λ inserted _. insert_symbols-HasSome known new inserted h.1

-- Symbols of files that are there replace those of a file.
pub replace_symbols-HasSome :
    (path : String) (new : List Symbol) (cache : SqliteCache)
    → All (OfKnown (paths cache.files)) new
    → HasSome (λ c. c.files ≡ cache.files) (replace_symbols path new cache)
unfolding replace_symbols
replace_symbols-HasSome path new cache h =
    bind-HasSome (λ _. Unit) (λ c. c.files ≡ cache.files)
      (insert_symbols (paths cache.files) new (keep (λ s. not (s.file_path == path)) cache.symbols))
      (λ symbols. some (record cache { symbols = symbols }))
      (insert_symbols-HasSome (paths cache.files) new
        (keep (λ s. not (s.file_path == path)) cache.symbols) h)
      λ symbols _. refl

pub insert_relations-HasSome :
    (known : List String) (new relations : List RelationRow)
    → All (FromKnown known) new
    → HasSome (λ _. Unit) (insert_relations known new relations)
unfolding insert_relations
insert_relations-HasSome known [] relations h = tt
insert_relations-HasSome known (r ∷ new) relations h =
    guard-HasSome (λ _. Unit) (contains r.origin_file known)
      (insert_relations known new (relations ++ (r ∷ []))) h.0
      (insert_relations-HasSome known new (relations ++ (r ∷ [])) h.1)

rows_of-FromKnown :
    (known : List String) (path : String) (new : List Relation)
    → contains path known ≡ true
    → All (FromKnown known) (rows_of path new)
rows_of-FromKnown known path [] there = tt
rows_of-FromKnown known path (r ∷ new) there = (there, rows_of-FromKnown known path new there)

-- Relations of a file that is there.
pub replace_relations-HasSome :
    (path : String) (new : List Relation) (cache : SqliteCache)
    → contains path (paths cache.files) ≡ true
    → HasSome (λ c. c.files ≡ cache.files) (replace_relations path new cache)
unfolding replace_relations
replace_relations-HasSome path new cache there =
    bind-HasSome (λ _. Unit) (λ c. c.files ≡ cache.files)
      (insert_relations (paths cache.files) (rows_of path new)
        (keep (λ r. not (r.origin_file == path)) cache.relations))
      (λ relations. some (record cache { relations = relations }))
      (insert_relations-HasSome (paths cache.files) (rows_of path new)
        (keep (λ r. not (r.origin_file == path)) cache.relations)
        (rows_of-FromKnown (paths cache.files) path new there))
      λ relations _. refl
