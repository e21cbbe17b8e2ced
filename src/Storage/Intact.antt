-- ===== src/Storage/Intact.antt =====
-- The foreign keys of the cache, which every operation of libs/storage/sqlite_cache.py keeps.
use lv_dcp.Base.{
  String, ◌==◌, eq_iff, ◌≡◌, refl, ap, Bool, true, false, not, ◌&&◌, Option, none, some, List, [],
  ◌∷◌, ◌++◌, arith, keep, contains, All, All-append, All-imp, IsUnique, if◌then◌else◌,
}
use lv_dcp.Timeline.Bracket.{◌>>=◌}
use lv_dcp.Storage.{
  File, Symbol, Relation, RelationRow, SqliteCache, paths, upsert, put_file, delete_file,
  insert_symbol, insert_symbols, replace_symbols, insert_relations, rows_of, replace_relations,
}
use lv_dcp.Storage.Lookups.{contains-upsert, upsert-IsUnique}

abbrev pub OfKnown : List String → Symbol → Type 0
OfKnown known s = contains s.file_path known ≡ true

abbrev pub FromKnown : List String → RelationRow → Type 0
FromKnown known r = contains r.origin_file known ≡ true

-- A path is in the table files once, and each symbol and relation is of a file in it.
pub record IsIntact (cache : SqliteCache) : Type 0 where
  pub files_unique : IsUnique (paths cache.files)
  pub symbols_known : All (OfKnown (paths cache.files)) cache.symbols
  pub relations_known : All (FromKnown (paths cache.files)) cache.relations

-- What holds of a result, if there is one.
abbrev pub IfSome {ℓ} : {A : Type ℓ} → (A → Type 0) → Option A → Type 0
IfSome P none = Unit
IfSome P (some a) = P a

pub bind-IfSome :
    {A B : Type 0} (P : A → Type 0) (Q : B → Type 0) (o : Option A) (f : A → Option B)
    → IfSome P o
    → ((a : A) → P a → IfSome Q (f a))
    → IfSome Q (o >>= f)
bind-IfSome P Q none f h next = tt
bind-IfSome P Q (some a) f h next = next a h

pub any-IfSome : {A : Type 0} (o : Option A) → IfSome (λ _. Unit) o
any-IfSome none = tt
any-IfSome (some a) = tt

abbrev pub or_given {ℓ} : {A : Type ℓ} → A → Option A → A
or_given a none = a
or_given a (some b) = b

pub IfSome-at : {A : Type 0} (P : A → Type 0) (o : Option A) (a : A) → IfSome P o → o ≡ some a → P a
IfSome-at P none a h e = absurd (ground (arith, e))
IfSome-at P (some b) a h e = let same : b ≡ a = ap (or_given b) e in rw (← same) h

pub All-keep :
    {A : Type 0} (P : A → Type 0) (p : A → Bool) (xs : List A) → All P xs → All P (keep p xs)
All-keep P p [] h = tt
All-keep P p (x ∷ xs) h = ground (arith, h.0, All-keep P p xs h.1)

pub put_file-IsIntact :
    (file : File) (cache : SqliteCache) → IsIntact cache → IsIntact (put_file file cache)
put_file-IsIntact file cache h = record {
  files_unique = upsert-IsUnique file cache.files h.files_unique;
  symbols_known =
      All-imp (OfKnown (paths cache.files)) (OfKnown (paths (upsert file cache.files)))
        cache.symbols
        (λ s known. ground (arith, known, contains-upsert s.file_path file cache.files))
        h.symbols_known;
  relations_known =
      All-imp (FromKnown (paths cache.files)) (FromKnown (paths (upsert file cache.files)))
        cache.relations
        (λ r known. ground (arith, known, contains-upsert r.origin_file file cache.files))
        h.relations_known;
}

contains-paths-keep :
    (p q : String) (files : List File)
    → contains p (paths (keep (λ f. not (f.path == q)) files))
      ≡ (contains p (paths files) && not (p == q))
contains-paths-keep p q [] = refl
contains-paths-keep p q (f ∷ files) =
    ground (arith, contains-paths-keep p q files, eq_iff f.path q, eq_iff p f.path, eq_iff p q)

paths-keep-IsUnique :
    (q : String) (files : List File)
    → IsUnique (paths files)
    → IsUnique (paths (keep (λ f. not (f.path == q)) files))
paths-keep-IsUnique q [] u = tt
paths-keep-IsUnique q (f ∷ files) u =
    ground (arith, u, paths-keep-IsUnique q files, contains-paths-keep f.path q files)

symbols_left :
    (q : String) (files : List File) (symbols : List Symbol)
    → All (OfKnown (paths files)) symbols
    → All
        (OfKnown (paths (keep (λ f. not (f.path == q)) files)))
        (keep (λ s. not (s.file_path == q)) symbols)
symbols_left q files [] h = tt
symbols_left q files (s ∷ symbols) h =
    ground (arith, h.0, symbols_left q files symbols h.1, contains-paths-keep s.file_path q files)

relations_left :
    (q : String) (files : List File) (relations : List RelationRow)
    → All (FromKnown (paths files)) relations
    → All
        (FromKnown (paths (keep (λ f. not (f.path == q)) files)))
        (keep (λ r. not (r.origin_file == q)) relations)
relations_left q files [] h = tt
relations_left q files (r ∷ relations) h =
    ground
      (arith, h.0, relations_left q files relations h.1, contains-paths-keep r.origin_file q files)

pub delete_file-IsIntact :
    (path : String) (cache : SqliteCache) → IsIntact cache → IsIntact (delete_file path cache)
unfolding delete_file
delete_file-IsIntact path cache h = record {
  files_unique = paths-keep-IsUnique path cache.files h.files_unique;
  symbols_known = symbols_left path cache.files cache.symbols h.symbols_known;
  relations_known = relations_left path cache.files cache.relations h.relations_known;
}

pub guard-IfSome :
    {A : Type 0} (P : A → Type 0) (b : Bool) (o : Option A)
    → (b ≡ true → IfSome P o)
    → IfSome P (if b then o else none)
guard-IfSome P true o h = h refl
guard-IfSome P false o h = tt

insert_symbols-OfKnown :
    (known : List String) (new symbols : List Symbol)
    → All (OfKnown known) symbols
    → IfSome (All (OfKnown known)) (insert_symbols known new symbols)
unfolding insert_symbols
insert_symbols-OfKnown known [] symbols h = h
insert_symbols-OfKnown known (s ∷ new) symbols h =
    bind-IfSome (All (OfKnown known)) (All (OfKnown known)) (insert_symbol known s symbols)
      (insert_symbols known new)
      (guard-IfSome (All (OfKnown known)) (contains s.file_path known)
        (some (keep (λ t. not (t.fq_name == s.fq_name)) symbols ++ (s ∷ [])))
        λ there.
          All-append (OfKnown known) (keep (λ t. not (t.fq_name == s.fq_name)) symbols) (s ∷ [])
            (All-keep (OfKnown known) (λ t. not (t.fq_name == s.fq_name)) symbols h) (there, tt))
      (λ inserted i. insert_symbols-OfKnown known new inserted i)

pub replace_symbols-IsIntact :
    (path : String) (new : List Symbol) (cache : SqliteCache)
    → IsIntact cache
    → IfSome IsIntact (replace_symbols path new cache)
unfolding replace_symbols
replace_symbols-IsIntact path new cache h =
    bind-IfSome (All (OfKnown (paths cache.files))) IsIntact
      (insert_symbols (paths cache.files) new (keep (λ s. not (s.file_path == path)) cache.symbols))
      (λ symbols. some (record cache { symbols = symbols }))
      (insert_symbols-OfKnown (paths cache.files) new
        (keep (λ s. not (s.file_path == path)) cache.symbols)
        (All-keep (OfKnown (paths cache.files)) (λ s. not (s.file_path == path)) cache.symbols
          h.symbols_known))
      λ symbols known. record {
        files_unique = h.files_unique;
        symbols_known = known;
        relations_known = h.relations_known;
      }

pub insert_relations-FromKnown :
    (known : List String) (new relations : List RelationRow)
    → All (FromKnown known) relations
    → IfSome (All (FromKnown known)) (insert_relations known new relations)
unfolding insert_relations
insert_relations-FromKnown known [] relations h = h
insert_relations-FromKnown known (r ∷ new) relations h =
    guard-IfSome (All (FromKnown known)) (contains r.origin_file known)
      (insert_relations known new (relations ++ (r ∷ [])))
      λ there.
        insert_relations-FromKnown known new (relations ++ (r ∷ []))
          (All-append (FromKnown known) relations (r ∷ []) h (there, tt))

pub replace_relations-IsIntact :
    (path : String) (new : List Relation) (cache : SqliteCache)
    → IsIntact cache
    → IfSome IsIntact (replace_relations path new cache)
unfolding replace_relations
replace_relations-IsIntact path new cache h =
    bind-IfSome (All (FromKnown (paths cache.files))) IsIntact
      (insert_relations (paths cache.files) (rows_of path new)
        (keep (λ r. not (r.origin_file == path)) cache.relations))
      (λ relations. some (record cache { relations = relations }))
      (insert_relations-FromKnown (paths cache.files) (rows_of path new)
        (keep (λ r. not (r.origin_file == path)) cache.relations)
        (All-keep (FromKnown (paths cache.files)) (λ r. not (r.origin_file == path)) cache.relations
          h.relations_known))
      λ relations known. record {
        files_unique = h.files_unique;
        symbols_known = h.symbols_known;
        relations_known = known;
      }
