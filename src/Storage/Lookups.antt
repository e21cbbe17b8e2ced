-- ===== src/Storage/Lookups.antt =====
-- The table files of libs/storage/sqlite_cache.py, by lookup.
use lv_dcp.Base.{
  String, ◌==◌, eq_iff, ◌≡◌, refl, not, ◌||◌, none, some, List, [], ◌∷◌, arith, keep, contains,
  is_some, IsUnique, if◌then◌else◌,
}
use lv_dcp.Storage.{File, paths, upsert, file_at}

pub file_at-upsert :
    (p : String) (file : File) (files : List File)
    → file_at p (upsert file files) ≡ (if p == file.path then some file else file_at p files)
file_at-upsert p file [] = refl
file_at-upsert p file (f ∷ files) = ground (
  arith,
  file_at-upsert p file files,
  eq_iff file.path f.path,
  eq_iff p f.path,
  eq_iff p file.path,
)

pub file_at-keep :
    (p q : String) (files : List File)
    → file_at p (keep (λ f. not (f.path == q)) files) ≡ (if p == q then none else file_at p files)
file_at-keep p q [] = ground arith
file_at-keep p q (f ∷ files) =
    ground (arith, file_at-keep p q files, eq_iff f.path q, eq_iff p f.path, eq_iff p q)

pub contains-paths :
    (p : String) (files : List File) → contains p (paths files) ≡ is_some (file_at p files)
contains-paths p [] = refl
contains-paths p (f ∷ files) = ground (arith, contains-paths p files)

pub contains-upsert :
    (p : String) (file : File) (files : List File)
    → contains p (paths (upsert file files)) ≡ (p == file.path || contains p (paths files))
contains-upsert p file [] = ground arith
contains-upsert p file (f ∷ files) = ground (
  arith,
  contains-upsert p file files,
  eq_iff file.path f.path,
  eq_iff p f.path,
  eq_iff p file.path,
)

pub upsert-IsUnique :
    (file : File) (files : List File)
    → IsUnique (paths files)
    → IsUnique (paths (upsert file files))
upsert-IsUnique file [] u = (refl, tt)
upsert-IsUnique file (f ∷ files) u = ground (
  arith,
  u,
  upsert-IsUnique file files,
  contains-upsert f.path file files,
  eq_iff file.path f.path,
  eq_iff f.path file.path,
)
