-- ===== src/Paths.antt =====
-- libs/core/paths.py: which paths are ignored, and which are tests. `normalize_path` resolves links
-- on the disk and is not modelled.
pub mod Ignored
mod Tests
use Prim.Native.Char.{code}
use Prim.Native.Nat.{compare, Ordering}
use Prim.Native.String
use lv_dcp.Base.{
  ℕ, String, ◌==◌, Bool, not, ◌&&◌, ◌||◌, List, [], ◌∷◌, any, contains, split_on, starts_with,
  is_inside, ends_with, last_piece,
}

abbrev pub default_ignore_prefixes : List String
default_ignore_prefixes =
    ".git/" ∷ ".venv/" ∷ "venv/" ∷ "node_modules/" ∷ "__pycache__/" ∷ ".mypy_cache/"
    ∷ ".ruff_cache/" ∷ ".pytest_cache/" ∷ "dist/" ∷ "build/" ∷ ".next/" ∷ ".cache/" ∷ "coverage/"
    ∷ ".context/" ∷ ".playwright-mcp/" ∷ ".superpowers/" ∷ ".claude/" ∷ ".cursor/" ∷ ".github/"
    ∷ "docker/" ∷ "data/" ∷ "secrets/" ∷ "credentials/" ∷ "gen/" ∷ "vendor/" ∷ "generated/" ∷ []

abbrev pub default_ignore_filename_exact : List String
default_ignore_filename_exact =
    "credentials.json" ∷ "secrets.json" ∷ "docker-compose.yml" ∷ "docker-compose.prod.yml"
    ∷ "docker-compose.override.yml" ∷ "ruff.toml" ∷ []

abbrev pub env_filename_allow : List String
env_filename_allow = ".env.example" ∷ []

abbrev pub default_ignore_suffixes : List String
default_ignore_suffixes =
    ".pyc" ∷ ".pyo" ∷ ".so" ∷ ".dylib" ∷ ".dll" ∷ ".log" ∷ ".DS_Store" ∷ ".min.js" ∷ ".min.css" ∷ []

-- p.rsplit("/", 1)[-1]
unfoldable pub basename : String → String
unfolding split_on
basename path = last_piece (split_on b'/' path)

-- The body of the loop over the prefixes.
abbrev pub has_prefix : String → String → Bool
has_prefix path prefix = starts_with prefix path || is_inside (String.◌++◌ "/" prefix) path

abbrev pub is_env : String → Bool
is_env name = name == ".env" || (starts_with ".env." name && not (contains name env_filename_allow))

unfoldable pub is_ignored : String → Bool
unfolding starts_with is_inside ends_with basename
is_ignored path =
    any (has_prefix path) default_ignore_prefixes
    || (contains (basename path) default_ignore_filename_exact
        || (is_env (basename path)
            || any (λ suffix. ends_with suffix path) default_ignore_suffixes))

-- p.replace("\\", "/")
unfoldable pub with_slashes : String → String
with_slashes String.[] = String.[]
with_slashes (String.◌∷◌ c s) =
    let rest = with_slashes s in
    elim (compare (code c) 92) [ Ordering.eq ↦ String.◌++◌ "/" rest | _ ↦ String.◌∷◌ c rest ]

abbrev pub test_extensions : List String
test_extensions = ".py" ∷ ".go" ∷ ".ts" ∷ ".tsx" ∷ ".js" ∷ ".jsx" ∷ ".mjs" ∷ ".cjs" ∷ ".rs" ∷ []

abbrev pub has_test_suffix : String → String → Bool
has_test_suffix name ext =
    ends_with (String.◌++◌ "_test" ext) name
    || (ends_with (String.◌++◌ ".test" ext) name || ends_with (String.◌++◌ ".spec" ext) name)

abbrev pub is_in_tests : String → Bool
is_in_tests p =
    is_inside "/tests/" p
    || (starts_with "tests/" p
        || (starts_with "test_" p || (is_inside "/__tests__/" p || starts_with "__tests__/" p)))

unfoldable pub is_test_path : String → Bool
unfolding starts_with is_inside ends_with basename with_slashes
is_test_path path =
    let p = with_slashes path in
    is_in_tests p
    || (starts_with "test_" (basename p) || any (has_test_suffix (basename p)) test_extensions)
