-- ===== src/Paths/Tests.antt =====
-- Runs of the path rules, and their theorem at one.
use lv_dcp.Base.{◌≡◌, refl, true, false}
use mathlib.Core.List.{Memᴰ}
use lv_dcp.Paths.{is_ignored, is_test_path}
use lv_dcp.Paths.Ignored.{is_ignored_below}

test_env : is_ignored "app/.env.local" ≡ true
unfolding is_ignored
test_env = refl

test_env_example : is_ignored "app/.env.example" ≡ false
unfolding is_ignored
test_env_example = refl

test_source : is_ignored "src/database.py" ≡ false
unfolding is_ignored
test_source = refl

test_spec_file : is_test_path "web\\src\\a.spec.tsx" ≡ true
unfolding is_test_path
test_spec_file = refl

test_docs : is_test_path "docs/test.md" ≡ false
unfolding is_test_path
test_docs = refl

test_ignored_below : (is_ignored ".git/config" ≡ true) × (is_ignored "lib/.git/config" ≡ true)
test_ignored_below = is_ignored_below ".git/" "lib" "config" (Memᴰ.head refl)
