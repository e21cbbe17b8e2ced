-- ===== src/Paths/Ignored.antt =====
-- What lies below an ignored directory.
use Prim.Native.String
use lv_dcp.Base.{String, ◌≡◌, refl, true, arith, starts_with-append, is_inside-append}
use mathlib.Core.List.{Memᴰ}
use lv_dcp.Base.{any_of_mem}
use lv_dcp.Paths.{default_ignore_prefixes, has_prefix, is_ignored}

ignored_by :
    (dir path : String)
    → Memᴰ dir default_ignore_prefixes
    → has_prefix path dir ≡ true
    → is_ignored path ≡ true
unfolding is_ignored
ignored_by dir path listed prefixed =
    let found = any_of_mem (has_prefix path) dir default_ignore_prefixes listed prefixed in
    rw found refl

-- Every path below a directory of the list is ignored, whether the directory stands at the top or
-- below other directories.
pub is_ignored_below :
    (dir above below : String)
    → Memᴰ dir default_ignore_prefixes
    → (is_ignored (String.◌++◌ dir below) ≡ true)
      × (is_ignored (String.◌++◌ above (String.◌++◌ (String.◌++◌ "/" dir) below)) ≡ true)
is_ignored_below dir above below listed = (
  ignored_by dir (String.◌++◌ dir below) listed (rw (starts_with-append dir below) refl),
  ignored_by dir (String.◌++◌ above (String.◌++◌ (String.◌++◌ "/" dir) below)) listed
      (ground (arith, is_inside-append above (String.◌++◌ "/" dir) below)),
)
