-- ===== src/Common/Text.antt =====
-- Texts: the comparison and what a failed comparison means.
use mathlib.Core.Path.{◌≡◌}
use mathlib.Core.Logic.{◌≢◌}
use mathlib.Core.Bool.{false}
use Prim.Native.String.{String}
use native.Mathlib.Omega.{arith}
use text.Mathlib.Text.{◌==◌ as str_eq}
use text.Mathlib.TextEquality.{eq_iff}

pub ne-str_eq : (x y : String) → str_eq x y ≡ false → x ≢ y
ne-str_eq x y h e = ground (arith, eq_iff x y)
