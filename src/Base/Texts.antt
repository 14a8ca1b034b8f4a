-- ===== src/Base/Texts.antt =====
-- Text: equality as a test.
use Prim.Native.String.{String}
use package.text.Mathlib.Text
use mathlib.Core.Bool.{Bool, true}
use mathlib.Core.Path.{◌≡◌}
use text.Mathlib.TextEquality.{eq_iff}

abbrev pub same_text : String → String → Bool
same_text a b = Text.◌==◌ a b

pub same_text-eq : (a b : String) → same_text a b ≡ true → a ≡ b
same_text-eq a b same = (eq_iff a b).0 same

pub same_text_self : (a b : String) → a ≡ b → same_text a b ≡ true
same_text_self a b same = (eq_iff a b).1 same
