-- ===== src/Prelude/Text.antt =====
-- Texts as lists of bytes, and the tests of the package `strings` on them.
use Prim.Native.Char.{code}
use Prim.Native.String.{String}
use Prim.Native.Nat.{ℕ}
use mathlib.Core.Bool.{Bool, true, false, ◌&&◌, ◌||◌}
use mathlib.Core.List.{List, [], ◌∷◌}
use yig.Prelude.Tests.{◌==◌}

-- The code points of a text: its bytes, if it is ASCII.
abbrev pub codes : String → List ℕ
codes String.[] = []
codes (String.◌∷◌ c s) = code c ∷ codes s

-- `strings.HasPrefix(s, prefix)`, on bytes
abbrev pub is_prefix : List ℕ → List ℕ → Bool
is_prefix [] s = true
is_prefix (p ∷ ps) [] = false
is_prefix (p ∷ ps) (c ∷ s) = (p == c) && is_prefix ps s

-- `strings.Contains(s, part)`, on bytes
abbrev pub is_infix : List ℕ → List ℕ → Bool
is_infix part [] = is_prefix part []
is_infix part (c ∷ s) = is_prefix part (c ∷ s) || is_infix part s

unfoldable pub has_prefix : String → String → Bool
has_prefix s prefix = is_prefix (codes prefix) (codes s)

unfoldable pub contains : String → String → Bool
contains s part = is_infix (codes part) (codes s)
