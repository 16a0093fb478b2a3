-- ===== src/Common/Text.antt =====
-- Texts: `fmt.Sprintf` of plain `%s` verbs is a concatenation.
use Prim.Native.String.{String}
use Prim.Native.String as S
use mathlib.Core.List.{List, [], ◌∷◌}

-- strings.Join(parts, "")
unfoldable pub concat : List String → String
concat [] = ""
concat (s ∷ ss) = S.◌++◌ s (concat ss)
