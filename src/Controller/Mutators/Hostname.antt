-- ===== src/Controller/Mutators/Hostname.antt =====
-- HostnameRegex of internal/controller/ingress_route.go, as a regular expression over code points,
-- and Go's regexp.MatchString by derivatives.
pub mod Language
use Prim.Native.Char.{code}
use Prim.Native.Nat.{compare, Ordering}
use Prim.Native.String as S
use application_controller.Common.{
  String, ℕ, Bool, true, false, ◌&&◌, ◌||◌, List, [], ◌∷◌, if◌then◌else◌, ◌==◌, nat_eq,
}

-- The code points of a text.
unfoldable pub codes : String → List ℕ
codes S.[] = []
codes (S.◌∷◌ c s) = code c ∷ codes s

pub data Regex : Type 0 where
  -- no text; the empty text
  nothing epsilon : Regex
  -- one code point of a class
  class : (ℕ → Bool) → Regex
  seq alt : Regex → Regex → Regex
  star : Regex → Regex

unfoldable pub nullable : Regex → Bool
nullable nothing = false
nullable epsilon = true
nullable (class p) = false
nullable (seq r s) = nullable r && nullable s
nullable (alt r s) = nullable r || nullable s
nullable (star r) = true

-- What may follow after the code point.
unfoldable pub derivative : ℕ → Regex → Regex
unfolding nullable
derivative c nothing = nothing
derivative c epsilon = nothing
derivative c (class p) = if p c then epsilon else nothing
derivative c (seq r s) =
    let first = seq (derivative c r) s in
    let second = derivative c s in if nullable r then alt first second else first
derivative c (alt r s) = alt (derivative c r) (derivative c s)
derivative c (star r) = seq (derivative c r) (star r)

-- The whole text matches: the expression of the source is anchored by `^` and `$`.
unfoldable pub match_whole : Regex → List ℕ → Bool
unfolding nullable derivative
match_whole r [] = nullable r
match_whole r (c ∷ s) = match_whole (derivative c r) s

abbrev pub leb : ℕ → ℕ → Bool
leb a b = elim (compare a b) [ Ordering.gt ↦ false | _ ↦ true ]

-- [a-zA-Z0-9]
unfoldable pub is_alphanumeric : ℕ → Bool
is_alphanumeric c =
    (leb b'a' c && leb c b'z') || (leb b'A' c && leb c b'Z') || (leb b'0' c && leb c b'9')

-- [a-zA-Z0-9\-]
unfoldable pub is_inner : ℕ → Bool
unfolding is_alphanumeric
is_inner c = is_alphanumeric c || c == 45

unfoldable pub is_dot : ℕ → Bool
is_dot c = c == 46

-- ([a-zA-Z0-9]|[a-zA-Z0-9][a-zA-Z0-9\-]*[a-zA-Z0-9])
abbrev pub label : Regex
label =
    alt (class is_alphanumeric)
      (seq (class is_alphanumeric) (seq (star (class is_inner)) (class is_alphanumeric)))

-- ^(label\.)*label$
abbrev pub hostname_regex : Regex
hostname_regex = seq (star (seq label (class is_dot))) label

-- HostnameRegex.MatchString
unfoldable pub match_string : String → Bool
unfolding codes match_whole is_alphanumeric is_inner is_dot
match_string s = match_whole hostname_regex (codes s)
