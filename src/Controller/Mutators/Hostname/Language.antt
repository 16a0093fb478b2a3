-- ===== src/Controller/Mutators/Hostname/Language.antt =====
-- The matcher decides the language of the expression, and what a matching host name consists of.
use application_controller.Common.{
  String, ℕ, Bool, true, false, ◌||◌, List, [], ◌∷◌, ◌++◌, if◌then◌else◌, ◌≡◌, refl, ◌⊎◌, inl, inr,
  ap, sym, ◌∙◌, ◌↔◌, arith, Bool-cases, All, All-append, subst, nat_eq,
}
use application_controller.Controller.Mutators.Hostname.{
  Regex, nothing, epsilon, class, seq, alt, star, nullable, derivative, match_whole,
  is_alphanumeric, is_inner, is_dot, label, hostname_regex, codes, match_string,
}

-- A sequence of non-empty texts of the language.
pub data Star (P : List ℕ → Type 0) : List ℕ → Type 0 where
  done : Star P []
  more : (c : ℕ) (t u : List ℕ) → P (c ∷ t) → Star P u → Star P (c ∷ (t ++ u))

-- The texts that an expression describes.
abbrev pub Describes : Regex → List ℕ → Type 0
Describes nothing s = ⊥
Describes epsilon s = s ≡ []
Describes (class p) s = (c : ℕ) × (s ≡ c ∷ []) × (p c ≡ true)
Describes (seq r q) s = (t : List ℕ) × (u : List ℕ) × (s ≡ t ++ u) × Describes r t × Describes q u
Describes (alt r q) s = Describes r s ⊎ Describes q s
Describes (star r) s = Star (Describes r) s

nullable_sound : (r : Regex) → nullable r ≡ true → Describes r []
unfolding nullable
nullable_sound nothing h = cc
nullable_sound epsilon h = refl
nullable_sound (class p) h = cc
nullable_sound (seq r q) h =
    ([], [], refl, nullable_sound r (ground arith), nullable_sound q (ground arith))
nullable_sound (alt r q) h = elim (Bool-cases (nullable r)) [
  | inl e ↦ inl (nullable_sound r e)
  | inr e ↦ inr (nullable_sound q (ground arith))
]
nullable_sound (star r) h = done

class_sound :
    (c : ℕ) (p : ℕ → Bool) (s : List ℕ) (b : Bool)
    → p c ≡ b
    → Describes (if b then epsilon else nothing) s
    → Describes (class p) (c ∷ s)
class_sound c p s true e d = (c, ap (◌∷◌ c) d, e)
class_sound c p s false e d = elim d [ ]

-- A derivative of the first part, followed by the second part.
seq_first :
    (c : ℕ) (r q : Regex) (s : List ℕ)
    → ((t : List ℕ) → Describes (derivative c r) t → Describes r (c ∷ t))
    → Describes (seq (derivative c r) q) s
    → Describes (seq r q) (c ∷ s)
seq_first c r q s first (t, u, e, d, m) = (c ∷ t, u, ap (◌∷◌ c) e, first t d, m)

seq_sound :
    (c : ℕ) (r q : Regex) (s : List ℕ) (b : Bool)
    → nullable r ≡ b
    → ((t : List ℕ) → Describes (derivative c r) t → Describes r (c ∷ t))
    → (Describes (derivative c q) s → Describes q (c ∷ s))
    → Describes
        (if b then alt (seq (derivative c r) q) (derivative c q) else seq (derivative c r) q)
        s
    → Describes (seq r q) (c ∷ s)
seq_sound c r q s false e first second d = seq_first c r q s first d
seq_sound c r q s true e first second (inl d) = seq_first c r q s first d
seq_sound c r q s true e first second (inr d) = ([], c ∷ s, refl, nullable_sound r e, second d)

derivative_sound :
    (c : ℕ) (r : Regex) (s : List ℕ) → Describes (derivative c r) s → Describes r (c ∷ s)
unfolding derivative
derivative_sound c nothing s d = elim d [ ]
derivative_sound c epsilon s d = elim d [ ]
derivative_sound c (class p) s d = class_sound c p s (p c) refl d
derivative_sound c (seq r q) s d =
    seq_sound c r q s (nullable r) refl (derivative_sound c r) (derivative_sound c q s) d
derivative_sound c (alt r q) s (inl d) = inl (derivative_sound c r s d)
derivative_sound c (alt r q) s (inr d) = inr (derivative_sound c q s d)
derivative_sound c (star r) s (t, u, e, d, m) = rw e (more c t u (derivative_sound c r t d) m)

match_whole_sound : (r : Regex) (s : List ℕ) → match_whole r s ≡ true → Describes r s
unfolding match_whole
match_whole_sound r [] h = nullable_sound r h
match_whole_sound r (c ∷ s) h = derivative_sound c r s (match_whole_sound (derivative c r) s h)

nil_parts : (t u : List ℕ) → [] ≡ t ++ u → (t ≡ []) × (u ≡ [])
nil_parts [] u e = (refl, sym e)
nil_parts (a ∷ t) u e = cc

nullable_complete : (r : Regex) (s : List ℕ) → s ≡ [] → Describes r s → nullable r ≡ true
unfolding nullable
nullable_complete nothing s e d = elim d [ ]
nullable_complete epsilon s e d = refl
nullable_complete (class p) s e (c, f, _) = cc (e, f)
nullable_complete (seq r q) s e (t, u, f, d, m) =
    let parts = nil_parts t u (sym e ∙ f) in
    rw (nullable_complete r t parts.0 d) (nullable_complete q u parts.1 m)
nullable_complete (alt r q) s e (inl d) = rw (nullable_complete r s e d)
nullable_complete (alt r q) s e (inr d) = ground (arith, nullable_complete q s e d)
nullable_complete (star r) s e d = refl

class_complete :
    (c : ℕ) (p : ℕ → Bool) (s : List ℕ)
    → Describes (class p) (c ∷ s)
    → Describes (if p c then epsilon else nothing) s
class_complete c p s (a, e, h) =
    let same : a ≡ c = cc in
    let end : s ≡ [] = cc in let hit : p c ≡ true = subst (λ x. p x ≡ true) same h in rw hit end

-- Whichever part of a sequence takes the code point, a derivative describes the rest.
seq_complete :
    (c : ℕ) (r q : Regex) (s t u : List ℕ)
    → ((v : List ℕ) → Describes r (c ∷ v) → Describes (derivative c r) v)
    → (Describes q (c ∷ s) → Describes (derivative c q) s)
    → c ∷ s ≡ t ++ u
    → Describes r t
    → Describes q u
    → Describes
        (if nullable r
          then alt (seq (derivative c r) q) (derivative c q)
          else seq (derivative c r) q)
        s
seq_complete c r q s [] u first second e d m =
    rw (nullable_complete r [] refl d) (inr (second (subst (Describes q) (sym e) m)))
seq_complete c r q s (a ∷ t) u first second e d m = elim (Bool-cases (nullable r)) [
  | inl empty ↦ rw empty (inl found)
  | inr other ↦ rw other found
]
  where
    same : a ≡ c
    same = cc

    rest : s ≡ t ++ u
    rest = cc

    found : Describes (seq (derivative c r) q) s
    found = (t, u, rest, first t (subst (λ x. Describes r (x ∷ t)) same d), m)

star_complete :
    (c : ℕ) (r : Regex) (s : List ℕ) {w : List ℕ}
    → ((v : List ℕ) → Describes r (c ∷ v) → Describes (derivative c r) v)
    → w ≡ c ∷ s
    → Star (Describes r) w
    → Describes (seq (derivative c r) (star r)) s
star_complete c r s first e done = cc
star_complete c r s first e (more a t u d m) =
    let same : a ≡ c = cc in
    let rest : s ≡ t ++ u = cc in (t, u, rest, first t (subst (λ x. Describes r (x ∷ t)) same d), m)

derivative_complete :
    (c : ℕ) (r : Regex) (s : List ℕ) → Describes r (c ∷ s) → Describes (derivative c r) s
unfolding derivative
derivative_complete c nothing s d = elim d [ ]
derivative_complete c epsilon s d = cc
derivative_complete c (class p) s d = class_complete c p s d
derivative_complete c (seq r q) s (t, u, e, d, m) =
    seq_complete c r q s t u (derivative_complete c r) (derivative_complete c q s) e d m
derivative_complete c (alt r q) s (inl d) = inl (derivative_complete c r s d)
derivative_complete c (alt r q) s (inr d) = inr (derivative_complete c q s d)
derivative_complete c (star r) s d = star_complete c r s (derivative_complete c r) refl d

match_whole_complete : (r : Regex) (s : List ℕ) → Describes r s → match_whole r s ≡ true
unfolding match_whole
match_whole_complete r [] d = nullable_complete r [] refl d
match_whole_complete r (c ∷ s) d =
    match_whole_complete (derivative c r) s (derivative_complete c r s d)

-- For every regular expression and text, the matcher accepts exactly the texts that the
-- expression describes.
pub match_whole-Describes : (r : Regex) (s : List ℕ) → (match_whole r s ≡ true) ↔ Describes r s
match_whole-Describes r s = (match_whole_sound r s, match_whole_complete r s)

-- A letter, a digit, a hyphen or a dot.
abbrev pub is_host_code : ℕ → Bool
is_host_code c = is_inner c || is_dot c

abbrev pub AllHost : List ℕ → Type 0
AllHost = All (λ c. is_host_code c ≡ true)

-- Every class of the expression holds only such code points.
abbrev IsHostRegex : Regex → Type 0
IsHostRegex nothing = Unit {0}
IsHostRegex epsilon = Unit {0}
IsHostRegex (class p) = (c : ℕ) → p c ≡ true → is_host_code c ≡ true
IsHostRegex (seq r q) = IsHostRegex r × IsHostRegex q
IsHostRegex (alt r q) = IsHostRegex r × IsHostRegex q
IsHostRegex (star r) = IsHostRegex r

Star-AllHost :
    {P : List ℕ → Type 0} {s : List ℕ} → ((t : List ℕ) → P t → AllHost t) → Star P s → AllHost s
Star-AllHost h done = tt
Star-AllHost h (more c t u d m) = (
  (h (c ∷ t) d).0,
  All-append (λ a. is_host_code a ≡ true) t u (h (c ∷ t) d).1 (Star-AllHost h m),
)

Describes-AllHost : (r : Regex) (s : List ℕ) → IsHostRegex r → Describes r s → AllHost s
Describes-AllHost nothing s h d = elim d [ ]
Describes-AllHost epsilon s h d = rw d tt
Describes-AllHost (class p) s h (c, e, q) = rw e (h c q, tt)
Describes-AllHost (seq r q) s h (t, u, e, d, m) = rw e (
    All-append (λ a. is_host_code a ≡ true) t u (Describes-AllHost r t h.0 d)
      (Describes-AllHost q u h.1 m))
Describes-AllHost (alt r q) s h (inl d) = Describes-AllHost r s h.0 d
Describes-AllHost (alt r q) s h (inr d) = Describes-AllHost q s h.1 d
Describes-AllHost (star r) s h d = Star-AllHost (λ t. Describes-AllHost r t h) d

alphanumeric_host : (c : ℕ) → is_alphanumeric c ≡ true → is_host_code c ≡ true
unfolding is_inner
alphanumeric_host c h = rw h

inner_host : (c : ℕ) → is_inner c ≡ true → is_host_code c ≡ true
inner_host c h = rw h

dot_host : (c : ℕ) → is_dot c ≡ true → is_host_code c ≡ true
dot_host c h = ground arith

-- A host name that the reconciler accepts consists of letters, digits, hyphens and dots alone: in
-- the rule text Host(`…`) it cannot end the quotation.
pub match_string-AllHost : (s : String) → match_string s ≡ true → AllHost (codes s)
unfolding match_string
match_string-AllHost s h =
    Describes-AllHost hostname_regex (codes s) ((labels, dot_host), labels)
      (match_whole_sound hostname_regex (codes s) h)
  where
    labels : IsHostRegex label
    labels = (alphanumeric_host, (alphanumeric_host, (inner_host, alphanumeric_host)))
