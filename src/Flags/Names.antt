-- ===== src/Flags/Names.antt =====
-- Names as flag values: what Set accepts, and that it reads what String writes.
use Prim.Native.Char.{Char, code}
use Prim.Native.String as S
use Prim.Native.String.append
use text.Mathlib.TextEquality.{Char-path}
use application_controller.Common.{
  String, Bool, false, ◌||◌, Option, none, some, List, [], ◌∷◌, ◌++◌, ◌==◌, string_eq, nat_eq, ◌≡◌,
  ◌≢◌, refl, sym, ap, ◌∙◌, arith, Bool-cases, subst, subst₂, eq_of_beq, if_true, if_false, ◌⊎◌, inl,
  inr,
}
use application_controller.Errors.{Error, ok, err}
use application_controller.Kube.{NamespacedName}
use application_controller.Flags.{
  assign, cut, extend, name_of_parts, parse_name, append_name, set_name,
}

-- The text has a slash.
abbrev pub has_slash : String → Bool
has_slash S.[] = false
has_slash (S.◌∷◌ c s) = code c == 47 || has_slash s

abbrev slash : Char
slash = "/"

-- namespace + "/" + name
abbrev pub with_slash : NamespacedName → String
with_slash n = S.◌++◌ n.namespace (S.◌∷◌ slash n.name)

cut-slash :
    (before after : String)
    → has_slash before ≡ false
    → cut 47 (S.◌++◌ before (S.◌∷◌ slash after)) ≡ some (before, after)
unfolding cut
cut-slash S.[] after h = rw (append.nil (S.◌∷◌ slash after))
cut-slash (S.◌∷◌ c s) after h =
    rw (append.cons c s (S.◌∷◌ slash after)) (ground (arith, cut-slash s after))

IsNonempty : String → Type 0
IsNonempty S.[] = ⊥
IsNonempty (S.◌∷◌ c s) = Unit

nonempty-ne-nil : (s : String) → IsNonempty s → s ≢ ""
unfolding IsNonempty
nonempty-ne-nil s h e = subst IsNonempty e h

with_slash-IsNonempty : (before after : String) → IsNonempty (S.◌++◌ before (S.◌∷◌ slash after))
unfolding IsNonempty
with_slash-IsNonempty S.[] after = subst IsNonempty (sym (append.nil (S.◌∷◌ slash after))) tt
with_slash-IsNonempty (S.◌∷◌ c s) after =
    subst IsNonempty (sym (append.cons c s (S.◌∷◌ slash after))) tt

-- `value` is split at its first slash.
abbrev pub IsSplit : String → String → String → Type 0
IsSplit value before after =
    (value ≡ S.◌++◌ before (S.◌∷◌ slash after)) × (has_slash before ≡ false)

extend_inversion :
    (c : Char) (s before after : String) (rest : Option (String × String))
    → (code c == 47) ≡ false
    → ((b a : String) → rest ≡ some (b, a) → IsSplit s b a)
    → extend c rest ≡ some (before, after)
    → IsSplit (S.◌∷◌ c s) before after
extend_inversion c s before after none other ih h = cc
extend_inversion c s before after (some (b, a)) other ih h =
    let (whole, lacks) = ih b a refl in
    let split : IsSplit (S.◌∷◌ c s) (S.◌∷◌ c b) a =
      (ap (S.◌∷◌ c) whole ∙ sym (append.cons c b (S.◌∷◌ slash a)), ground (arith, other, lacks)) in
    let first : S.◌∷◌ c b ≡ before = ground (arith, h) in
    let second : a ≡ after = ground (arith, h) in subst₂ (IsSplit (S.◌∷◌ c s)) first second split

-- What cut finds is the first slash.
cut_inversion : (s before after : String) → cut 47 s ≡ some (before, after) → IsSplit s before after
unfolding cut
cut_inversion S.[] before after h = cc
cut_inversion (S.◌∷◌ c s) before after h = elim (Bool-cases (code c == 47)) [
  | inl at_slash ↦
      let found : some ("", s) ≡ some (before, after) = sym (if_true _ _ _ at_slash) ∙ h in
      let same = Char-path c slash (eq_of_beq (code c) 47 at_slash) in
      let split : IsSplit (S.◌∷◌ c s) "" s =
        (ap (λ d. S.◌∷◌ d s) same ∙ sym (append.nil (S.◌∷◌ slash s)), refl) in
      let first : ◌≡◌ {A = String} "" before = ground (arith, found) in
      let second : s ≡ after = ground (arith, found) in
      subst₂ (IsSplit (S.◌∷◌ c s)) first second split
  | inr other ↦
      extend_inversion c s before after (cut 47 s) other (cut_inversion s)
        (sym (if_false _ _ _ other) ∙ h)
]

cut-none : (s : String) → cut 47 s ≡ none → has_slash s ≡ false
unfolding cut
cut-none S.[] h = refl
cut-none (S.◌∷◌ c s) h = ground (arith, h, cut-none s)

-- `n` is what stands before and after the first slash of the value, or the value with no namespace.
abbrev pub IsParsed : String → NamespacedName → Type 0
IsParsed value n =
    IsSplit value n.namespace n.name
    ⊎ ((has_slash value ≡ false) × (n ≡ record { namespace = ""; name = value }))

name_of_parts-IsParsed :
    (value : String) (parts : Option (String × String))
    → cut 47 value ≡ parts
    → IsParsed value (name_of_parts value parts)
unfolding name_of_parts
name_of_parts-IsParsed value none h = inr (cut-none value h, refl)
name_of_parts-IsParsed value (some (before, after)) h = inl (cut_inversion value before after h)

parse_name-nonempty :
    (value : String) → value ≢ "" → parse_name value ≡ ok (name_of_parts value (cut 47 value))
unfolding parse_name
parse_name-nonempty value h = elim (Bool-cases (value == "")) [
  | inl empty ↦ absurd (h (eq_of_beq value "" empty))
  | inr other ↦ if_false _ _ _ other
]

-- Set of a NamespacedName takes every text but the empty one. A text with a slash is split at its
-- first slash, and any other is the name, with no namespace. The empty text is an error, and the
-- value stays.
pub set_name-IsParsed :
    (value : String) (v : NamespacedName)
    → ((value ≡ "") × (e : Error) × (set_name value v ≡ (err e, v)))
      ⊎ ((n : NamespacedName) × (set_name value v ≡ (ok tt, n)) × IsParsed value n)
unfolding set_name parse_name
set_name-IsParsed value v = elim (Bool-cases (value == "")) [
  | inl empty ↦
      inl (eq_of_beq value "" empty, _, ap (λ r. assign r v (λ n. n)) (if_true _ _ _ empty))
  | inr other ↦ inr (
    name_of_parts value (cut 47 value),
    ap (λ r. assign r v (λ n. n)) (if_false _ _ _ other),
    name_of_parts-IsParsed value (cut 47 value) refl,
  )
]

module _ (name_string : NamespacedName → String)
    (documented : (n : NamespacedName) → name_string n ≡ with_slash n) where
  parse_name-name_string :
      (n : NamespacedName) → has_slash n.namespace ≡ false → parse_name (name_string n) ≡ ok n
  unfolding name_of_parts
  parse_name-name_string n lacks =
      ap parse_name (documented n)
      ∙ parse_name-nonempty (with_slash n)
          (nonempty-ne-nil _ (with_slash-IsNonempty n.namespace n.name))
      ∙ ap (λ parts. ok (name_of_parts (with_slash n) parts)) (cut-slash n.namespace n.name lacks)

  -- If types.NamespacedName.String puts a slash between the namespace and the name, then the text of
  -- a name whose namespace has no slash sets a NamespacedName to it, and is appended as that name to
  -- a NamespacedNameSlice.
  pub set_name-name_string :
      (n v : NamespacedName) (vs : List NamespacedName)
      → has_slash n.namespace ≡ false
      → (set_name (name_string n) v ≡ (ok tt, n))
        × (append_name (name_string n) vs ≡ (ok tt, vs ++ n ∷ []))
  unfolding set_name append_name
  set_name-name_string n v vs lacks =
      let parsed = parse_name-name_string n lacks in
      (ap (λ r. assign r v (λ m. m)) parsed, ap (λ r. assign r vs (λ m. vs ++ m ∷ [])) parsed)
