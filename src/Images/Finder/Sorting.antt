-- ===== src/Images/Finder/Sorting.antt =====
-- The order in which the semver finder tries the versions.
use application_controller.Common.{
  String, ◌≡◌, true, false, ◌⊎◌, inl, inr, List, [], ◌∷◌, All, In, Bool-cases,
}
use application_controller.Images.Finder.{SemverLibrary, insert_version, sort_reverse}

-- `LessThan` of versions is the strict part of a total preorder.
pub record IsOrder (library : SemverLibrary) : Type 0 where
  pub asymmetric :
      (a b : library.Version) → library.less_than a b ≡ true → library.less_than b a ≡ false
  pub co_transitive :
      (a b c : library.Version)
      → library.less_than a b ≡ false
      → library.less_than b c ≡ false
      → library.less_than a c ≡ false

module _ (library : SemverLibrary) where
  open library use {Version, Constraint, new_version, check, less_than}

  -- No version of the list is greater than `v`.
  abbrev pub Bounds : Version → List (Version × String) → Type 0
  Bounds v = All (λ e. less_than v e.0 ≡ false)

  abbrev pub IsDescending : List (Version × String) → Type 0
  IsDescending [] = Unit {0}
  IsDescending (e ∷ es) = Bounds e.0 es × IsDescending es

  All-insert_version :
      (P : Version × String → Type 0) (e : Version × String) (es : List (Version × String))
      → P e
      → All P es
      → All P (insert_version library e es)
  unfolding insert_version
  All-insert_version P e [] h hs = (h, tt)
  All-insert_version P e (x ∷ xs) h hs = elim (Bool-cases (less_than x.0 e.0)) [
    | inl below ↦ rw below (h, hs)
    | inr above ↦ rw above (hs.0, All-insert_version P e xs h hs.1)
  ]

  pub All-sort_reverse :
      (P : Version × String → Type 0) (es : List (Version × String))
      → All P es
      → All P (sort_reverse library es)
  unfolding sort_reverse
  All-sort_reverse P [] hs = tt
  All-sort_reverse P (e ∷ es) hs = All-insert_version P e _ hs.0 (All-sort_reverse P es hs.1)

  In-skip :
      (a e x : Version × String) (xs : List (Version × String)) {after : Type 0}
      → ((a ≡ e) ⊎ In a xs → after)
      → (a ≡ e) ⊎ In a (x ∷ xs)
      → (a ≡ x) ⊎ after
  In-skip a e x xs k (inl here) = inr (k (inl here))
  In-skip a e x xs k (inr (inl first)) = inl first
  In-skip a e x xs k (inr (inr rest)) = inr (k (inr rest))

  In-insert_version :
      (a e : Version × String) (es : List (Version × String))
      → (a ≡ e) ⊎ In a es
      → In a (insert_version library e es)
  unfolding insert_version
  In-insert_version a e [] h = h
  In-insert_version a e (x ∷ xs) h = elim (Bool-cases (less_than x.0 e.0)) [
    | inl below ↦ rw below h
    | inr above ↦ rw above (In-skip a e x xs (In-insert_version a e xs) h)
  ]

  pub In-sort_reverse :
      (a : Version × String) (es : List (Version × String))
      → In a es
      → In a (sort_reverse library es)
  unfolding sort_reverse
  In-sort_reverse a [] h = h
  In-sort_reverse a (e ∷ es) (inl here) = In-insert_version a e _ (inl here)
  In-sort_reverse a (e ∷ es) (inr rest) = In-insert_version a e _ (inr (In-sort_reverse a es rest))

  module _ (order : IsOrder library) where
    Bounds-trans :
        (a b : Version) (es : List (Version × String))
        → less_than a b ≡ false
        → Bounds b es
        → Bounds a es
    Bounds-trans a b [] h hs = tt
    Bounds-trans a b (e ∷ es) h hs =
        (order.co_transitive a b e.0 h hs.0, Bounds-trans a b es h hs.1)

    insert_version-IsDescending :
        (e : Version × String) (es : List (Version × String))
        → IsDescending es
        → IsDescending (insert_version library e es)
    unfolding insert_version
    insert_version-IsDescending e [] h = (tt, tt)
    insert_version-IsDescending e (x ∷ xs) h = elim (Bool-cases (less_than x.0 e.0)) [
      | inl below ↦ rw below (
        (
          order.asymmetric x.0 e.0 below,
          Bounds-trans e.0 x.0 xs (order.asymmetric x.0 e.0 below) h.0,
        ),
        h,
      )
      | inr above ↦ rw above (
        All-insert_version (λ y. less_than x.0 y.0 ≡ false) e xs above h.0,
        insert_version-IsDescending e xs h.1,
      )
    ]

    pub sort_reverse-IsDescending :
        (es : List (Version × String)) → IsDescending (sort_reverse library es)
    unfolding sort_reverse
    sort_reverse-IsDescending [] = tt
    sort_reverse-IsDescending (e ∷ es) =
        insert_version-IsDescending e _ (sort_reverse-IsDescending es)
