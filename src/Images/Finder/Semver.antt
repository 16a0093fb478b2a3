-- ===== src/Images/Finder/Semver.antt =====
-- Which tag the semver strategy of internal/images/imagefinder.go selects.
use application_controller.Common.{
  String, ◌≡◌, refl, true, false, inl, inr, none, some, List, [], ◌∷◌, All, In, arith, Bool-cases,
  Option-cases, ap, subst, ◌==◌, string_eq, eq_iff,
}
use application_controller.Errors.{Result, ok, ◌>>=◌}
use application_controller.Api.{VersionStrategySemVerSpec}
use application_controller.Images.ImageRef.{ImageRef}
use application_controller.Images.Finder.{
  SemverLibrary, RegistryClient, parse_tags, sort_reverse, first_match, find_image_by_semver,
}
use application_controller.Images.Finder.Sorting.{
  IsOrder, Bounds, IsDescending, All-sort_reverse, In-sort_reverse, sort_reverse-IsDescending,
}

module _ (library : SemverLibrary) where
  open library use {Version, Constraint, new_version, new_constraint, check, less_than}

  -- `tag` is a version that meets the constraint.
  pub record Matches (c : Constraint) (tag : String) : Type 0 where
    pub version : Version
    pub parsed : new_version tag ≡ some version
    pub checked : check c version ≡ true

  -- `tag` is one of the tags, it meets the constraint, and no tag that does is a greater version.
  pub record IsBest (c : Constraint) (tags : List String) (tag : String) : Type 0 where
    pub listed : In tag tags
    pub match : Matches c tag
    pub greatest :
        (other : String) (v : Version)
        → In other tags
        → new_version other ≡ some v
        → check c v ≡ true
        → less_than match.version v ≡ false

  In-parse_tags :
      (tags : List String) (tag : String) (v : Version)
      → In tag tags
      → new_version tag ≡ some v
      → In (v, tag) (parse_tags library tags)
  unfolding parse_tags
  In-parse_tags (t ∷ tags) tag v (inl here) p =
      subst (λ x. In (v, tag) (parse_tags library (x ∷ tags))) here (rw (p, parse_tags) (inl refl))
  In-parse_tags (t ∷ tags) tag v (inr rest) p = elim (Option-cases (new_version t)) [
    | inl e ↦ rw (e, parse_tags) (In-parse_tags tags tag v rest p)
    | inr (w, e) ↦ rw (e, parse_tags) (inr (In-parse_tags tags tag v rest p))
  ]
  In-parse_tags [] tag v h p = elim h [ ]

  -- Every entry is a tag with its version.
  abbrev pub IsParsed : List String → Version × String → Type 0
  IsParsed tags e = In e.1 tags × (new_version e.1 ≡ some e.0)

  All-weaken :
      (tag : String) (tags : List String) (es : List (Version × String))
      → All (IsParsed tags) es
      → All (IsParsed (tag ∷ tags)) es
  All-weaken tag tags [] hs = tt
  All-weaken tag tags (e ∷ es) hs = ((inr hs.0.0, hs.0.1), All-weaken tag tags es hs.1)

  pub parse_tags-IsParsed : (tags : List String) → All (IsParsed tags) (parse_tags library tags)
  unfolding parse_tags
  parse_tags-IsParsed [] = tt
  parse_tags-IsParsed (t ∷ tags) = elim (Option-cases (new_version t)) [
    | inl e ↦ rw (e, parse_tags) (All-weaken t tags _ (parse_tags-IsParsed tags))
    | inr (v, e) ↦
        rw (e, parse_tags) ((inl refl, e), All-weaken t tags _ (parse_tags-IsParsed tags))
  ]

  All_at :
      (P : Version × String → Type 0) (a : Version × String) (es : List (Version × String))
      → All P es
      → In a es
      → P a
  All_at P a (e ∷ es) hs (inl here) = rw here hs.0
  All_at P a (e ∷ es) hs (inr rest) = All_at P a es hs.1 rest
  All_at P a [] hs h = elim h [ ]

  -- The first entry of a descending list that meets the constraint is a greatest such entry.
  record IsSelected (c : Constraint) (es : List (Version × String)) : Type 0 where
    version : Version
    tag : String
    chosen : first_match library c es ≡ tag
    present : In (version, tag) es
    checked : check c version ≡ true
    greatest : All (λ e. check c e.0 ≡ true → less_than version e.0 ≡ false) es

  module _ (order : IsOrder library) (c : Constraint) where
    not_less_self : (v : Version) → less_than v v ≡ false
    not_less_self v = ground (arith, order.asymmetric v v)

    All-Bounds :
        (v : Version) (es : List (Version × String))
        → Bounds library v es
        → All (λ e. check c e.0 ≡ true → less_than v e.0 ≡ false) es
    All-Bounds v [] h = tt
    All-Bounds v (e ∷ es) h = (λ _. h.0, All-Bounds v es h.1)

    first_match-IsSelected :
        (es : List (Version × String)) (v : Version) (tag : String)
        → IsDescending library es
        → In (v, tag) es
        → check c v ≡ true
        → IsSelected c es
    unfolding first_match
    first_match-IsSelected [] v tag d h p = elim h [ ]
    first_match-IsSelected ((w, t) ∷ es) v tag d h p = elim (Bool-cases (check c w)) [
      | inl hit ↦ record {
        version = w;
        tag = t;
        chosen = rw hit;
        present = inl refl;
        checked = hit;
        greatest = (λ _. not_less_self w, All-Bounds w es d.0);
      }
      | inr miss ↦ later miss h (λ rest. first_match-IsSelected es v tag d.1 rest p)
    ]
      where
        skip : check c w ≡ false → IsSelected c es → IsSelected c ((w, t) ∷ es)
        skip miss f = record {
          version = f.version;
          tag = f.tag;
          chosen = rw miss f.chosen;
          present = inr f.present;
          checked = f.checked;
          greatest = (λ hit. cc, f.greatest);
        }

        later :
            check c w ≡ false
            → In (v, tag) ((w, t) ∷ es)
            → (In (v, tag) es → IsSelected c es)
            → IsSelected c ((w, t) ∷ es)
        later miss (inl here) k = cc (ap (λ (e : Version × String). check c e.0) here)
        later miss (inr rest) k = skip miss (k rest)

  module _ (order : IsOrder library) (c : Constraint) (tags : List String) where
    abbrev sorted : List (Version × String)
    sorted = sort_reverse library (parse_tags library tags)

    IsSelected-IsBest : (f : IsSelected c sorted) → IsBest c tags f.tag
    IsSelected-IsBest f = record {
      listed = entry.0;
      match = record { version = f.version; parsed = entry.1; checked = f.checked };
      greatest = λ other v present parsed.
          All_at _ (v, other) sorted f.greatest
            (In-sort_reverse library _ _ (In-parse_tags tags other v present parsed));
    }
      where
        entry : IsParsed tags (f.version, f.tag)
        entry =
            All_at (IsParsed tags) _ sorted
              (All-sort_reverse library (IsParsed tags) _ (parse_tags-IsParsed tags)) f.present

    sorted-IsSelected : (other : String) → In other tags → Matches c other → IsSelected c sorted
    sorted-IsSelected other present m =
        first_match-IsSelected order c sorted m.version other
          (sort_reverse-IsDescending library order _)
          (In-sort_reverse library _ _ (In-parse_tags tags other m.version present m.parsed))
          m.checked

  Matches-ne-empty :
      (c : Constraint) (tag : String) → new_version "" ≡ none → Matches c tag → (tag == "") ≡ false
  Matches-ne-empty c tag none_empty m = elim (Bool-cases (tag == "")) [
    | inl e ↦ cc (ap new_version ((eq_iff tag "").0 e), m.parsed)
    | inr e ↦ e
  ]

module _ (library : SemverLibrary) (registry : RegistryClient) (repo : String)
    (spec : VersionStrategySemVerSpec) (c : library.Constraint) (tags : List String)
    (valid : library.new_constraint spec.constraint ≡ ok c)
    (listed : registry.list_tags (record { repository = repo; tag = ""; digest = "" })
      ≡ ok tags) where
  -- The image of a tag: the tag with the digest that the registry has for it.
  abbrev pub with_digest : String → Result ImageRef
  with_digest tag = do
    let ref : ImageRef = record { repository = repo; tag = tag; digest = "" }
    digest ← registry.get_digest ref
    ok (record ref { digest = digest })

  -- Let the constraint parse and the registry list the tags, let versions be totally preordered,
  -- and let the empty text be no version. If some listed tag meets the constraint, then FindImage
  -- under the SemVer strategy answers with the digest lookup of a tag that is listed, meets the
  -- constraint, and has a version that no other such tag exceeds.
  pub find_image_by_semver-IsBest :
      (order : IsOrder library) (other : String)
      → library.new_version "" ≡ none
      → In other tags
      → Matches library c other
      → (tag : String) × IsBest library c tags tag
        × (find_image_by_semver library registry repo (some spec) ≡ with_digest tag)
  unfolding find_image_by_semver
  find_image_by_semver-IsBest order other none_empty present m = (
    f.tag,
    best,
    ground (arith, f.chosen, Matches-ne-empty library c f.tag none_empty best.match),
  )
    where
      f : IsSelected library c (sorted library order c tags)
      f = sorted-IsSelected library order c tags other present m

      best : IsBest library c tags f.tag
      best = IsSelected-IsBest library order c tags f
