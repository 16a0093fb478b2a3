-- ===== src/Images/Finder/NotFound.antt =====
-- When the semver strategy of internal/images/imagefinder.go finds no tag.
use application_controller.Common.{
  String, ◌≡◌, refl, true, false, ◌⊎◌, inl, inr, some, List, [], ◌∷◌, All, In, arith, Bool-cases,
  string_eq, eq_iff,
}
use application_controller.Errors.{Error, err_not_found, is, ok, err}
use application_controller.Api.{VersionStrategySemVerSpec}
use application_controller.Images.Finder.{
  SemverLibrary, RegistryClient, no_suitable_tag, parse_tags, sort_reverse, first_match,
  find_image_by_semver,
}
use application_controller.Images.Finder.Sorting.{All-sort_reverse}
use application_controller.Images.Finder.Semver.{Matches, IsParsed, parse_tags-IsParsed}

module _ (library : SemverLibrary) (registry : RegistryClient) (repo : String)
    (spec : VersionStrategySemVerSpec) (c : library.Constraint) (tags : List String)
    (valid : library.new_constraint spec.constraint ≡ ok c)
    (listed : registry.list_tags (record { repository = repo; tag = ""; digest = "" })
      ≡ ok tags) where
  abbrev Refused : library.Version × String → Type 0
  Refused e = library.check c e.0 ≡ false

  first_match_none :
      (es : List (library.Version × String)) → All Refused es → first_match library c es ≡ ""
  unfolding first_match
  first_match_none [] h = refl
  first_match_none ((v, tag) ∷ es) h = rw h.0 (first_match_none es h.1)

  All-Refused :
      (es : List (library.Version × String))
      → ((tag : String) → In tag tags → ¬ Matches library c tag)
      → All (IsParsed library tags) es
      → All Refused es
  All-Refused [] no_match h = tt
  All-Refused ((v, tag) ∷ es) no_match h =
      (refused (Bool-cases (library.check c v)), All-Refused es no_match h.1)
    where
      refused : (library.check c v ≡ true) ⊎ (library.check c v ≡ false) → library.check c v ≡ false
      refused (inl hit) =
          absurd (no_match tag h.0.0 (record { version = v; parsed = h.0.1; checked = hit }))
      refused (inr miss) = miss

  -- Let the constraint parse and the registry list the tags. If no listed tag meets the
  -- constraint, FindImage under the SemVer strategy fails, with an error that is ErrNotFound.
  find_image_by_semver_not_found :
      ((tag : String) → In tag tags → ¬ Matches library c tag)
      → (e : Error) × (find_image_by_semver library registry repo (some spec) ≡ err e)
        × (is e err_not_found ≡ true)
  unfolding find_image_by_semver is no_suitable_tag
  find_image_by_semver_not_found no_match = (
    no_suitable_tag spec.constraint repo,
    ground (arith, nothing, eq_iff (first_match library c sorted_tags) ""),
    refl,
  )
    where
      sorted_tags : List (library.Version × String)
      sorted_tags = sort_reverse library (parse_tags library tags)

      nothing : first_match library c sorted_tags ≡ ""
      nothing = first_match_none _ (
          All-sort_reverse library Refused _
            (All-Refused _ no_match (parse_tags-IsParsed library tags)))
