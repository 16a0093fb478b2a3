-- ===== src/Images/Finder.antt =====
-- internal/images/imagefinder.go: the image that a version strategy selects. The registry
-- (RegistryClient) and the Masterminds semver library are interfaces.
pub mod Sorting
pub mod Semver
pub mod NotFound
use application_controller.Common.{
  String, Bool, true, false, Option, none, some, List, [], ◌∷◌, ◌==◌, string_eq, concat,
  if◌then◌else◌,
}
use application_controller.Errors.{
  Error, sentinel, errorf, wrap_before, wrap_after, err_not_found, Result, ok, err, ◌>>=◌,
}
use application_controller.Api.{
  ImageSpec, VersionStrategyDigestSpec, VersionStrategySemVerSpec, version_strategy_digest,
  version_strategy_semver,
}
use application_controller.Images.ImageRef.{ImageRef}

-- The registry at the time of a lookup.
pub record RegistryClient : Type 0 where
  pub list_tags : ImageRef → Result (List String)
  pub get_digest : ImageRef → Result String

-- github.com/Masterminds/semver/v3; `none` where NewVersion returns an error.
pub record SemverLibrary : Type 1 where
  pub Version : Type 0
  pub Constraint : Type 0
  pub new_version : String → Option Version
  pub new_constraint : String → Result Constraint
  pub check : Constraint → Version → Bool
  pub less_than : Version → Version → Bool

-- `%q` of a text with nothing to escape
quote : String → String
quote s = concat ("\"" ∷ s ∷ "\"" ∷ [])

-- fmt.Errorf("%w: no semver-like tags …", ErrNotFound, …)
unfoldable pub no_suitable_tag : String → String → Error
unfolding quote
no_suitable_tag constraint repo = wrap_before (sentinel err_not_found) (
    concat (
      ": no semver-like tags matching constraint "
      ∷ quote constraint
      ∷ " could be found for repo "
      ∷ quote repo
      ∷ []))

module _ (library : SemverLibrary) where
  open library use {Version, Constraint, new_version, new_constraint, check, less_than}

  -- The parsed tags, each with its tag; a tag that is no version is skipped.
  unfoldable pub parse_tags : List String → List (Version × String)
  parse_tags [] = []
  parse_tags (tag ∷ tags) =
      let rest = parse_tags tags in
      elim (new_version tag) [ none ↦ rest | some v ↦ (v, tag) ∷ rest ]

  insert_version : Version × String → List (Version × String) → List (Version × String)
  insert_version e [] = e ∷ []
  insert_version e (x ∷ xs) =
      let rest = x ∷ insert_version e xs in if less_than x.0 e.0 then e ∷ x ∷ xs else rest

  -- sort.Sort(sort.Reverse(semver.Collection(vs))): greatest first
  unfoldable pub sort_reverse : List (Version × String) → List (Version × String)
  unfolding insert_version
  sort_reverse [] = []
  sort_reverse (e ∷ es) = insert_version e (sort_reverse es)

  -- The tag of the first version that meets the constraint, or the empty tag.
  unfoldable pub first_match : Constraint → List (Version × String) → String
  first_match c [] = ""
  first_match c ((v, tag) ∷ es) = let rest = first_match c es in if check c v then tag else rest

  module _ (registry : RegistryClient) where
    open registry use {list_tags, get_digest}

    unfoldable pub find_image_by_digest :
        String → Option VersionStrategyDigestSpec → Result ImageRef
    find_image_by_digest repo none = err (errorf "`digest` version strategy spec is empty!")
    find_image_by_digest repo (some spec) = do
      let tag_ref : ImageRef = record { repository = repo; tag = spec.tag; digest = "" }
      digest ← get_digest tag_ref
      ok (record tag_ref { digest = digest })

    -- fmt.Errorf("failed to parse semver constraint %s: %w", …)
    parse_constraint : String → Result Constraint
    parse_constraint text = elim (new_constraint text) [
      | ok c ↦ ok c
      | err e ↦
          err (wrap_after e (concat ("failed to parse semver constraint " ∷ text ∷ ": " ∷ [])))
    ]

    unfoldable pub find_image_by_semver :
        String → Option VersionStrategySemVerSpec → Result ImageRef
    unfolding parse_constraint
    find_image_by_semver repo none = err (errorf "`semver` version strategy spec is empty!")
    find_image_by_semver repo (some spec) = do
      constraint ← parse_constraint spec.constraint
      let ref : ImageRef = record { repository = repo; tag = ""; digest = "" }
      tags ← list_tags ref
      let vs : List (Version × String) = sort_reverse (parse_tags tags)
      let tag : String = first_match constraint vs
      if tag == "" then err (no_suitable_tag spec.constraint repo) else (do
        let new_ref : ImageRef = record ref { tag = tag }
        digest ← get_digest new_ref
        ok (record new_ref { digest = digest }))

    -- (*imageFinder).FindImage
    unfoldable pub find_image : ImageSpec → Result ImageRef
    find_image spec =
        if spec.version_strategy == version_strategy_digest
        then find_image_by_digest spec.repository spec.digest
        else if spec.version_strategy == version_strategy_semver
        then find_image_by_semver spec.repository spec.semver
        else err (
            errorf
              (concat ("`" ∷ spec.version_strategy ∷ "` is not a supported versionStrategy." ∷ [])))
