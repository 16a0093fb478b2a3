-- ===== src/Examples/Finding.antt =====
-- Examples of the theorems on the selection of a tag.
use application_controller.Common.{
  String, ℕ, Bool, true, false, none, some, List, [], ◌∷◌, In, ◌==◌, string_eq, ◌≡◌, refl, arith,
  inl, if◌then◌else◌,
}
use application_controller.Errors.{ok}
use application_controller.Api.{VersionStrategySemVerSpec}
use application_controller.Images.Finder.{SemverLibrary, RegistryClient, find_image_by_semver}
use application_controller.Images.Finder.Sorting.{IsOrder}
use application_controller.Images.Finder.Semver.{Matches, IsBest, find_image_by_semver-IsBest}
use Prim.Native.Nat.{compare, Ordering}

abbrev below : ℕ → ℕ → Bool
below a b = elim (compare a b) [ Ordering.lt ↦ true | _ ↦ false ]

-- The versions 1.2.0, 1.10.0 and 2.0.0; a constraint is the least version that it excludes.
abbrev versions : SemverLibrary
versions = record {
  Version = ℕ;
  Constraint = ℕ;
  new_version = λ tag.
      if tag == "1.2.0"
      then some 102
      else if tag == "1.10.0"
      then some 110
      else if tag == "2.0.0"
      then some 200
      else none;
  new_constraint = λ text. if text == "1.x" then ok 200 else ok 100;
  check = λ c v. below v c;
  less_than = below;
}

versions-IsOrder : IsOrder versions
versions-IsOrder = record {
  asymmetric = λ a b h. ground arith;
  co_transitive = λ a b c h h'. ground arith;
}

abbrev tags : List String
tags = "1.2.0" ∷ "latest" ∷ "1.10.0" ∷ "2.0.0" ∷ []

abbrev registry : RegistryClient
registry = record { list_tags = λ ref. ok tags; get_digest = λ ref. ok "sha256:1" }

abbrev one : VersionStrategySemVerSpec
one = record { constraint = "1.x" }

-- A constraint that no tag meets.
abbrev ancient : VersionStrategySemVerSpec
ancient = record { constraint = "0.x" }

find_image_by_semver-IsBest_example :
    (tag : String) × IsBest versions 200 tags tag
    × (find_image_by_semver versions registry "example/web" (some one)
        ≡ ok (record { repository = "example/web"; tag = tag; digest = "sha256:1" }))
find_image_by_semver-IsBest_example =
    find_image_by_semver-IsBest versions registry "example/web" one 200 tags refl refl
      versions-IsOrder "1.2.0" refl (inl refl)
      (record { version = 102; parsed = refl; checked = refl })

nothing_fits : (tag : String) → In tag tags → ¬ Matches versions 100 tag
nothing_fits tag listed m = ground (arith, m.parsed, m.checked)
