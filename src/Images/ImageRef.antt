-- ===== src/Images/ImageRef.antt =====
-- internal/images/imageref.go
use application_controller.Common.{
  String, ◌==◌, string_eq, not, ◌&&◌, [], ◌∷◌, concat, if◌then◌else◌,
}

pub record ImageRef : Type 0 where
  pub repository : String
  pub tag : String
  pub digest : String

-- (*ImageRef).String
unfoldable pub to_string : ImageRef → String
to_string r =
    if not (r.tag == "") && not (r.digest == "")
    then concat (r.repository ∷ ":" ∷ r.tag ∷ "@" ∷ r.digest ∷ [])
    else if not (r.digest == "")
    then concat (r.repository ∷ "@" ∷ r.digest ∷ [])
    else if not (r.tag == "")
    then concat (r.repository ∷ ":" ∷ r.tag ∷ [])
    else concat (r.repository ∷ ":latest" ∷ [])
