-- ===== src/Errors.antt =====
-- Go errors as values: sentinels (the `Err...` variables of internal/controller and
-- internal/images), wrapping by `fmt.Errorf` with `%w`, `errors.Is`, `errors.Join`, and the
-- `(value, error)` results of fallible functions.
use application_controller.Common.{
  String, Bool, true, false, ◌||◌, [], ◌∷◌, concat, ◌≡◌, refl, ◌⊎◌, inl, inr,
}

-- The package-level error variables.
pub data Sentinel : Type 0 where
  err_not_found err_image_check_failed err_no_ingress_route_port err_bad_host : Sentinel
  err_invalid_auth_config err_unknown_lb_service_port err_no_metrics_port : Sentinel

pub data Error : Type 0 where
  -- an error of the API server, the registry or a library: its status reason and its text
  foreign : String → String → Error
  sentinel : Sentinel → Error
  -- fmt.Errorf with no `%w`
  errorf : String → Error
  -- fmt.Errorf("%w" + text) and fmt.Errorf(text + "%w")
  wrap_before wrap_after : Error → String → Error
  -- fmt.Errorf("%w: %w", a, b)
  wrap_both : Error → Error → Error
  -- errors.Join
  join : Error → Error → Error

abbrev pub same_sentinel : Sentinel → Sentinel → Bool
same_sentinel err_not_found err_not_found = true
same_sentinel err_image_check_failed err_image_check_failed = true
same_sentinel err_no_ingress_route_port err_no_ingress_route_port = true
same_sentinel err_bad_host err_bad_host = true
same_sentinel err_invalid_auth_config err_invalid_auth_config = true
same_sentinel err_unknown_lb_service_port err_unknown_lb_service_port = true
same_sentinel err_no_metrics_port err_no_metrics_port = true
same_sentinel _ _ = false

-- errors.Is(err, target) for a sentinel target: somewhere in the tree of wrapped errors.
unfoldable pub is : Error → Sentinel → Bool
is (foreign _ _) t = false
is (sentinel s) t = same_sentinel s t
is (errorf _) t = false
is (wrap_before e _) t = is e t
is (wrap_after e _) t = is e t
is (wrap_both a b) t = is a t || is b t
is (join a b) t = is a t || is b t

sentinel_text : Sentinel → String
sentinel_text err_not_found = "Suitable image not found"
sentinel_text err_image_check_failed = "Failed to check for new versions of the image"
sentinel_text err_no_ingress_route_port =
    "Could not find the port for IngressRoute. Either specify one explicitly, or ensure there's a port named \"http\" or \"web\""
sentinel_text err_bad_host = "Malformed host for IngressRoute"
sentinel_text err_invalid_auth_config = "Auth configuration is invalid"
sentinel_text err_unknown_lb_service_port = "loadBalancer specifies an unknown port name"
sentinel_text err_no_metrics_port =
    "No monitoring port is specified, and there's no port named \"metrics\" or \"prometheus\""

-- err.Error()
unfoldable pub message : Error → String
unfolding sentinel_text
message (foreign _ text) = text
message (sentinel s) = sentinel_text s
message (errorf text) = text
message (wrap_before e text) = concat (message e ∷ text ∷ [])
message (wrap_after e text) = concat (text ∷ message e ∷ [])
message (wrap_both a b) = concat (message a ∷ ": " ∷ message b ∷ [])
message (join a b) = concat (message a ∷ "\n" ∷ message b ∷ [])

pub data Result {ℓ} (A : Type ℓ) : Type ℓ where
  ok : A → Result A
  err : Error → Result A

infixl 5 ◌>>=◌
abbrev pub ◌>>=◌ {ℓ κ} : {A : Type ℓ} {B : Type κ} → Result A → (A → Result B) → Result B
ok a >>= f = f a
err e >>= f = err e

pub Result-cases {ℓ} :
    {A : Type ℓ} (r : Result A) → ((a : A) × (r ≡ ok a)) ⊎ ((e : Error) × (r ≡ err e))
Result-cases (ok a) = inl (a, refl)
Result-cases (err e) = inr (e, refl)
