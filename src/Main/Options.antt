-- ===== src/Main/Options.antt =====
-- The flags of cmd/main.go, and Go's flag.Parse on them. The flags that zap binds are an interface.
pub mod RoundTrip
use Prim.Native.Char.{code}
use Prim.Native.String as S
use application_controller.Common.{
  String, Bool, true, false, ◌||◌, Option, none, some, List, [], ◌∷◌, ◌==◌, string_eq, nat_eq, ◌&&◌,
  is_some, if◌then◌else◌,
}
use application_controller.Errors.{Error, errorf, Result, ok, err}
use application_controller.Kube.{NamespacedName}
use application_controller.Images.Scheduler.{CronSchedule}
use application_controller.Flags.{cut, set_name, append_name, append_string, set_cron_schedule}

-- zap.Options and the flags that its BindFlags defines.
pub record Zap : Type 1 where
  pub Options : Type 0
  pub initial : Options
  pub defines : String → Bool
  pub is_bool_flag : String → Bool
  pub set : String → String → Options → Result (Unit {0}) × Options

-- The variables of main that its flags set.
pub record Flags (Z : Type 0) : Type 0 where
  pub metrics_addr : String
  pub enable_leader_election : Bool
  pub probe_addr : String
  pub image_pull_secrets : List String
  pub traefik_middlewares : List NamespacedName
  pub traefik_auth_path_prefix : String
  pub traefik_auth_service_name : NamespacedName
  pub traefik_auth_service_port_name : String
  pub traefik_auth_middleware_name : NamespacedName
  pub traefik_cname_target : String
  pub default_update_schedule : CronSchedule
  pub zap_options : Z

-- The values before flag.Parse.
abbrev pub defaults : {Z : Type 0} → Z → Flags Z
defaults z = record {
  metrics_addr = ":8080";
  enable_leader_election = false;
  probe_addr = ":8081";
  image_pull_secrets = [];
  traefik_middlewares = [];
  traefik_auth_path_prefix = "/oauth2/";
  traefik_auth_service_name = record { namespace = ""; name = "" };
  traefik_auth_service_port_name = "http";
  traefik_auth_middleware_name = record { namespace = ""; name = "" };
  traefik_cname_target = "";
  default_update_schedule = "*/5 * * * * *";
  zap_options = z;
}

-- How flag.Parse ends: with the flags, with a message and the exit code 2, or with the usage and 0.
pub data Parsed (Z : Type 0) : Type 0 where
  parsed : Flags Z → Parsed Z
  invalid : String → Parsed Z
  help : Parsed Z

-- strconv.ParseBool
parse_bool : String → Result Bool
parse_bool s =
    if s == "1" || (s == "t" || (s == "T" || (s == "TRUE" || (s == "true" || s == "True"))))
    then ok true
    else if s == "0" || (s == "f" || (s == "F" || (s == "FALSE" || (s == "false" || s == "False"))))
    then ok false
    else err (errorf "parse error")

-- An argument of the command line, as parseOne reads it.
pub data Argument : Type 0 where
  -- `name`, with the text behind its `=`
  flag : String → Option String → Argument
  -- no flag, or `--`: the flags end here
  last : Argument
  bad_syntax : Argument

-- The name behind the dashes; a dash is 45 and `=` is 61.
name_and_value : String → Option (String × String) → Argument
name_and_value name none = flag name none
name_and_value name (some (before, after)) = flag before (some after)

flag_of : String → Argument
unfolding name_and_value cut
flag_of S.[] = bad_syntax
flag_of (S.◌∷◌ c s) =
    let name = S.◌∷◌ c s in
    if code c == 45 || code c == 61 then bad_syntax else name_and_value name (cut 61 name)

-- Behind the first dash.
behind_dash : String → Argument
unfolding flag_of
behind_dash S.[] = last
behind_dash (S.◌∷◌ c s) =
    if code c == 45 then (if s == "" then last else flag_of s) else flag_of (S.◌∷◌ c s)

unfoldable pub argument : String → Argument
unfolding behind_dash
argument S.[] = last
argument (S.◌∷◌ c s) = if code c == 45 then behind_dash s else last

module _ (parse_standard : String → Option Error) (zap : Zap) where
  -- The flag definitions: BoolVar, StringVar and Var.
  set_bool : Result Bool → Flags zap.Options → Result (Unit {0}) × Flags zap.Options
  set_bool (ok b) o = (ok tt, record o { enable_leader_election = b })
  set_bool (err e) o = (err e, o)

  -- flag.Set of the flag with this name; `none` if it is not defined.
  unfoldable pub set_flag :
      String → String → Flags zap.Options → Option (Result (Unit {0}) × Flags zap.Options)
  unfolding set_bool parse_bool set_name append_name append_string set_cron_schedule
  set_flag name value o =
      if name == "metrics-bind-address"
      then some (ok tt, record o { metrics_addr = value })
      else if name == "health-probe-bind-address"
      then some (ok tt, record o { probe_addr = value })
      else if name == "leader-elect"
      then some (set_bool (parse_bool value) o)
      else if name == "image-pull-secret"
      then (let (r, v) = append_string value o.image_pull_secrets in
          some (r, record o { image_pull_secrets = v }))
      else if name == "traefik-default-middleware"
      then (let (r, v) = append_name value o.traefik_middlewares in
          some (r, record o { traefik_middlewares = v }))
      else if name == "traefik-auth-path-prefix"
      then some (ok tt, record o { traefik_auth_path_prefix = value })
      else if name == "traefik-auth-service-name"
      then (let (r, v) = set_name value o.traefik_auth_service_name in
          some (r, record o { traefik_auth_service_name = v }))
      else if name == "traefik-auth-service-port-name"
      then some (ok tt, record o { traefik_auth_service_port_name = value })
      else if name == "traefik-auth-middleware-name"
      then (let (r, v) = set_name value o.traefik_auth_middleware_name in
          some (r, record o { traefik_auth_middleware_name = v }))
      else if name == "traefik-cname-target"
      then some (ok tt, record o { traefik_cname_target = value })
      else if name == "default-update-schedule"
      then (let (r, v) = set_cron_schedule parse_standard value o.default_update_schedule in
          some (r, record o { default_update_schedule = v }))
      else if zap.defines name
      then (let (r, v) = zap.set name value o.zap_options in some (r, record o { zap_options = v }))
      else none

  is_bool_flag : String → Bool
  is_bool_flag name = name == "leader-elect" || (zap.defines name && zap.is_bool_flag name)

  -- After an attempt to set a flag: go on, or end.
  after_set :
      String
      → Option (Result (Unit {0}) × Flags zap.Options)
      → (Flags zap.Options → Parsed zap.Options)
      → Parsed zap.Options
  after_set name none rest =
      if name == "help" || name == "h" then help else invalid "flag provided but not defined"
  after_set name (some (ok _, o)) rest = rest o
  after_set name (some (err _, o)) rest = invalid "invalid value for flag"

  is_defined : String → Flags zap.Options → Bool
  is_defined name o = is_some (set_flag name "" o)

  -- flag.Parse. A flag whose value is the next argument waits for it.
  parse_loop : List String → Option String → Flags zap.Options → Parsed zap.Options
  parse_loop [] none o = parsed o
  parse_loop [] (some name) o = invalid "flag needs an argument"
  parse_loop (value ∷ args) (some name) o =
      after_set name (set_flag name value o) (λ o'. parse_loop args none o')
  parse_loop (arg ∷ args) none o = elim (argument arg) [
    | last ↦ parsed o
    | bad_syntax ↦ invalid "bad flag syntax"
    | flag name (some value) ↦
        after_set name (set_flag name value o) (λ o'. parse_loop args none o')
    | flag name none ↦
        if is_bool_flag name
        then after_set name (set_flag name "true" o) (λ o'. parse_loop args none o')
        else if is_defined name o
        then parse_loop args (some name) o
        else after_set name none (λ o'. parsed o')
  ]

  unfoldable pub parse : List String → Parsed zap.Options
  unfolding parse_loop set_flag is_bool_flag after_set is_defined argument
  parse args = parse_loop args none (defaults zap.initial)
