-- ===== src/Flags.antt =====
-- internal/flag: the values of command line flags. `String` and `Set` of a value, where `Set` answers
-- whether it failed and the value after it. Of Go's library, strings.SplitN is for the separator "/"
-- and two parts, and encoding/json is an interface.
pub mod Names
use Prim.Native.Char.{Char, code}
use Prim.Native.String as S
use application_controller.Common.{
  String, ℕ, Option, none, some, List, [], ◌∷◌, ◌++◌, GoMap, ◌==◌, string_eq, nat_eq, concat, map,
  if◌then◌else◌,
}
use application_controller.Errors.{Error, errorf, wrap_after, Result, ok, err}
use application_controller.Kube.{NamespacedName}
use application_controller.Images.Scheduler.{CronSchedule}

-- What stands before and after the first character with the code; a slash is 47.
abbrev pub extend : Char → Option (String × String) → Option (String × String)
extend c none = none
extend c (some (before, after)) = some (S.◌∷◌ c before, after)

unfoldable pub cut : ℕ → String → Option (String × String)
cut separator S.[] = none
cut separator (S.◌∷◌ c s) =
    let rest = extend c (cut separator s) in if code c == separator then some ("", s) else rest

-- The switch on the length of strings.SplitN(value, "/", 2).
unfoldable pub name_of_parts : String → Option (String × String) → NamespacedName
name_of_parts value none = record { namespace = ""; name = value }
name_of_parts value (some (namespace, name)) = record { namespace = namespace; name = name }

-- The common part of both Set methods for names.
unfoldable pub parse_name : String → Result NamespacedName
unfolding cut name_of_parts
parse_name value =
    if value == ""
    then err (errorf "invalid namespaced name: \"\"")
    else ok (name_of_parts value (cut 47 value))

-- `*v = …` for a value that was parsed
assign : {A V : Type 0} → Result A → V → (A → V) → Result (Unit {0}) × V
assign (ok a) v with_value = (ok tt, with_value a)
assign (err e) v with_value = (err e, v)

-- (*NamespacedName).Set; the struct around the name is left out.
unfoldable pub set_name : String → NamespacedName → Result (Unit {0}) × NamespacedName
unfolding assign parse_name
set_name value v = assign (parse_name value) v (λ n. n)

-- (*NamespacedNameSlice).Set
unfoldable pub append_name : String → List NamespacedName → Result (Unit {0}) × List NamespacedName
unfolding assign parse_name
append_name value v = assign (parse_name value) v (λ n. v ++ n ∷ [])

-- strings.Join(parts, ",")
unfoldable pub join_comma : List String → String
join_comma [] = ""
join_comma (s ∷ []) = s
join_comma (s ∷ t ∷ ss) = concat (s ∷ "," ∷ join_comma (t ∷ ss) ∷ [])

-- (*NamespacedNameSlice).String; `name_string` is types.NamespacedName.String, and the whole of
-- (*NamespacedName).String.
unfoldable pub names_string : (NamespacedName → String) → List NamespacedName → String
unfolding join_comma
names_string name_string names = join_comma (map name_string names)

-- (*StringSlice).String and Set, which never fails
unfoldable pub strings_string : List String → String
unfolding join_comma
strings_string v = join_comma v

unfoldable pub append_string : String → List String → Result (Unit {0}) × List String
append_string value v = (ok tt, v ++ value ∷ [])

-- `parse_standard` is cron.ParseStandard of github.com/robfig/cron/v3: its error, if there is one.
module _ (parse_standard : String → Option Error) where
  unfoldable pub checked : String → CronSchedule → Option Error → Result (Unit {0}) × CronSchedule
  checked value v none = (ok tt, value)
  checked value v (some e) = (err (wrap_after e "failed to parse cron schedule: "), v)

  -- (*CronSchedule).Set; its String and Get are conversions that keep the text.
  unfoldable pub set_cron_schedule : String → CronSchedule → Result (Unit {0}) × CronSchedule
  unfolding checked
  set_cron_schedule value v = checked value v (parse_standard value)

-- encoding/json on maps of texts: Unmarshal into a map, with what the map is after it, and
-- MarshalIndent; fmt's `%v` of a map.
pub record JsonLibrary : Type 0 where
  pub unmarshal : String → GoMap String String → Option Error × GoMap String String
  pub marshal_indent : GoMap String String → Result String
  pub show_map : GoMap String String → String

module _ (json : JsonLibrary) where
  open json use {unmarshal, marshal_indent, show_map}

  stored : Option Error × GoMap String String → Result (Unit {0}) × GoMap String String
  stored (none, after) = (ok tt, after)
  stored (some e, after) = (err (wrap_after e "failed to set JSON flag: "), after)

  -- (*JSONStringMap).Set and String
  unfoldable pub set_json : String → GoMap String String → Result (Unit {0}) × GoMap String String
  unfolding stored
  set_json value v = stored (unmarshal value v)

  serialized : GoMap String String → Result String → String
  serialized v (ok text) = text
  serialized v (err _) = concat ("Invalid JSON: " ∷ show_map v ∷ [])

  unfoldable pub json_string : GoMap String String → String
  unfolding serialized
  json_string v = serialized v (marshal_indent v)
