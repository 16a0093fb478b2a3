-- ===== src/Controller/Cluster/Named.antt =====
-- Every object that the API server holds is held under its own name.
use application_controller.Common.{
  Option, none, some, List, [], ◌∷◌, ◌==◌, eq_of_beq, ◌≡◌, sym, inl, inr, subst, Bool-cases,
  if_true, if_false,
}
use application_controller.Kube.{NamespacedName, name_eq, Kind, Object}
use application_controller.Controller.State.{
  Call, get_application, get, list, upsert, delete, update, update_status, event,
}
use application_controller.Controller.Cluster.{Objects, name_of, as_kind, stored, written, erased}

-- Under a name there is nothing, or an object of the name.
abbrev pub IsNamedAs : (k : Kind) → NamespacedName → Option (Object k) → Type 0
IsNamedAs k n none = Unit
IsNamedAs k n (some o) = name_of k o ≡ n

abbrev pub IsNamed : Objects → Type 0
IsNamed objects = (k : Kind) (n : NamespacedName) → IsNamedAs k n (objects k n)

written-IsNamedAs :
    (k : Kind) (n : NamespacedName) (o before : Option (Object k))
    → IsNamedAs k n before
    → IsNamedAs k n (written k n o before)
unfolding written
written-IsNamedAs k n none before named = named
written-IsNamedAs k n (some o) before named = elim (Bool-cases (name_of k o == n)) [
  | inl same ↦ subst (IsNamedAs k n) (sym (if_true _ _ _ same)) (eq_of_beq (name_of k o) n same)
  | inr other ↦ subst (IsNamedAs k n) (sym (if_false _ _ _ other)) named
]

erased-IsNamedAs :
    (k : Kind) (n : NamespacedName) (o before : Option (Object k))
    → IsNamedAs k n before
    → IsNamedAs k n (erased k n o before)
unfolding erased
erased-IsNamedAs k n none before named = named
erased-IsNamedAs k n (some o) before named = elim (Bool-cases (name_of k o == n)) [
  | inl same ↦ subst (IsNamedAs k n) (sym (if_true _ _ _ same)) tt
  | inr other ↦ subst (IsNamedAs k n) (sym (if_false _ _ _ other)) named
]

pub stored-IsNamed :
    (initial : Objects) (calls : List Call) → IsNamed initial → IsNamed (stored initial calls)
unfolding stored
stored-IsNamed initial [] named k n = named k n
stored-IsNamed initial (upsert j o ∷ calls) named k n =
    written-IsNamedAs k n (as_kind j k o) _ (stored-IsNamed initial calls named k n)
stored-IsNamed initial (delete j o ∷ calls) named k n =
    erased-IsNamedAs k n (as_kind j k o) _ (stored-IsNamed initial calls named k n)
stored-IsNamed initial (get_application _ ∷ calls) named k n =
    stored-IsNamed initial calls named k n
stored-IsNamed initial (get _ _ ∷ calls) named k n = stored-IsNamed initial calls named k n
stored-IsNamed initial (list _ _ _ ∷ calls) named k n = stored-IsNamed initial calls named k n
stored-IsNamed initial (update _ ∷ calls) named k n = stored-IsNamed initial calls named k n
stored-IsNamed initial (update_status _ ∷ calls) named k n = stored-IsNamed initial calls named k n
stored-IsNamed initial (event _ _ ∷ calls) named k n = stored-IsNamed initial calls named k n
