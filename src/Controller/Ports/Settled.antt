-- ===== src/Controller/Ports/Settled.antt =====
-- Ports that have been reconciled stay as they are when they are reconciled again.
use application_controller.Common.{
  String, Bool, true, false, Option, none, some, is_some, List, [], ◌∷◌, ◌++◌, GoMap, lookup,
  string_eq, ◌==◌, beq_refl, ◌≡◌, refl, sym, ◌∙◌, ap, arith, All, All-append, All-map, All-zip,
  append_assoc, append-nil, or_else, if◌then◌else◌,
}
use application_controller.Kube.{ContainerPort, ServicePort}
use application_controller.Controller.Ports.{
  by_name, adopt_one, adopt_actual, append_new, reconcile_ports, adopt_container_port,
  reconcile_container_ports, adopt_service_port, reconcile_service_ports,
}
use application_controller.Controller.Ports.Lookup.{
  find, find_last, lookup-by_name, adopted, saw, seen-adopt_actual, find-reconcile_ports,
}
use application_controller.Controller.Ports.Count.{count, IsDistinct}

module _ {P : Type 0} (name_of : P → String) (adopt : P → P → P)
    (keeps_name : (got want : P) → name_of (adopt got want) ≡ name_of got)
    (adopt_twice : (got want : P) → adopt (adopt got want) want ≡ adopt got want)
    (adopt_self : (p : P) → adopt p p ≡ p) where
  -- The port has a desired name, and what it adopts changes nothing.
  abbrev IsSettled : GoMap String P → P → Type 0
  IsSettled desired p = (want : P) × (lookup (name_of p) desired ≡ some want) × (adopt p want ≡ p)

  adopt_one-settled :
      (desired : GoMap String P) (p : P) (acc : List P × GoMap String Bool)
      → IsSettled desired p
      → (adopt_one name_of adopt p (lookup (name_of p) desired) acc).0 ≡ acc.0 ++ p ∷ []
  unfolding adopt_one
  adopt_one-settled desired p acc (want, held, same) =
      ap (λ o. (adopt_one name_of adopt p o acc).0) held ∙ ap (λ q. acc.0 ++ q ∷ []) same

  adopt_actual-settled :
      (desired : GoMap String P) (ps : List P) (acc : List P × GoMap String Bool)
      → All (IsSettled desired) ps
      → (adopt_actual name_of adopt desired ps acc).0 ≡ acc.0 ++ ps
  unfolding adopt_actual
  adopt_actual-settled desired [] acc all = sym (append-nil acc.0)
  adopt_actual-settled desired (p ∷ ps) acc all =
      adopt_actual-settled desired ps (adopt_one name_of adopt p (lookup (name_of p) desired) acc)
        all.1
      ∙ ap (λ kept. kept ++ ps) (adopt_one-settled desired p acc all.0)
      ∙ append_assoc acc.0 (p ∷ []) ps

  adopt_one-IsSettled :
      (desired : GoMap String P) (got : P) (o : Option P) (acc : List P × GoMap String Bool)
      → lookup (name_of got) desired ≡ o
      → All (IsSettled desired) acc.0
      → All (IsSettled desired) (adopt_one name_of adopt got o acc).0
  unfolding adopt_one
  adopt_one-IsSettled desired got none acc held all = all
  adopt_one-IsSettled desired got (some want) acc held all =
      All-append (IsSettled desired) acc.0 (adopt got want ∷ []) all
        ((want, ap (λ n. lookup n desired) (keeps_name got want) ∙ held, adopt_twice got want), tt)

  adopt_actual-IsSettled :
      (desired : GoMap String P) (actual : List P) (acc : List P × GoMap String Bool)
      → All (IsSettled desired) acc.0
      → All (IsSettled desired) (adopt_actual name_of adopt desired actual acc).0
  unfolding adopt_actual
  adopt_actual-IsSettled desired [] acc all = all
  adopt_actual-IsSettled desired (got ∷ actual) acc all =
      adopt_actual-IsSettled desired actual _
        (adopt_one-IsSettled desired got (lookup (name_of got) desired) acc refl all)

  append_new-IsSettled :
      (desired : GoMap String P) (seen : GoMap String Bool) (new result : List P)
      → All (IsSettled desired) new
      → All (IsSettled desired) result
      → All (IsSettled desired) (append_new name_of adopt seen new result)
  unfolding append_new
  append_new-IsSettled desired seen [] result settled all = all
  append_new-IsSettled desired seen (want ∷ new) result settled all =
      append_new-IsSettled desired seen new _ settled.1 (appended (lookup (name_of want) seen))
    where
      appended :
          (o : Option Bool)
          → All (IsSettled desired) (elim o [ some true ↦ result | _ ↦ result ++ want ∷ [] ])
      appended none = All-append (IsSettled desired) result (want ∷ []) all (settled.0, tt)
      appended (some true) = all
      appended (some false) = All-append (IsSettled desired) result (want ∷ []) all (settled.0, tt)

  count-zero : (n : String) (ps : List P) → count name_of n ps ≡ 0 → find_last name_of n ps ≡ none
  count-zero n [] h = refl
  count-zero n (p ∷ ps) h = ground (arith, count-zero n ps)

  -- Each of several ports with distinct names is the last one of its name.
  find_last_self :
      (ps : List P)
      → IsDistinct name_of ps
      → All (λ p. find_last name_of (name_of p) ps ≡ some p) ps
  find_last_self [] once = tt
  find_last_self (p ∷ ps) once = (
    ground (arith, beq_refl (name_of p), once (name_of p), count-zero (name_of p) ps),
    All-map _ _
        (λ q found. ap (λ o. or_else o (if name_of p == name_of q then some p else none)) found) ps
        (find_last_self ps (λ n. ground (arith, once n))),
  )

  desired-IsSettled :
      (ps : List P) → IsDistinct name_of ps → All (IsSettled (by_name name_of adopt [] ps)) ps
  unfolding lookup
  desired-IsSettled ps once =
      All-map (λ p. find_last name_of (name_of p) ps ≡ some p) _
        (λ p found. (
          p,
          lookup-by_name name_of adopt (name_of p) ps [] ∙ ap (λ o. or_else o none) found,
          adopt_self p,
        ))
        ps (find_last_self ps once)

  -- Without existing ports the desired ones are taken; they are settled if their names are distinct.
  reconcile_ports-IsSettled :
      (actual desired : List P)
      → IsDistinct name_of desired
      → All
          (IsSettled (by_name name_of adopt [] desired))
          (reconcile_ports name_of adopt actual desired)
  unfolding reconcile_ports
  reconcile_ports-IsSettled [] desired once = desired-IsSettled desired once
  reconcile_ports-IsSettled (got ∷ actual) desired once =
      append_new-IsSettled (by_name name_of adopt [] desired) _ desired _
        (desired-IsSettled desired once)
        (adopt_actual-IsSettled (by_name name_of adopt [] desired) (got ∷ actual) ([], []) tt)

  append_new-none :
      (seen : GoMap String Bool) (new result : List P)
      → All (λ p. saw name_of adopt keeps_name (lookup (name_of p) seen) ≡ true) new
      → append_new name_of adopt seen new result ≡ result
  unfolding append_new
  append_new-none seen [] result all = refl
  append_new-none seen (want ∷ new) result all =
      ap (λ next. append_new name_of adopt seen new next) (stays (lookup (name_of want) seen) all.0)
      ∙ append_new-none seen new result all.1
    where
      stays :
          (o : Option Bool)
          → saw name_of adopt keeps_name o ≡ true
          → (elim o [ some true ↦ result | _ ↦ result ++ want ∷ [] ]) ≡ result
      stays none h = cc
      stays (some true) h = refl
      stays (some false) h = cc

  find_self : (ps : List P) → All (λ p. is_some (find name_of (name_of p) ps) ≡ true) ps
  find_self [] = tt
  find_self (p ∷ ps) = (
    ground (arith, beq_refl (name_of p)),
    All-map (λ q. is_some (find name_of (name_of q) ps) ≡ true) _ (λ q found. ground (arith, found))
        ps (find_self ps),
  )

  -- Every desired name has a port among those that are reconciled already.
  abbrev Covers : List P → List P → Type 0
  Covers ps desired =
      All
        (λ p.
          is_some
            (adopted name_of adopt keeps_name (name_of p) (by_name name_of adopt [] desired) ps)
          ≡ true)
        desired

  reconcile_ports-stable :
      (ps desired : List P)
      → All (IsSettled (by_name name_of adopt [] desired)) ps
      → Covers ps desired
      → reconcile_ports name_of adopt ps desired ≡ ps
  unfolding reconcile_ports lookup
  reconcile_ports-stable [] [] settled covers = refl
  reconcile_ports-stable [] (p ∷ desired) settled covers = ground (arith, covers.0)
  reconcile_ports-stable (got ∷ actual) desired settled covers =
      let d = by_name name_of adopt [] desired in
      let marks = (adopt_actual name_of adopt d (got ∷ actual) ([], [])).1 in
      append_new-none marks desired _ (
        All-map
          (λ p. is_some (adopted name_of adopt keeps_name (name_of p) d (got ∷ actual)) ≡ true) _
          (λ p covered.
            seen-adopt_actual name_of adopt keeps_name (name_of p) d (got ∷ actual) ([], [])
            ∙ covered)
          desired covers)
      ∙ adopt_actual-settled d (got ∷ actual) ([], []) settled

  reconcile_ports-Covers :
      (actual desired : List P)
      → IsDistinct name_of desired
      → Covers (reconcile_ports name_of adopt actual desired) desired
  unfolding lookup
  reconcile_ports-Covers actual desired once =
      All-map
        (λ p.
          (find_last name_of (name_of p) desired ≡ some p)
          × (is_some (find name_of (name_of p) desired) ≡ true))
        _
        (λ p (last, found). ground (
          arith,
          last,
          found,
          lookup-by_name name_of adopt (name_of p) desired [],
          find-reconcile_ports name_of adopt keeps_name (name_of p) actual desired,
        ))
        desired (All-zip _ _ desired (find_last_self desired once) (find_self desired))

  -- Reconciling the ports again changes nothing, if the desired names are distinct.
  pub reconcile_ports_idem :
      (actual desired : List P)
      → IsDistinct name_of desired
      → reconcile_ports name_of adopt (reconcile_ports name_of adopt actual desired) desired
        ≡ reconcile_ports name_of adopt actual desired
  reconcile_ports_idem actual desired once =
      reconcile_ports-stable (reconcile_ports name_of adopt actual desired) desired
        (reconcile_ports-IsSettled actual desired once) (reconcile_ports-Covers actual desired once)

-- If the desired ports of a Service have distinct names, then reconciling its ports a second time
-- changes nothing, whatever ports there were at first. The same holds for the ports of a container.
pub reconcile_service_ports_idem :
    (actual desired : List ServicePort) (found wanted : List ContainerPort)
    → IsDistinct (λ p. p.name) desired
    → IsDistinct (λ p. p.name) wanted
    → (reconcile_service_ports (reconcile_service_ports actual desired) desired
        ≡ reconcile_service_ports actual desired)
      × (reconcile_container_ports (reconcile_container_ports found wanted) wanted
          ≡ reconcile_container_ports found wanted)
unfolding reconcile_service_ports reconcile_container_ports
reconcile_service_ports_idem actual desired found wanted once once' = (
  reconcile_ports_idem (λ p. p.name) adopt_service_port (λ got want. refl) (λ got want. refl)
      (λ p. refl) actual desired once,
  reconcile_ports_idem (λ p. p.name) adopt_container_port (λ got want. refl) (λ got want. refl)
      (λ p. refl) found wanted once',
)
