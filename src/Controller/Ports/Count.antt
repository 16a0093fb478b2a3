-- ===== src/Controller/Ports/Count.antt =====
-- How often each name stands in the reconciled list of ports.
use application_controller.Common.{
  String, Bool, true, false, ◌&&◌, ◌||◌, Option, none, some, is_some, List, [], ◌∷◌, ◌++◌, GoMap,
  lookup, insert, string_eq, ◌==◌, eq_iff, ◌≡◌, refl, arith, if◌then◌else◌, lookup-insert, ℕ, ◌+◌,
  ◌≤◌,
}
use application_controller.Kube.{ServicePort}
use application_controller.Controller.Ports.{
  by_name, adopt_one, adopt_actual, append_new, reconcile_ports, adopt_service_port,
  reconcile_service_ports,
}

module _ {P : Type 0} (name_of : P → String) where
  abbrev pub count : String → List P → ℕ
  count n [] = 0
  count n (p ∷ ps) = (if name_of p == n then 1 else 0) + count n ps

  -- Every name occurs once at most.
  abbrev pub IsDistinct : List P → Type 0
  IsDistinct ps = (n : String) → count n ps ≤ 1

  count-append : (n : String) (xs ys : List P) → count n (xs ++ ys) ≡ count n xs + count n ys
  count-append n [] ys = omega arith
  count-append n (x ∷ xs) ys = omega (arith, count-append n xs ys)

  abbrev saw : Option Bool → Bool
  saw (some true) = true
  saw _ = false

  abbrev has : String → List P → Bool
  has n [] = false
  has n (p ∷ ps) = name_of p == n || has n ps

  count-has : (n : String) (ps : List P) → has n ps ≡ false → count n ps ≡ 0
  count-has n [] h = refl
  count-has n (p ∷ ps) h = ground (arith, count-has n ps)

  count_pos : (n : String) (ps : List P) → has n ps ≡ true → 1 ≤ count n ps
  count_pos n [] h = cc
  count_pos n (p ∷ ps) h = ground (arith, count_pos n ps)

  module _ (adopt : P → P → P)
      (keeps_name : (got want : P) → name_of (adopt got want) ≡ name_of got) where
    is_some-by_name :
        (n : String) (ps : List P) (m : GoMap String P)
        → is_some (lookup n (by_name name_of adopt m ps)) ≡ (has n ps || is_some (lookup n m))
    unfolding by_name
    is_some-by_name n [] m = refl
    is_some-by_name n (p ∷ ps) m =
        ground
          (arith, is_some-by_name n ps (insert (name_of p) p m), lookup-insert (name_of p) n p m)

    count-adopt_one :
        (n : String) (desired : GoMap String P) (got : P) (o : Option P)
        (acc : List P × GoMap String Bool)
        → lookup (name_of got) desired ≡ o
        → count n (adopt_one name_of adopt got o acc).0
          ≡ count n acc.0 + (if is_some (lookup n desired) then count n (got ∷ []) else 0)
    unfolding adopt_one
    count-adopt_one n desired got none acc h = ground (arith, eq_iff (name_of got) n)
    count-adopt_one n desired got (some want) acc h = ground (
      arith,
      eq_iff (name_of got) n,
      count-append n acc.0 (adopt got want ∷ []),
      keeps_name got want,
    )

    count-adopt_actual :
        (n : String) (desired : GoMap String P) (actual : List P) (acc : List P × GoMap String Bool)
        → count n (adopt_actual name_of adopt desired actual acc).0
          ≡ count n acc.0 + (if is_some (lookup n desired) then count n actual else 0)
    unfolding adopt_actual
    count-adopt_actual n desired [] acc = ground arith
    count-adopt_actual n desired (got ∷ actual) acc = ground (
      arith,
      count-adopt_actual n desired actual
          (adopt_one name_of adopt got (lookup (name_of got) desired) acc),
      count-adopt_one n desired got (lookup (name_of got) desired) acc,
    )

    seen-adopt_one :
        (n : String) (desired : GoMap String P) (got : P) (o : Option P)
        (acc : List P × GoMap String Bool)
        → lookup (name_of got) desired ≡ o
        → saw (lookup n (adopt_one name_of adopt got o acc).1)
          ≡ (saw (lookup n acc.1) || (is_some (lookup n desired) && name_of got == n))
    unfolding adopt_one
    seen-adopt_one n desired got none acc h = ground (arith, eq_iff (name_of got) n)
    seen-adopt_one n desired got (some want) acc h =
        ground (arith, eq_iff (name_of got) n, lookup-insert (name_of got) n true acc.1)

    seen-adopt_actual :
        (n : String) (desired : GoMap String P) (actual : List P) (acc : List P × GoMap String Bool)
        → saw (lookup n (adopt_actual name_of adopt desired actual acc).1)
          ≡ (saw (lookup n acc.1) || (is_some (lookup n desired) && has n actual))
    unfolding adopt_actual
    seen-adopt_actual n desired [] acc = ground arith
    seen-adopt_actual n desired (got ∷ actual) acc = ground (
      arith,
      seen-adopt_actual n desired actual
          (adopt_one name_of adopt got (lookup (name_of got) desired) acc),
      seen-adopt_one n desired got (lookup (name_of got) desired) acc,
    )

    count-append_new :
        (n : String) (seen : GoMap String Bool) (desired result : List P)
        → count n (append_new name_of adopt seen desired result)
          ≡ count n result + (if saw (lookup n seen) then 0 else count n desired)
    unfolding append_new
    count-append_new n seen [] result = ground arith
    count-append_new n seen (want ∷ desired) result = ground (
      arith,
      eq_iff (name_of want) n,
      count-append_new n seen desired result,
      count-append_new n seen desired (result ++ want ∷ []),
      count-append n result (want ∷ []),
    )

    -- If the names of the existing ports are distinct, and those of the desired ports too, each
    -- name stands in the reconciled list as often as among the desired ports.
    pub count-reconcile_ports :
        (n : String) (actual desired : List P)
        → IsDistinct actual
        → IsDistinct desired
        → count n (reconcile_ports name_of adopt actual desired) ≡ count n desired
    unfolding reconcile_ports lookup
    count-reconcile_ports n [] desired once once' = refl
    count-reconcile_ports n (got ∷ actual) desired once once' = ground (
      arith,
      once n,
      once' n,
      is_some-by_name n desired [],
      count-has n desired,
      count_pos n desired,
      count_pos n (got ∷ actual),
      count-has n (got ∷ actual),
      count-adopt_actual n (by_name name_of adopt [] desired) (got ∷ actual) ([], []),
      seen-adopt_actual n (by_name name_of adopt [] desired) (got ∷ actual) ([], []),
      count-append_new n
          (adopt_actual name_of adopt (by_name name_of adopt [] desired) (got ∷ actual) ([], [])).1
          desired
          (adopt_actual name_of adopt (by_name name_of adopt [] desired) (got ∷ actual) ([], [])).0,
    )

-- If the existing ports of a Service have distinct names, and the desired ones too, then each name
-- stands in the reconciled list exactly as often as among the desired ports.
pub count-reconcile_service_ports :
    (n : String) (actual desired : List ServicePort)
    → IsDistinct (λ p. p.name) actual
    → IsDistinct (λ p. p.name) desired
    → count (λ p. p.name) n (reconcile_service_ports actual desired) ≡ count (λ p. p.name) n desired
unfolding reconcile_service_ports
count-reconcile_service_ports n actual desired once once' =
    count-reconcile_ports (λ p. p.name) adopt_service_port (λ got want. refl) n actual desired once
      once'
