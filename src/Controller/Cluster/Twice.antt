-- ===== src/Controller/Cluster/Twice.antt =====
-- An object that ensureResource has written is left as it is by the next reconciliation.
use application_controller.Common.{
  String, Bool, true, false, not, ◌&&◌, Option, none, some, ◌∷◌, ◌==◌, beq_refl, ◌≡◌, refl, sym,
  ◌∙◌, ap, subst, inl, inr, Option-cases, Bool-cases, if_true, if_false,
}
use application_controller.Errors.{Result, ok}
use application_controller.Kube.{NamespacedName, name_eq, Kind, Object}
use application_controller.Api.{Application}
use application_controller.Controller.Ownership.{is_object_owned_by}
use application_controller.Controller.State.{
  fail, get, upsert, OperationResult, created, updated, unchanged, Client, Library, M, State, pure,
  lift, call,
}
use application_controller.Controller.State.Steps.{
  if-true, then_call, bind-ok, bind-attempt, bind-call, bind-eventf,
}
use application_controller.Controller.Resource.{
  EventMap, about, fetch, found_or, set_owner, set_name, create_or_patch, report, upserted,
  upsert_resource, ensure_resource,
}
use application_controller.Controller.Resource.Branches.{fetch-found_or, fetched-act}
use application_controller.Controller.Resource.Committed.{act-upsert_resource}
use application_controller.Controller.Cluster.{
  Objects, name_of, as_kind, stored, or_given, Serves, written,
}

-- The states hold the same objects.
abbrev pub Same : {F : Type 0} → Objects → State F → State F → Type 0
Same initial s t =
    (j : Kind) (n : NamespacedName) → stored initial s.history j n ≡ stored initial t.history j n

as_kind_self : (j : Kind) (o : Object j) → as_kind j j o ≡ some o
as_kind_self Kind.service_account o = refl
as_kind_self Kind.role_binding o = refl
as_kind_self Kind.cluster_role_binding o = refl
as_kind_self Kind.service o = refl
as_kind_self Kind.pod_monitor o = refl
as_kind_self Kind.ingress_route o = refl
as_kind_self Kind.deployment o = refl
as_kind_self Kind.cron_job o = refl

written_idem :
    (j : Kind) (n : NamespacedName) (o before : Option (Object j))
    → written j n o (written j n o before) ≡ written j n o before
unfolding written
written_idem j n none before = refl
written_idem j n (some o) before = elim (Bool-cases (name_of j o == n)) [
  | inl same ↦ if_true _ _ _ same ∙ sym (if_true _ _ _ same)
  | inr other ↦ if_false _ _ _ other
]

module _ {F : Type 0} (library : Library) (client : Client) (initial : Objects)
    (serves : Serves client initial) (app : Application) (name : NamespacedName) (k : Kind)
    (mutate : Object k → Result (Object k)) where
  abbrev pub mutate_fn : Object k → M F (Object k)
  mutate_fn o = lift (mutate o)

  upserted-ok :
      (what : String) (events : EventMap) (result : OperationResult) (w : Object k) (s : State F)
      → (t : State F) × (upserted library client k what events (ok (result, w)) s ≡ (ok w, t))
        × Same initial t s
  unfolding upserted report pure stored
  upserted-ok what events created w s = (_, bind-eventf _ _ _ s, λ j n. refl)
  upserted-ok what events updated w s = (_, bind-eventf _ _ _ s, λ j n. refl)
  upserted-ok what events unchanged w s =
      (s, bind-ok (pure tt) (λ _. pure w) s s tt refl, λ j n. refl)

  create_or_patch-ok :
      (o x y w : Object k) (s : State F)
      → or_given k (set_name name k o) (stored initial s.history k name) ≡ x
      → mutate x ≡ ok y
      → set_owner library app name k y ≡ ok w
      → (result : OperationResult) × (create_or_patch library client app name k
            (set_name name k o)
            mutate_fn
            s
          ≡ (ok (result, w), then_call (upsert k w) (then_call (get k name) s)))
  unfolding create_or_patch lift call
  create_or_patch-ok o x y w s reads made owned =
      let s1 = then_call (get k name) s in
      let (result, accepted) = serves.accepts s1.history k w in
      (
        result,
        bind-call (get k name) _ _ s x (serves.hands s.history k (set_name name k o) ∙ ap ok reads)
            ∙ bind-ok (mutate_fn x) _ s1 s1 y (ap (λ r. (r, s1)) made)
            ∙ bind-ok (lift (set_owner library app name k y)) _ s1 s1 w (ap (λ r. (r, s1)) owned)
            ∙ ap (λ r. (r, then_call (upsert k w) s1)) accepted,
      )

  -- What the write of `w` leaves, besides what was there.
  abbrev pub Wrote : Object k → State F → State F → Type 0
  Wrote w s t =
      (j : Kind) (n : NamespacedName)
      → stored initial t.history j n ≡ stored initial (upsert k w ∷ s.history) j n

  upsert_resource-ok :
      (o x y w : Object k) (what : String) (events : EventMap) (s : State F)
      → or_given k (set_name name k o) (stored initial s.history k name) ≡ x
      → mutate x ≡ ok y
      → set_owner library app name k y ≡ ok w
      → (t : State F) × (upsert_resource library client app name k o mutate_fn what events s
          ≡ (ok w, t))
        × Wrote w s t
  unfolding upsert_resource stored
  upsert_resource-ok o x y w what events s reads made owned =
      let attempted = create_or_patch library client app name k (set_name name k o) mutate_fn in
      let (result, ran) = create_or_patch-ok o x y w s reads made owned in
      let s2 = then_call (upsert k w) (then_call (get k name) s) in
      let (t, upserts, same) = upserted-ok what events result w s2 in
      (
        t,
        bind-attempt attempted (upserted library client k what events) s
            ∙ ap
                (λ (p : Result (OperationResult × Object k) × State F).
                  upserted library client k what events p.0 p.1)
                ran
            ∙ upserts,
        same,
      )

  module _ (obj : Object k) (events : EventMap) (gvk : String)
      (known : library.gvk_for_object k ≡ ok gvk) where
    abbrev pub ensure : M F (Object k)
    ensure = ensure_resource library client app name k obj mutate_fn events

    acts :
        (found : Bool) (o x y w : Object k) (s : State F)
        → (found && not (is_object_owned_by library k o.meta app)) ≡ false
        → fetch library client k name obj s ≡ (ok (found, o), then_call (get k name) s)
        → or_given k (set_name name k o) (stored initial s.history k name) ≡ x
        → mutate x ≡ ok y
        → set_owner library app name k y ≡ ok w
        → (t : State F) × (ensure s ≡ (ok w, t)) × Wrote w s t
    unfolding ensure_resource stored
    acts found o x y w s allowed fetched reads made owned =
        let (t, upserts, wrote) =
          upsert_resource-ok o x y w (about "" gvk (library.name_string name)) events
            (then_call (get k name) s) reads made owned in
        (
          t,
          fetched-act library client app k name obj mutate_fn true events gvk s
                (then_call (get k name) s) found o known fetched
              ∙ act-upsert_resource library client app name k mutate_fn gvk events found o
                  (then_call (get k name) s) allowed
              ∙ upserts,
          wrote,
        )

    -- If the stored object, where there is one, is owned, and the mutate function and the ownership
    -- make `w` of it, or of the given object under the name, then `w` is written.
    ensure-Wrote :
        (y w : Object k) (s : State F)
        → ((o : Object k)
            → stored initial s.history k name ≡ some o
            → is_object_owned_by library k o.meta app ≡ true)
        → mutate (or_given k (set_name name k obj) (stored initial s.history k name)) ≡ ok y
        → set_owner library app name k y ≡ ok w
        → (t : State F) × (ensure s ≡ (ok w, t)) × Wrote w s t
    unfolding found_or pure
    ensure-Wrote y w s rightful made owned = elim (Option-cases (stored initial s.history k name)) [
      | inl absent ↦
          let (e, missed, not_found) = serves.misses s.history k name absent in
          acts false obj _ y w s refl
            (fetch-found_or library client app k name obj s
              ∙ ap (λ r. found_or library client k obj r (then_call (get k name) s)) missed
              ∙ if-true (client.is_not_found e) (pure (false, obj)) (fail e)
                  (then_call (get k name) s) not_found)
            refl made owned
      | inr (o, held) ↦
          acts true o _ y w s (ap not (rightful o held))
            (fetch-found_or library client app k name obj s
              ∙ ap (λ r. found_or library client k obj r (then_call (get k name) s))
                  (serves.finds s.history k name o held))
            (ap (or_given k (set_name name k o)) held
              ∙ sym (ap (or_given k (set_name name k obj)) held))
            made owned
    ]

    stored-Wrote :
        (w : Object k) (s t : State F)
        → name_of k w ≡ name
        → Wrote w s t
        → stored initial t.history k name ≡ some w
    unfolding stored written
    stored-Wrote w s t named wrote =
        wrote k name
        ∙ ap (λ o. written k name o (stored initial s.history k name)) (as_kind_self k w)
        ∙ if_true _ _ _ (subst (λ n. (name_of k w == n) ≡ true) named (beq_refl (name_of k w)))

    Wrote-Same : (w : Object k) (s t u : State F) → Wrote w s t → Wrote w t u → Same initial u t
    unfolding stored
    Wrote-Same w s t u first second j n =
        let c = as_kind k j w in
        second j n
        ∙ ap (written j n c) (first j n)
        ∙ written_idem j n c (stored initial s.history j n)
        ∙ sym (first j n)

    -- If the stored object under the name, where there is one, is owned, the mutate function and the
    -- ownership make `w` of it, or of the given object, and they make `w` of `w`, which is owned and
    -- has the name, then ensureResource writes `w`, and doing it again changes nothing in the cluster.
    pub ensure_resource-Same :
        (y w : Object k) (s : State F)
        → ((o : Object k)
            → stored initial s.history k name ≡ some o
            → is_object_owned_by library k o.meta app ≡ true)
        → mutate (or_given k (set_name name k obj) (stored initial s.history k name)) ≡ ok y
        → set_owner library app name k y ≡ ok w
        → name_of k w ≡ name
        → is_object_owned_by library k w.meta app ≡ true
        → mutate w ≡ ok w
        → set_owner library app name k w ≡ ok w
        → (t : State F) × (u : State F) × (ensure s ≡ (ok w, t))
          × (stored initial t.history k name ≡ some w)
          × (ensure t ≡ (ok w, u))
          × Same initial u t
    ensure_resource-Same y w s rightful made owned named own settled kept =
        let (t, first, wrote) = ensure-Wrote y w s rightful made owned in
        let held = stored-Wrote w s t named wrote in
        let (u, second, again) =
          ensure-Wrote w w t
            (λ o other.
              let same : w ≡ o = some_injective (sym held ∙ other) in
              subst (λ (x : Object k). is_object_owned_by library k x.meta app ≡ true) same own)
            (ap (λ o. mutate (or_given k (set_name name k obj) o)) held ∙ settled) kept in
        (t, u, first, held, second, Wrote-Same w s t u wrote again)
      where
        some_injective : {a b : Object k} → some a ≡ some b → a ≡ b
        some_injective e = cc
