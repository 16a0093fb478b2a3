-- ===== src/Controller/Resource/Branches.antt =====
-- The outcomes of reconcileResource (internal/controller/application_controller.go): what it refuses
-- to touch, and what its success means.
use application_controller.Common.{
  String, Bool, true, false, not, ◌&&◌, ◌∷◌, ◌≡◌, refl, sym, ◌∙◌, ap, subst, arith, ◌⊎◌, inl, inr,
  Bool-cases,
}
use application_controller.Errors.{Error, Result, ok, err}
use application_controller.Kube.{NamespacedName, Kind, Object}
use application_controller.Api.{Application}
use application_controller.Controller.Ownership.{is_object_owned_by}
use application_controller.Controller.State.{
  get, delete, Client, Library, M, State, pure, fail, lift, call,
}
use application_controller.Controller.State.Steps.{
  then_call, if-true, if-false, bind-ok, bind-attempt, bind_ok_inversion, fails,
}
use application_controller.Controller.Resource.{
  EventMap, about, refusal, fetch, found_or, deleted, delete_resource, act, reconcile_resource,
  ensure_no_resource,
}

module _ {F : Type 0} (library : Library) (client : Client) (app : Application) where
  -- What an object is removed by: it is read as absent, or it is read as owned and deleted.
  abbrev pub Removed : (k : Kind) → NamespacedName → State F → State F → Type 0
  Removed k name s t =
      ((e : Error) × (client.get s.history k name ≡ err e)
        × (client.is_not_found e ≡ true)
        × (t ≡ then_call (get k name) s))
      ⊎ ((o : Object k) × (client.get s.history k name ≡ ok o)
          × (is_object_owned_by library k o.meta app ≡ true)
          × (client.delete (get k name ∷ s.history) k o ≡ ok tt)
          × (t ≡ then_call (delete k o) (then_call (get k name) s)))

  pub fetch-found_or :
      (k : Kind) (name : NamespacedName) (obj : Object k) (s : State F)
      → fetch library client k name obj s
        ≡ found_or library client k obj (client.get s.history k name) (then_call (get k name) s)
  unfolding fetch call
  fetch-found_or k name obj s = bind-attempt _ (found_or library client k obj) s

  module _ (k : Kind) (name : NamespacedName) (obj : Object k)
      (mutate_fn : Object k → M F (Object k)) (wanted : Bool) (events : EventMap) where
    pub fetched-act :
        (gvk : String) (s t : State F) (found : Bool) (o : Object k)
        → library.gvk_for_object k ≡ ok gvk
        → fetch library client k name obj s ≡ (ok (found, o), t)
        → reconcile_resource library client app name k obj mutate_fn wanted events s
          ≡ act library client app name k mutate_fn wanted events gvk (found, o) t
    unfolding reconcile_resource lift
    fetched-act gvk s t found o kind fetched =
        bind-ok _ _ s s gvk (ap (λ r. (r, s)) kind)
        ∙ bind-ok _ (act library client app name k mutate_fn wanted events gvk) s t (found, o)
            fetched

    act_refuses :
        (gvk : String) (o : Object k) (t : State F)
        → is_object_owned_by library k o.meta app ≡ false
        → act library client app name k mutate_fn wanted events gvk (true, o) t
          ≡ (err (refusal gvk (library.name_string name)), t)
    unfolding act fail
    act_refuses gvk o t foreign =
        if-true (true && not (is_object_owned_by library k o.meta app)) _ _ t (ap not foreign)

    -- An object that the API server has under the name, but that the Application does not own, is
    -- left alone, wanted or not: reconcileResource fails, and the read was its only call.
    pub reconcile_resource_refuses :
        (s : State F) (gvk : String) (o : Object k)
        → library.gvk_for_object k ≡ ok gvk
        → client.get s.history k name ≡ ok o
        → is_object_owned_by library k o.meta app ≡ false
        → reconcile_resource library client app name k obj mutate_fn wanted events s
          ≡ (err (refusal gvk (library.name_string name)), then_call (get k name) s)
    unfolding found_or pure
    reconcile_resource_refuses s gvk o kind read foreign =
        fetched-act gvk s (then_call (get k name) s) true o kind (
          fetch-found_or k name obj s
          ∙ ap (λ r. found_or library client k obj r (then_call (get k name) s)) read)
        ∙ act_refuses gvk o _ foreign

module _ (client : Client) {k : Kind} (obj : Object k) where
  -- What fetch makes of the answer to its read.
  abbrev IsFetched : Result (Object k) → Bool × Object k → Type 0
  IsFetched answer p =
      ((e : Error) × (answer ≡ err e) × (client.is_not_found e ≡ true) × (p ≡ (false, obj)))
      ⊎ ((o : Object k) × (answer ≡ ok o) × (p ≡ (true, o)))

  found_or_inversion :
      {F : Type 0} (library : Library) (answer : Result (Object k)) (t : State F)
      (p : Bool × Object k)
      → (found_or library client k obj answer t).0 ≡ ok p
      → IsFetched answer p × ((found_or library client k obj answer t).1 ≡ t)
  unfolding found_or pure fail
  found_or_inversion library (ok o) t p h = (inr (o, refl, ground arith), refl)
  found_or_inversion library (err e) t p h = elim (Bool-cases (client.is_not_found e)) [
    | inl absent ↦
        let run =
          if-true {A = Bool × Object k} (client.is_not_found e) (pure (false, obj)) (fail e) t
            absent in
        (inl (e, refl, absent, ground (arith, run)), ap (λ r. r.1) run)
    | inr other ↦
        let run =
          if-false {A = Bool × Object k} (client.is_not_found e) (pure (false, obj)) (fail e) t
            other in
        ground (arith, run)
  ]

module _ {F : Type 0} (library : Library) (client : Client) (app : Application) (k : Kind)
    (name : NamespacedName) (events : EventMap) where
  deleted_inversion :
      (what : String) (o o' : Object k) (answer : Result (Unit {0})) (t : State F)
      → (deleted library client k what events o answer t).0 ≡ ok o'
      → (answer ≡ ok tt) × ((deleted library client k what events o answer t).1 ≡ t)
  unfolding deleted pure
  deleted_inversion what o o' (ok _) t h = (refl, refl)
  deleted_inversion what o o' (err e) t h = fails _ _ t o' h

  remove : String → Bool × Object k → M F (Object k)
  remove gvk fetched = act library client app name k pure false events gvk fetched

  remove-delete :
      (gvk : String) (o : Object k) (t : State F)
      → is_object_owned_by library k o.meta app ≡ true
      → remove gvk (true, o) t
        ≡ deleted library client k
            (about "" gvk (library.name_string name))
            events
            o
            (client.delete t.history k o)
            (then_call (delete k o) t)
  unfolding remove act delete_resource call
  remove-delete gvk o t owned =
      if-false (true && not (is_object_owned_by library k o.meta app)) _ _ t (ap not owned)
      ∙ bind-attempt _ _ t

  remove-absent : (gvk : String) (o : Object k) (t : State F) → remove gvk (false, o) t ≡ (ok o, t)
  unfolding remove act pure
  remove-absent gvk o t = refl

  remove-present :
      (gvk : String) (o o' : Object k) (t : State F)
      → (remove gvk (true, o) t).0 ≡ ok o'
      → (is_object_owned_by library k o.meta app ≡ true)
        × (client.delete t.history k o ≡ ok tt)
        × ((remove gvk (true, o) t).1 ≡ then_call (delete k o) t)
  unfolding remove
  remove-present gvk o o' t h = elim (Bool-cases (is_object_owned_by library k o.meta app)) [
    | inr foreign ↦
        let refused = act_refuses library client app k name o pure false events gvk o t foreign in
        ground (arith, refused)
    | inl owned ↦
        let run = remove-delete gvk o t owned in
        let (answer, after) =
          deleted_inversion _ o o' _ (then_call (delete k o) t) (ap (λ p. p.0) (sym run) ∙ h) in
        (owned, answer, ap (λ p. p.1) run ∙ after)
  ]

  removed :
      (gvk : String) (obj o' : Object k) (s : State F) (p : Bool × Object k)
      → IsFetched client obj (client.get s.history k name) p
      → (remove gvk p (then_call (get k name) s)).0 ≡ ok o'
      → Removed library client app k name s (remove gvk p (then_call (get k name) s)).1
  removed gvk obj o' s p (inl (e, read, absent, e_p)) h = inl (
    e,
    read,
    absent,
    subst (λ q. (remove gvk q (then_call (get k name) s)).1 ≡ then_call (get k name) s) (sym e_p)
        (ap (λ r. r.1) (remove-absent gvk obj _)),
  )
  removed gvk obj o' s p (inr (o, read, e_p)) h =
      let (owned, answer, after) =
        remove-present gvk o o' _
          (subst (λ q. (remove gvk q (then_call (get k name) s)).0 ≡ ok o') e_p h) in
      inr (
        o,
        read,
        owned,
        answer,
        subst
            (λ q.
              (remove gvk q (then_call (get k name) s)).1
              ≡ then_call (delete k o) (then_call (get k name) s))
            (sym e_p) after,
      )

  fetch_inversion :
      (obj : Object k) (s : State F) (p : Bool × Object k)
      → (fetch library client k name obj s).0 ≡ ok p
      → IsFetched client obj (client.get s.history k name) p
        × ((fetch library client k name obj s).1 ≡ then_call (get k name) s)
  fetch_inversion obj s p h =
      let run = fetch-found_or library client app k name obj s in
      let (fetched, after) =
        found_or_inversion client obj library _ (then_call (get k name) s) p
          (ap (λ r. r.0) (sym run) ∙ h) in
      (fetched, ap (λ r. r.1) run ∙ after)

  -- If ensureNoResource succeeds, then it read the object as absent and made no other call, or it
  -- read one that the Application owns, and the API server accepted its deletion.
  pub ensure_no_resource-Removed :
      (obj o : Object k) (s : State F)
      → (ensure_no_resource library client app name k obj events s).0 ≡ ok o
      → Removed library client app k name s
          (ensure_no_resource library client app name k obj events s).1
  unfolding ensure_no_resource reconcile_resource lift remove
  ensure_no_resource-Removed obj o s h =
      let (gvk, _, rest, run) = bind_ok_inversion (lift (library.gvk_for_object k)) _ s o h in
      let (p, found, removing, run') =
        bind_ok_inversion (fetch library client k name obj) _ s o rest in
      let (fetched, after) = fetch_inversion obj s p found in
      let removing' = subst (λ t. (remove gvk p t).0 ≡ ok o) after removing in
      subst (Removed library client app k name s)
        (sym (ap (λ r. r.1) (run ∙ run') ∙ ap (λ t. (remove gvk p t).1) after))
        (removed gvk obj o s p fetched removing')
