-- ===== src/Controller/Resource/Committed.antt =====
-- What the success of ensureResource (internal/controller/application_controller.go) means.
use application_controller.Common.{
  String, Bool, true, false, not, ◌&&◌, List, ◌∷◌, ◌≡◌, sym, ◌∙◌, ap, subst, arith, ◌⊎◌, inl, inr,
  Bool-cases,
}
use application_controller.Errors.{Result, ok, err}
use application_controller.Kube.{NamespacedName, Kind, Object}
use application_controller.Api.{Application}
use application_controller.Controller.Ownership.{is_object_owned_by}
use application_controller.Controller.State.{
  Call, get, upsert, event, OperationResult, created, updated, unchanged, Client, Library, M, State,
  pure, fail, lift, call, eventf,
}
use application_controller.Controller.State.Steps.{
  if-true, if-false, bind-attempt, bind_ok_inversion, bind-eventf, fails,
}
use application_controller.Controller.Resource.{
  EventMap, about, refusal, event_type_normal, fetch, set_owner, set_name, create_or_patch, report,
  upserted, upsert_resource, act, reconcile_resource, ensure_resource,
}

module _ {F : Type 0} (library : Library) (client : Client) (app : Application)
    (name : NamespacedName) (k : Kind) (mutate_fn : Object k → M F (Object k)) where
  -- The API server has accepted `written`, which the mutate function and the ownership made of some
  -- object, and answered `o`; the calls so far are `calls`.
  abbrev pub Accepted : OperationResult × Object k → Object k → List Call → Type 0
  Accepted answer written earlier =
      ((before : Object k) × (mutated : Object k) × (s : State F) × ((mutate_fn before s).0
          ≡ ok mutated)
        × (set_owner library app name k mutated ≡ ok written)
        × (client.commit earlier k written ≡ ok answer))

  abbrev pub Committed : Object k → List Call → Type 0
  Committed o calls =
      ((result : OperationResult) × (written : Object k) × (earlier : List Call) × Accepted
          (result, o) written earlier
        × ((calls ≡ upsert k written ∷ earlier)
            ⊎ ((reason : String) × (calls
                  ≡ event event_type_normal reason ∷ upsert k written ∷ earlier))))

  create_or_patch_inversion :
      (obj : Object k) (answer : OperationResult × Object k) (s : State F)
      → (create_or_patch library client app name k obj mutate_fn s).0 ≡ ok answer
      → (written : Object k) × (earlier : List Call) × Accepted answer written earlier
        × ((create_or_patch library client app name k obj mutate_fn s).1.history
            ≡ upsert k written ∷ earlier)
  unfolding create_or_patch call lift
  create_or_patch_inversion obj answer s h =
      let (before, _, h1, run1) = bind_ok_inversion (call (get k name) _) _ s answer h in
      let (mutated, made, h2, run2) = bind_ok_inversion (mutate_fn before) _ _ answer h1 in
      let (owned, set, h3, run3) =
        bind_ok_inversion (lift (set_owner library app name k mutated)) _ _ answer h2 in
      (owned, _, (before, mutated, _, made, set, h3), ap (λ p. p.1.history) (run1 ∙ run2 ∙ run3))

  upserted_inversion :
      (what : String) (events : EventMap) (answer : Result (OperationResult × Object k))
      (o : Object k) (s : State F)
      → (upserted library client k what events answer s).0 ≡ ok o
      → (result : OperationResult) × (answer ≡ ok (result, o))
        × (((upserted library client k what events answer s).1.history ≡ s.history)
            ⊎ ((reason : String) × ((upserted library client k what events answer s).1.history
                  ≡ event event_type_normal reason ∷ s.history)))
  unfolding upserted report eventf pure
  upserted_inversion what events (err e) o s h = fails _ _ s o h
  upserted_inversion what events (ok (created, o')) o s h =
      let run = bind-eventf event_type_normal events.created (λ _. pure o') s in
      (
        created,
        ground (arith, ap (λ p. p.0) (sym run) ∙ h),
        inr (events.created, ap (λ p. p.1.history) run),
      )
  upserted_inversion what events (ok (updated, o')) o s h =
      let run = bind-eventf event_type_normal events.updated (λ _. pure o') s in
      (
        updated,
        ground (arith, ap (λ p. p.0) (sym run) ∙ h),
        inr (events.updated, ap (λ p. p.1.history) run),
      )
  upserted_inversion what events (ok (unchanged, o')) o s h =
      let (_, _, done, run) = bind_ok_inversion (pure tt) (λ _. pure o') s o h in
      (unchanged, ground (arith, done), inl (ap (λ p. p.1.history) run))

  upsert_inversion :
      (obj o : Object k) (what : String) (events : EventMap) (s : State F)
      → (upsert_resource library client app name k obj mutate_fn what events s).0 ≡ ok o
      → Committed o
          (upsert_resource library client app name k obj mutate_fn what events s).1.history
  unfolding upsert_resource
  upsert_inversion obj o what events s h =
      let attempted = create_or_patch library client app name k (set_name name k obj) mutate_fn in
      let run = bind-attempt attempted (upserted library client k what events) s in
      let (result, answer, calls) =
        upserted_inversion what events _ o (attempted s).1 (ap (λ p. p.0) (sym run) ∙ h) in
      let (written, earlier, accepted, history) =
        create_or_patch_inversion _ (result, o) s answer in
      let ran = ap (λ p. p.1.history) run in
      (
        result,
        written,
        earlier,
        accepted,
        elim calls [
          | inl same ↦ inl (ran ∙ same ∙ history)
          | inr (reason, noted) ↦
              inr (reason, ran ∙ noted ∙ ap (λ h. event event_type_normal reason ∷ h) history)
        ],
      )

  act-refusal :
      (gvk : String) (events : EventMap) (found : Bool) (obj : Object k) (s : State F)
      → (found && not (is_object_owned_by library k obj.meta app)) ≡ true
      → act library client app name k mutate_fn true events gvk (found, obj) s
        ≡ (err (refusal gvk (library.name_string name)), s)
  unfolding act fail
  act-refusal gvk events found obj s refused =
      if-true (found && not (is_object_owned_by library k obj.meta app)) _ _ s refused

  pub act-upsert_resource :
      (gvk : String) (events : EventMap) (found : Bool) (obj : Object k) (s : State F)
      → (found && not (is_object_owned_by library k obj.meta app)) ≡ false
      → act library client app name k mutate_fn true events gvk (found, obj) s
        ≡ upsert_resource library client app name k obj mutate_fn
            (about "" gvk (library.name_string name))
            events
            s
  unfolding act
  act-upsert_resource gvk events found obj s allowed =
      if-false (found && not (is_object_owned_by library k obj.meta app)) _ _ s allowed

  act_inversion :
      (gvk : String) (events : EventMap) (p : Bool × Object k) (o : Object k) (s : State F)
      → (act library client app name k mutate_fn true events gvk p s).0 ≡ ok o
      → Committed o (act library client app name k mutate_fn true events gvk p s).1.history
  act_inversion gvk events (found, obj) o s h =
      elim (Bool-cases (found && not (is_object_owned_by library k obj.meta app))) [
        | inl refused ↦
            let run = act-refusal gvk events found obj s refused in
            let failed : err (refusal gvk (library.name_string name)) ≡ ok o =
              ap (λ p. p.0) (sym run) ∙ h in
            ground (arith, failed)
        | inr allowed ↦
            let run = act-upsert_resource gvk events found obj s allowed in
            subst (Committed o) (sym (ap (λ p. p.1.history) run))
              (upsert_inversion obj o _ events s (ap (λ p. p.0) (sym run) ∙ h))
      ]

  -- If ensureResource succeeds with `o`, then the API server has created or patched an object for
  -- which it answered `o`, the object is what the mutate function returned with the Application's
  -- controller reference or owner annotations set on it, and no call but the report of an event
  -- followed.
  pub ensure_resource-Committed :
      (obj o : Object k) (events : EventMap) (s : State F)
      → (ensure_resource library client app name k obj mutate_fn events s).0 ≡ ok o
      → Committed o (ensure_resource library client app name k obj mutate_fn events s).1.history
  unfolding ensure_resource reconcile_resource
  ensure_resource-Committed obj o events s h =
      let (gvk, _, rest, run) = bind_ok_inversion (lift (library.gvk_for_object k)) _ s o h in
      let (p, found, acting, run') =
        bind_ok_inversion (fetch library client k name obj) _ _ o rest in
      subst (Committed o) (sym (ap (λ r. r.1.history) (run ∙ run')))
        (act_inversion gvk events p o _ acting)
