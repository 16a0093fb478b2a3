-- ===== src/Operator/Images.antt =====
-- Which images the objects run that the operator writes.
use application_controller.Common.{
  String, true, some, List, [], ◌∷◌, GoMap, ◌≡◌, refl, sym, ◌∙◌, subst, arith, All,
}
use application_controller.Errors.{Result, ok, err}
use application_controller.Kube.{NamespacedName, Container, Kind, Object, Spec}
use application_controller.Api.{ImageSpec, Application}
use application_controller.Images.ImageRef.{ImageRef, to_string}
use application_controller.Images.Scheduler.{GocronLibrary, JobHandle}
use application_controller.Images.Watcher.{run, CronImageWatcher}
use application_controller.Images.Watcher.Schedules.{
  HoldsAnswers, IsHonest, find_image-HoldsAnswers, step-HoldsAnswers, run-HoldsAnswers,
}
use application_controller.Controller.State.{Call, Library, State}
use application_controller.Controller.State.Keeps.{IsHonest as KeepsAnswers}
use application_controller.Controller.Mutators.Deployments.{mutate_deployment}
use application_controller.Controller.Mutators.CronJobs.{mutate_cron_job}
use application_controller.Controller.Resource.Rightful.{IsSound}
use application_controller.Controller.Reconciler.{Reconciler}
use application_controller.Controller.Reconciler.Fitting.{is_plain, IsFitting}
use application_controller.Controller.Reconciler.Owned.{first_image}
use application_controller.Controller.Reconcile.Phases.{reconcile-unread}
use application_controller.Controller.Reconcile.Rightful.{reconcile-Holds}
use application_controller.Operator.FirstImage.{first_image-deployment, first_image-cron_job}
use application_controller.Operator.{
  Surroundings, image_watcher, reconcile_with, Action, watched, reconciled, perform, operate,
}

module _ (cache_key : ImageSpec → String) (library : GocronLibrary)
    (order : GoMap String JobHandle → GoMap String JobHandle)
    (Answers : String → ImageRef → Type 0) where
  -- Whatever the state of the watcher, the registry gives only answers to the key, also to the
  -- lookups in the meantime.
  pub record IsTruthful (around : Surroundings) : Type 0 where
    pub answers :
        (w : CronImageWatcher) (spec : ImageSpec) (ref : ImageRef)
        → around.registry w spec ≡ ok ref
        → Answers (cache_key spec) ref
    pub meanwhile :
        (w : CronImageWatcher) (spec : ImageSpec)
        → All (IsHonest cache_key library order Answers) (around.meanwhile w spec)

  abbrev pub IsTruthfulAction : Action → Type 0
  IsTruthfulAction (watched ev) = IsHonest cache_key library order Answers ev
  IsTruthfulAction (reconciled around r name) = IsTruthful around

  -- The first container runs an image that is an answer for the Application.
  abbrev pub RunsAnswer : Application → List Container → Type 0
  RunsAnswer app cs =
      (ref : ImageRef) × Answers (cache_key app.spec.image) ref
      × (first_image cs ≡ some (to_string ref))

  abbrev pub Runs : Application → (k : Kind) → Spec k → Type 0
  Runs app Kind.deployment spec = RunsAnswer app spec.template.containers
  Runs app Kind.cron_job spec = RunsAnswer app spec.template.containers
  Runs app Kind.service_account spec = Unit
  Runs app Kind.role_binding spec = Unit
  Runs app Kind.cluster_role_binding spec = Unit
  Runs app Kind.service spec = Unit
  Runs app Kind.pod_monitor spec = Unit
  Runs app Kind.ingress_route spec = Unit

  -- SetObjectDefaults_Deployment sets no image.
  abbrev pub KeepsImages : Library → Type 0
  KeepsImages library =
      (d : Object Kind.deployment)
      → first_image (library.set_object_defaults_deployment d).spec.template.containers
        ≡ first_image d.spec.template.containers

  plain-Runs :
      (app : Application) (k : Kind) → is_plain k ≡ true → (spec : Spec k) → Runs app k spec
  plain-Runs app Kind.deployment plain spec = absurd (ground (arith, plain))
  plain-Runs app Kind.cron_job plain spec = absurd (ground (arith, plain))
  plain-Runs app Kind.service_account plain spec = tt
  plain-Runs app Kind.role_binding plain spec = tt
  plain-Runs app Kind.cluster_role_binding plain spec = tt
  plain-Runs app Kind.service plain spec = tt
  plain-Runs app Kind.pod_monitor plain spec = tt
  plain-Runs app Kind.ingress_route plain spec = tt

  image_watcher-honest :
      (around : Surroundings) (Q : Call → Type 0)
      → IsTruthful around
      → KeepsAnswers
          (HoldsAnswers cache_key library order Answers)
          Q
          (λ spec ref. Answers (cache_key spec) ref)
          (image_watcher cache_key library order around)
  unfolding image_watcher
  image_watcher-honest around Q truthful spec w h =
      let now = run cache_key library order w (around.meanwhile w spec) in
      find_image-HoldsAnswers cache_key library order Answers now (around.registry now) spec
        (truthful.answers now spec)
        (run-HoldsAnswers cache_key library order Answers w (around.meanwhile w spec)
          (truthful.meanwhile w spec) h)

  watched-IsFitting :
      (around : Surroundings) (r : Reconciler CronImageWatcher) (app : Application)
      → KeepsImages r.library
      → IsTruthful around
      → IsFitting
          (HoldsAnswers cache_key library order Answers)
          (Runs app)
          (λ spec ref. Answers (cache_key spec) ref)
          (record r { image_finder = image_watcher cache_key library order around })
          app
  unfolding mutate_deployment mutate_cron_job
  watched-IsFitting around r app keeps truthful = record {
    honest = image_watcher-honest around (IsSound r.library app (Runs app)) truthful;
    plain = plain-Runs app;
    deployment =
        λ ref answer o. (ref, answer, keeps _ ∙ first_image-deployment app ref o.spec.template);
    cron_job = λ job ref answer o. (ref, answer, first_image-cron_job app ref job o.spec.template);
  }

  -- With any image, the objects fit nothing in particular.
  unwatched-IsFitting :
      (around : Surroundings) (r : Reconciler CronImageWatcher) (app : Application)
      → IsTruthful around
      → IsFitting
          (HoldsAnswers cache_key library order Answers)
          (λ k spec. Unit)
          (λ spec ref. Answers (cache_key spec) ref)
          (record r { image_finder = image_watcher cache_key library order around })
          app
  unwatched-IsFitting around r app truthful = record {
    honest = image_watcher-honest around (IsSound r.library app (λ k spec. Unit)) truthful;
    plain = λ k plain spec. tt;
    deployment = λ ref answer o. tt;
    cron_job = λ job ref answer o. tt;
  }

  reconcile_with-HoldsAnswers :
      (around : Surroundings) (r : Reconciler CronImageWatcher) (name : NamespacedName)
      (w : CronImageWatcher) (answer : Result Application)
      → r.client.get_application [] name ≡ answer
      → IsTruthful around
      → HoldsAnswers cache_key library order Answers w
      → HoldsAnswers cache_key library order Answers
          (reconcile_with cache_key library order around r name w).1.finder
  unfolding reconcile_with
  reconcile_with-HoldsAnswers around r name w (ok app) read truthful h =
      (reconcile-Holds (HoldsAnswers cache_key library order Answers) (λ k spec. Unit)
        (λ spec ref. Answers (cache_key spec) ref)
        (record r { image_finder = image_watcher cache_key library order around }) app
        (unwatched-IsFitting around r app truthful) name (record { history = []; finder = w }) read
        (h, tt)).0
  reconcile_with-HoldsAnswers around r name w (err e) read truthful h =
      subst (λ (s : State CronImageWatcher). HoldsAnswers cache_key library order Answers s.finder)
        (sym (
          reconcile-unread
            (record r { image_finder = image_watcher cache_key library order around }) name e
            (record { history = []; finder = w }) read))
        h

  perform-HoldsAnswers :
      (w : CronImageWatcher) (a : Action)
      → IsTruthfulAction a
      → HoldsAnswers cache_key library order Answers w
      → HoldsAnswers cache_key library order Answers (perform cache_key library order w a)
  unfolding perform
  perform-HoldsAnswers w (watched ev) truthful h =
      step-HoldsAnswers cache_key library order Answers w ev truthful h
  perform-HoldsAnswers w (reconciled around r name) truthful h =
      reconcile_with-HoldsAnswers around r name w (r.client.get_application [] name) refl truthful h

  operate-HoldsAnswers :
      (w : CronImageWatcher) (actions : List Action)
      → All IsTruthfulAction actions
      → HoldsAnswers cache_key library order Answers w
      → HoldsAnswers cache_key library order Answers (operate cache_key library order w actions)
  unfolding operate
  operate-HoldsAnswers w [] truthful h = h
  operate-HoldsAnswers w (a ∷ actions) truthful h =
      operate-HoldsAnswers (perform cache_key library order w a) actions truthful.1
        (perform-HoldsAnswers w a truthful.0 h)

  -- Let the watcher's cache hold only answers to its keys, and let the registry give only answers,
  -- throughout: while the watcher handles events and Reconciles run, in any order, and in one more
  -- Reconcile, which reads the Application as `app`, and between whose lookups the watcher handles
  -- further events. Then the first container of each Deployment and each CronJob that this Reconcile
  -- hands to the API server runs an answer for the image section of `app`; whatever it deletes is
  -- owned by `app`, and whatever it writes carries the ownership; and the cache still holds only
  -- answers. SetObjectDefaults_Deployment sets no image.
  pub reconcile_with-IsSound :
      (w : CronImageWatcher) (actions : List Action) (around : Surroundings)
      (r : Reconciler CronImageWatcher) (name : NamespacedName) (app : Application)
      → HoldsAnswers cache_key library order Answers w
      → All IsTruthfulAction actions
      → IsTruthful around
      → KeepsImages r.library
      → r.client.get_application [] name ≡ ok app
      → let after =
          reconcile_with cache_key library order around r name
            (operate cache_key library order w actions) in
        HoldsAnswers cache_key library order Answers after.1.finder
        × All (IsSound r.library app (Runs app)) after.1.history
  unfolding reconcile_with
  reconcile_with-IsSound w actions around r name app h honest truthful keeps read =
      reconcile-Holds (HoldsAnswers cache_key library order Answers) (Runs app)
        (λ spec ref. Answers (cache_key spec) ref)
        (record r { image_finder = image_watcher cache_key library order around }) app
        (watched-IsFitting around r app keeps truthful) name
        (record { history = []; finder = operate cache_key library order w actions }) read
        (operate-HoldsAnswers w actions honest h, tt)
