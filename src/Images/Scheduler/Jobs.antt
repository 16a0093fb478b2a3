-- ===== src/Images/Scheduler/Jobs.antt =====
-- The gocron jobs that are alive belong to the job table: no job is left behind.
use application_controller.Common.{
  String, ℕ, Bool, true, false, Option, none, some, List, [], ◌∷◌, GoMap, ◌==◌, string_eq, nat_eq,
  if◌then◌else◌, ◌≡◌, refl, arith, inl, inr, In, lookup, lookup-insert, eq_iff, elem, map,
  Bool-cases, nat_beq_iff, ap, if_cases, subst,
}
use application_controller.Errors.{Result, ok, err}
use application_controller.Api.{Application}
use application_controller.Images.Cache.{get, keep_only}
use application_controller.Images.Cache.Laws.{lookup-keep_only}
use application_controller.Images.Scheduler.{
  JobHandle, GocronCall, scheduled, removed, GocronLibrary, CronScheduler, schedule_or_default,
  job_key, set_job, update_job, upsert_job, remove_jobs, keep_jobs,
}

-- The job has been scheduled, and not removed since.
abbrev pub is_live : List GocronCall → ℕ → Bool
is_live [] j = false
is_live (scheduled i _ _ ∷ calls) j = if i == j then true else is_live calls j
is_live (removed i ∷ calls) j = if i == j then false else is_live calls j

-- The entry of the job table that a live job belongs to.
pub record Entry (s : CronScheduler) (j : ℕ) : Type 0 where
  pub key : String
  pub handle : JobHandle
  pub present : lookup key s.jobs.entries ≡ some handle
  pub own : handle.gocron_job ≡ j

-- Every live job is that of an entry.
abbrev pub IsTracked : CronScheduler → Type 0
IsTracked s = (j : ℕ) → is_live s.scheduler j ≡ true → Entry s j

module _ (library : GocronLibrary) (app : Application) where
  -- The live jobs belong to the entries of other Applications.
  abbrev IsElsewhere : CronScheduler → Type 0
  IsElsewhere s =
      (j : ℕ)
      → is_live s.scheduler j ≡ true
      → (e : Entry s j) × ((job_key library app == e.key) ≡ false)

  set_job-IsTracked :
      (schedule : String) (s : CronScheduler) (r : Result ℕ)
      → IsElsewhere s
      → IsTracked (set_job library app schedule s r).1
  unfolding set_job
  set_job-IsTracked schedule s (err e) others j live = (others j live).0
  set_job-IsTracked schedule s (ok job) others j live = elim (Bool-cases (job == j)) [
    | inl new ↦ record {
      key = job_key library app;
      handle = record { gocron_job = job; schedule = schedule };
      present = ground (
        arith,
        lookup-insert (job_key library app) (job_key library app)
            (record { gocron_job = job; schedule = schedule }) s.jobs.entries,
        eq_iff (job_key library app) (job_key library app),
      );
      own = (nat_beq_iff job j).0 new;
    }
    | inr old ↦ kept old (others j (rw old at live))
  ]
    where
      kept :
          (job == j) ≡ false
          → (e : Entry s j) × ((job_key library app == e.key) ≡ false)
          → Entry (set_job library app schedule s (ok job)).1 j
      kept old (e, apart) = record {
        key = e.key;
        handle = e.handle;
        present = rw (lookup-insert (job_key library app) e.key, apart) e.present;
        own = e.own;
      }

  -- An entry of another job than that of the Application's own entry has another key.
  elsewhere_of_ne :
      (s : CronScheduler) (j : ℕ) (h : JobHandle) (e : Entry s j)
      → get (job_key library) s.jobs app ≡ some h
      → (h.gocron_job == j) ≡ false
      → (job_key library app == e.key) ≡ false
  unfolding get
  elsewhere_of_ne s j h e held other =
      ground
        (arith, e.present, e.own, eq_iff (job_key library app) e.key, nat_beq_iff h.gocron_job j)

  elsewhere_of_none :
      (s : CronScheduler) (j : ℕ) (e : Entry s j)
      → get (job_key library) s.jobs app ≡ none
      → (job_key library app == e.key) ≡ false
  unfolding get
  elsewhere_of_none s j e held = ground (arith, e.present, eq_iff (job_key library app) e.key)

  IsElsewhere-removed :
      (s : CronScheduler) (h : JobHandle)
      → get (job_key library) s.jobs app ≡ some h
      → IsTracked s
      → IsElsewhere (record s { scheduler = removed h.gocron_job ∷ s.scheduler })
  IsElsewhere-removed s h held tracked j live = elim (Bool-cases (h.gocron_job == j)) [
    | inl gone ↦ cc (rw gone at live)
    | inr other ↦ apart other (tracked j (rw other at live))
  ]
    where
      s' : CronScheduler
      s' = record s { scheduler = removed h.gocron_job ∷ s.scheduler }

      apart :
          (h.gocron_job == j) ≡ false
          → Entry s j
          → (e : Entry s' j) × ((job_key library app == e.key) ≡ false)
      apart other e = (
        record { key = e.key; handle = e.handle; present = e.present; own = e.own },
        elsewhere_of_ne s j h e held other,
      )

  update_job-IsTracked :
      (s : CronScheduler) (o : Option JobHandle)
      → get (job_key library) s.jobs app ≡ o
      → IsTracked s
      → IsTracked (update_job library app s o).1
  unfolding update_job
  update_job-IsTracked s none held tracked =
      set_job-IsTracked _ s (library.cron_do s.scheduler (schedule_or_default s app))
        λ j live. (tracked j live, elsewhere_of_none s j (tracked j live) held)
  update_job-IsTracked s (some h) held tracked =
      elim (Bool-cases (h.schedule == schedule_or_default s app)) [
        | inl same ↦ rw same tracked
        | inr changed ↦ rw changed (
            set_job-IsTracked _ s' (library.cron_do s'.scheduler (schedule_or_default s' app))
              (IsElsewhere-removed s h held tracked))
      ]
    where
      s' : CronScheduler
      s' = record s { scheduler = removed h.gocron_job ∷ s.scheduler }

  -- If every live job belongs to an entry of the job table, this still holds after UpsertJob of
  -- any Application, whether it sets no job, replaces one, fails, or is called before Start.
  pub upsert_job-IsTracked :
      (s : CronScheduler) → IsTracked s → IsTracked (upsert_job library app s).1
  unfolding upsert_job
  upsert_job-IsTracked s tracked =
      if_cases (λ (r : Result (Unit {0}) × CronScheduler). IsTracked r.1) s.is_started _ _
        (λ _. update_job-IsTracked s _ refl tracked) (λ _. tracked)

-- A range over the map meets each of its entries.
abbrev pub Visits : (GoMap String JobHandle → GoMap String JobHandle) → Type 0
Visits order =
    (m : GoMap String JobHandle) (k : String) (h : JobHandle)
    → lookup k m ≡ some h
    → In (k, h) (order m)

live-remove_jobs :
    (es : GoMap String JobHandle) (calls : List GocronCall) (j : ℕ)
    → is_live (remove_jobs es calls) j ≡ true
    → is_live calls j ≡ true
unfolding remove_jobs
live-remove_jobs [] calls j live = live
live-remove_jobs ((k, h) ∷ es) calls j live =
    ground (arith, live-remove_jobs es (removed h.gocron_job ∷ calls) j)

not-live-remove_jobs :
    (es : GoMap String JobHandle) (calls : List GocronCall) (k : String) (h : JobHandle)
    → In (k, h) es
    → is_live (remove_jobs es calls) h.gocron_job ≡ false
unfolding remove_jobs
not-live-remove_jobs [] calls k h p = elim p [ ]
not-live-remove_jobs ((i, g) ∷ es) calls k h (inl here) = ground (
  arith,
  live-remove_jobs es (removed g.gocron_job ∷ calls) h.gocron_job,
  nat_beq_iff g.gocron_job h.gocron_job,
  ap (λ (e : String × JobHandle). e.1) here,
)
not-live-remove_jobs ((i, g) ∷ es) calls k h (inr rest) =
    not-live-remove_jobs es (removed g.gocron_job ∷ calls) k h rest

module _ (library : GocronLibrary) (order : GoMap String JobHandle → GoMap String JobHandle)
    (visits : Visits order) (apps : List Application) (s : CronScheduler) where
  -- If every live job belongs to an entry of the job table, then after KeepJobs(apps), in whatever
  -- order its range meets the discarded entries, every live job belongs to an entry whose key is
  -- that of one of the Applications in apps: no update check of another Application runs on.
  pub keep_jobs-IsTracked :
      IsTracked s
      → (j : ℕ) → is_live (keep_jobs library order apps s).scheduler j ≡ true
      → (e : Entry (keep_jobs library order apps s) j) × (elem e.key (map (job_key library) apps)
          ≡ true)
  unfolding keep_jobs
  keep_jobs-IsTracked tracked j live = belongs (
      tracked j
        (live-remove_jobs (order (keep_only (job_key library) s.jobs apps).1) s.scheduler j live))
    where
      removed_job :
          (e : Entry s j)
          → elem e.key (map (job_key library) apps) ≡ false
          → is_live (keep_jobs library order apps s).scheduler j ≡ false
      removed_job e gone =
          subst (λ i. is_live (keep_jobs library order apps s).scheduler i ≡ false) e.own
            (not-live-remove_jobs (order (keep_only (job_key library) s.jobs apps).1) s.scheduler
              e.key e.handle (visits _ e.key e.handle discarded))
        where
          discarded : lookup e.key (keep_only (job_key library) s.jobs apps).1 ≡ some e.handle
          discarded = rw ((lookup-keep_only (job_key library) s.jobs apps e.key).1, gone) e.present

      belongs :
          Entry s j
          → (e : Entry (keep_jobs library order apps s) j) × (elem e.key
                (map (job_key library) apps)
              ≡ true)
      belongs e = elim (Bool-cases (elem e.key (map (job_key library) apps))) [
        | inl kept ↦ (
          record {
            key = e.key;
            handle = e.handle;
            present = rw ((lookup-keep_only (job_key library) s.jobs apps e.key).0, kept) e.present;
            own = e.own;
          },
          kept,
        )
        | inr gone ↦ cc (live, removed_job e gone)
      ]
