-- ===== src/Sleep/Journal.antt =====
-- The invariant of the entries that `sleepWorkloads` keeps in the schedule's status, through the
-- loops over one kind of workload.
use mathlib.Core.Path.{subst, ap₂}
use slumlord.Prelude.{
  ◌≡◌, refl, sym, inl, inr, false, none, some, List, ◌∷◌, map, String, contains, Bool-cases,
}
use slumlord.Action.{
  no_match, not_found, failed, Reply, value, error, Outcome, ok, err, panic, M, ◌>>=◌, gets,
  or_return, for_each, continue_with, answer_cases,
}
use slumlord.Action.Post.{Post, Keeps, Keeps-bind, Keeps-when, Keeps-for_each, Keeps-or_return}
use slumlord.Api.Workload.{Resource, Gvk}
use slumlord.Api.Schedule.{ManagedWorkload, SleepSchedule}
use slumlord.Cluster.{Client, RestatesUpdates, Run, call, put_managed}
use slumlord.Kinds.{workload_key, should_manage_type}
use slumlord.Change.{Decision, scale_down_app, suspend_cron_job}
use slumlord.Change.Names.{scale_down_app_names, suspend_cron_job_names}
use slumlord.Sleep.{
  append_managed, key_of, persist_status, record_managed, write_decided, sleep_one, sleep_apps,
  sleep_cron_jobs, for_each_resource, sleep_resources, if_managed,
}
use slumlord.Sleep.Keys.{
  Marked, Marked-fresh, Marked-snoc, keys, IsJournal, IsJournal-restated, IsJournal-append,
  map-snoc,
}

module _ (c : Client) (restates : RestatesUpdates c) (base : SleepSchedule) where
  abbrev pub R : Type 0
  R = Run c.World

  -- Between two steps, and after an error.
  abbrev pub Between : R → Type 0
  Between r = IsJournal base r.schedule × Marked r.managed (keys r.schedule)

  abbrev pub Broken : R → Type 0
  Broken r = IsJournal base r.schedule

  -- After an entry is written that is not yet marked.
  abbrev Entered : ManagedWorkload → R → Type 0
  Entered mw r = IsJournal base r.schedule × Marked (key_of mw ∷ r.managed) (keys r.schedule)

  Entered-persist_status :
      (mw : ManagedWorkload) (r : R) → Entered mw r → Post (Entered mw) Broken (persist_status c r)
  unfolding persist_status
  Entered-persist_status mw r i = elim (answer_cases (c.update_status r.schedule r.world)) [
    | inl (s', w', e) ↦
        let same = restates r.schedule s' r.world w' e in
        rw e (
          IsJournal-restated base r.schedule s' same i.0,
          subst (λ l. Marked (key_of mw ∷ r.managed) (map key_of l)) (sym same.managed_workloads)
              i.1,
        )
    | inr (x, w', e) ↦ rw e i.0
  ]

  Between-put_managed :
      (mw : ManagedWorkload) (p : Outcome (Unit {0}) × R)
      → Post (Entered mw) Broken p
      → Post Between Broken (
          continue_with p
            (λ _. do marked ← gets (λ (r : R). r.managed); put_managed (key_of mw ∷ marked)))
  Between-put_managed mw (ok x, r) i = i
  Between-put_managed mw (err e, r) i = i
  Between-put_managed mw (panic, r) i = i

  Entered-append_managed :
      (mw : ManagedWorkload) (r : R)
      → contains (key_of mw) r.managed ≡ false
      → Between r
      → Entered mw (record r { schedule = append_managed mw r.schedule })
  unfolding append_managed
  Entered-append_managed mw r fresh (j, marked) = (
    IsJournal-append base r.schedule mw
        (Marked-fresh r.managed (key_of mw) (keys r.schedule) marked fresh) j,
    rw (map-snoc mw r.schedule.status.managed_workloads)
        (Marked-snoc r.managed (key_of mw) (keys r.schedule) marked),
  )

  pub Between-record_managed :
      (mw : ManagedWorkload) (r : R)
      → contains (key_of mw) r.managed ≡ false
      → Between r
      → Post Between Broken (record_managed c mw r)
  unfolding record_managed
  Between-record_managed mw r fresh i =
      Between-put_managed mw
        (persist_status c (record r { schedule = append_managed mw r.schedule }))
        (Entered-persist_status mw (record r { schedule = append_managed mw r.schedule })
          (Entered-append_managed mw r fresh i))

  Between-write_decided :
      {A : Type 0} (update : A → c.World → Reply (Unit {0}) × c.World) (d : Decision A) (k : String)
      → ((x : A) (mw : ManagedWorkload) → d ≡ some (x, mw) → key_of mw ≡ k)
      → (r : R) → contains k r.managed ≡ false
      → Between r
      → Post Between Broken (write_decided c update d r)
  unfolding write_decided
  Between-write_decided update none k named r fresh i = i
  Between-write_decided update (some (x, mw)) k named r fresh i =
      elim (answer_cases (update x r.world)) [
        | inl (u, w, e) ↦
            rw e (Between-record_managed mw (record r { world = w }) (rw (named x mw refl) fresh) i)
        | inr (err', w, e) ↦ rw e i.0
      ]

  Keeps-sleep_one :
      {A : Type 0} (kind : String) (name : A → String) (decide : A → Decision A)
      (update : A → c.World → Reply (Unit {0}) × c.World)
      → ((x x' : A) (mw : ManagedWorkload)
          → decide x ≡ some (x', mw)
          → key_of mw ≡ workload_key kind (name x))
      → (x : A) → Keeps Between Broken (sleep_one c kind name decide update x)
  unfolding sleep_one
  Keeps-sleep_one kind name decide update named x r i =
      elim (Bool-cases (contains (workload_key kind (name x)) r.managed)) [
        | inl old ↦ rw old i
        | inr fresh ↦ rw fresh (
            Between-write_decided update (decide x) (workload_key kind (name x))
              (λ x' mw e. named x x' mw e) r fresh i)
      ]

  pub weaken : (r : R) → Between r → Broken r
  weaken r i = i.0

  -- A call that only reads: the schedule and the marks are as before.
  Keeps-call : {A : Type 0} (op : c.World → Reply A × c.World) → Keeps Between Broken (call op)
  Keeps-call op r i = i

  pub Keeps-if_managed :
      (kind : String) (body : M R (Unit {0}))
      → Keeps Between Broken body
      → Keeps Between Broken (if_managed c kind body)
  unfolding if_managed
  Keeps-if_managed kind body h r i =
      Keeps-when Between Broken (should_manage_type r.schedule kind) body h r i

  pub key_of_named :
      (mw : ManagedWorkload) (kind name : String)
      → (mw.kind ≡ kind) × (mw.name ≡ name)
      → key_of mw ≡ workload_key kind name
  unfolding key_of
  key_of_named mw kind name (k, n) = ap₂ workload_key k n

  Keeps-list :
      {A : Type 0} (op : c.World → Reply (List A) × c.World) (body : A → M R (Unit {0}))
      → ((x : A) → Keeps Between Broken (body x))
      → Keeps Between Broken (do answer ← call op; items ← or_return answer; for_each body items)
  Keeps-list op body h =
      Keeps-bind Between Broken (call op) (λ answer. or_return answer >>= for_each body)
        (Keeps-call op)
        (λ answer.
          Keeps-bind Between Broken (or_return answer) (for_each body)
            (Keeps-or_return Between Broken weaken answer)
            (λ items. Keeps-for_each Between Broken body items h))

  pub Keeps-for_each_resource :
      (body : Resource → M R (Unit {0}))
      → ((x : Resource) → Keeps Between Broken (body x))
      → (answer : Reply (List Resource)) → Keeps Between Broken (for_each_resource c body answer)
  unfolding for_each_resource
  Keeps-for_each_resource body h (value items) = Keeps-for_each Between Broken body items h
  Keeps-for_each_resource body h (error no_match) = λ r i. i
  Keeps-for_each_resource body h (error not_found) = weaken
  Keeps-for_each_resource body h (error failed) = weaken

  pub Keeps-sleep_apps : (kind : String) → Keeps Between Broken (sleep_apps c kind)
  unfolding sleep_apps
  Keeps-sleep_apps kind r =
      Keeps-list (c.list_apps kind r.schedule.namespace r.schedule.spec.selector.match_labels)
        (sleep_one c kind (λ d. d.name) (scale_down_app kind) (c.update_app kind))
        (Keeps-sleep_one kind (λ d. d.name) (scale_down_app kind) (c.update_app kind)
          (λ d d' mw e. key_of_named mw kind d.name (scale_down_app_names kind d d' mw e)))
        r

  pub Keeps-sleep_cron_jobs : Keeps Between Broken (sleep_cron_jobs c)
  unfolding sleep_cron_jobs
  Keeps-sleep_cron_jobs r =
      Keeps-list (c.list_cron_jobs r.schedule.namespace r.schedule.spec.selector.match_labels)
        (sleep_one c "CronJob" (λ cj. cj.name) suspend_cron_job c.update_cron_job)
        (Keeps-sleep_one "CronJob" (λ cj. cj.name) suspend_cron_job c.update_cron_job
          (λ cj cj' mw e. key_of_named mw "CronJob" cj.name (suspend_cron_job_names cj cj' mw e)))
        r

  pub Keeps-sleep_resources :
      (gvk : Gvk) (kind : String) (decide : Resource → Decision Resource)
      → ((x x' : Resource) (mw : ManagedWorkload)
          → decide x ≡ some (x', mw)
          → (mw.kind ≡ kind) × (mw.name ≡ x.name))
      → Keeps Between Broken (sleep_resources c gvk kind decide)
  unfolding sleep_resources
  Keeps-sleep_resources gvk kind decide named r =
      Keeps-for_each_resource (sleep_one c kind (λ x. x.name) decide (c.update_resource gvk))
        (Keeps-sleep_one kind (λ x. x.name) decide (c.update_resource gvk)
          (λ x x' mw e. key_of_named mw kind x.name (named x x' mw e)))
        _ _
