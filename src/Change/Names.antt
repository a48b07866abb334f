-- ===== src/Change/Names.antt =====
-- The entry of a decision names the object that it was made about.
use slumlord.Prelude.{◌≡◌, some, List, String, arith}
use slumlord.Prelude.Int.{ℤ}
use slumlord.Api.Workload.{App, CronJob, Resource}
use slumlord.Api.Schedule.{ManagedWorkload}
use slumlord.Change.{
  scale_down_app, suspend_cron_job, hibernate_cluster, suspend_resource, scale_down_field,
  scale_down_elasticsearch,
}

pub scale_down_app_names :
    (kind : String) (d d' : App) (mw : ManagedWorkload)
    → scale_down_app kind d ≡ some (d', mw)
    → (mw.kind ≡ kind) × (mw.name ≡ d.name)
unfolding scale_down_app
scale_down_app_names kind d d' mw h = ground arith

pub suspend_cron_job_names :
    (cj cj' : CronJob) (mw : ManagedWorkload)
    → suspend_cron_job cj ≡ some (cj', mw)
    → (mw.kind ≡ "CronJob") × (mw.name ≡ cj.name)
unfolding suspend_cron_job
suspend_cron_job_names cj cj' mw h = ground arith

pub hibernate_cluster_names :
    (r r' : Resource) (mw : ManagedWorkload)
    → hibernate_cluster r ≡ some (r', mw)
    → (mw.kind ≡ "Cluster") × (mw.name ≡ r.name)
unfolding hibernate_cluster
hibernate_cluster_names r r' mw h = ground arith

pub suspend_resource_names :
    (kind : String) (r r' : Resource) (mw : ManagedWorkload)
    → suspend_resource kind r ≡ some (r', mw)
    → (mw.kind ≡ kind) × (mw.name ≡ r.name)
unfolding suspend_resource
suspend_resource_names kind r r' mw h = ground arith

pub scale_down_field_names :
    (key kind : String) (r r' : Resource) (mw : ManagedWorkload)
    → scale_down_field key kind r ≡ some (r', mw)
    → (mw.kind ≡ kind) × (mw.name ≡ r.name)
unfolding scale_down_field
scale_down_field_names key kind r r' mw h = ground arith

pub scale_down_elasticsearch_name :
    (r r' : Resource) (counts : List (String × ℤ))
    → scale_down_elasticsearch r ≡ some (r', counts)
    → r'.name ≡ r.name
unfolding scale_down_elasticsearch
scale_down_elasticsearch_name r r' counts h = ground arith
