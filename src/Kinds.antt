-- ===== src/Kinds.antt =====
-- The workload kinds of internal/controller/sleepschedule_controller.go and the custom resources'
-- API groups.
use Prim.Native.String.{◌++◌ as append}
use slumlord.Prelude.{Bool, ◌||◌, String, ◌==◌, is_empty, any_of, if◌then◌else◌}
use slumlord.Api.Workload.{Gvk}
use slumlord.Api.Schedule.{SleepSchedule}

abbrev pub cnpg_cluster_gvk : Gvk
cnpg_cluster_gvk = record { group = "postgresql.cnpg.io"; version = "v1"; kind = "Cluster" }

abbrev pub hibernation_annotation : String
hibernation_annotation = "cnpg.io/hibernation"

abbrev pub flux_helm_release_gvk : Gvk
flux_helm_release_gvk = record {
  group = "helm.toolkit.fluxcd.io";
  version = "v2";
  kind = "HelmRelease";
}

abbrev pub flux_kustomization_gvk : Gvk
flux_kustomization_gvk = record {
  group = "kustomize.toolkit.fluxcd.io";
  version = "v1";
  kind = "Kustomization";
}

abbrev pub prom_thanos_ruler_gvk : Gvk
prom_thanos_ruler_gvk = record {
  group = "monitoring.coreos.com";
  version = "v1";
  kind = "ThanosRuler";
}

abbrev pub prom_alertmanager_gvk : Gvk
prom_alertmanager_gvk = record {
  group = "monitoring.coreos.com";
  version = "v1";
  kind = "Alertmanager";
}

abbrev pub prom_prometheus_gvk : Gvk
prom_prometheus_gvk = record {
  group = "monitoring.coreos.com";
  version = "v1";
  kind = "Prometheus";
}

abbrev pub mariadb_gvk : Gvk
mariadb_gvk = record { group = "k8s.mariadb.com"; version = "v1alpha1"; kind = "MariaDB" }

abbrev pub mariadb_max_scale_gvk : Gvk
mariadb_max_scale_gvk = record {
  group = "k8s.mariadb.com";
  version = "v1alpha1";
  kind = "MaxScale";
}

abbrev pub eck_elasticsearch_gvk : Gvk
eck_elasticsearch_gvk = record {
  group = "elasticsearch.k8s.elastic.co";
  version = "v1";
  kind = "Elasticsearch";
}

abbrev pub eck_kibana_gvk : Gvk
eck_kibana_gvk = record { group = "kibana.k8s.elastic.co"; version = "v1"; kind = "Kibana" }

-- The GVK of a list call: `gvk.Kind + "List"`.
abbrev pub list_gvk : Gvk → Gvk
list_gvk g = record { group = g.group; version = g.version; kind = append g.kind "List" }

-- `kind + "/" + name`, the key of the set of managed workloads.
unfoldable pub workload_key : String → String → String
workload_key kind name = append kind (append "/" name)

unfoldable pub should_manage_type : SleepSchedule → String → Bool
should_manage_type s kind =
    let types = s.spec.selector.types in is_empty types || any_of (λ t. t == kind) types

-- The cases of the `switch managed.Kind` in `wakeWorkloads`; `unlisted` is any other text.
pub data Kind : Type 0 where
  deployment stateful_set cron_job cluster : Kind
  helm_release kustomization mariadb max_scale : Kind
  thanos_ruler alertmanager prometheus kibana elasticsearch unlisted : Kind

unfoldable pub kind_case : String → Kind
kind_case k =
    if k == "HelmRelease"
    then helm_release
    else if k == "Kustomization"
    then kustomization
    else if k == "MariaDB"
    then mariadb
    else if k == "MaxScale"
    then max_scale
    else if k == "Deployment"
    then deployment
    else if k == "StatefulSet"
    then stateful_set
    else if k == "CronJob"
    then cron_job
    else if k == "Cluster"
    then cluster
    else if k == "ThanosRuler"
    then thanos_ruler
    else if k == "Alertmanager"
    then alertmanager
    else if k == "Prometheus"
    then prometheus
    else if k == "Kibana"
    then kibana
    else if k == "Elasticsearch"
    then elasticsearch
    else unlisted
