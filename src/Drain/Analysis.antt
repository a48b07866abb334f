-- ===== src/Drain/Analysis.antt =====
-- Which nodes are candidates, which pods can be evicted, and how many nodes a run may take.
use slumlord.Prelude.{
  Bool, true, false, not, ◌&&◌, ◌||◌, Option, none, some, List, [], ◌∷◌, String, ◌==◌, lookup,
  contains, is_empty, any_of, if◌then◌else◌,
}
use slumlord.Prelude.Int.{ℤ, pos, suc_ℤ, add_ℤ, sub_ℤ, ltb_ℤ, to_int32, percent}
use slumlord.Cluster.{Labels}
use slumlord.Change.{or_else}
use slumlord.Policy.{labels_within}
use slumlord.Drain.Types.{DrainThresholds, DrainSafety, NodeDrainPolicy, Pod, Node, DrainNodeInfo}
use slumlord.Drain.Client.{DrainClient}
use slumlord.Drain.Requests.{pod_requests}

abbrev pub mirror_annotation : String
mirror_annotation = "kubernetes.io/config.mirror"

abbrev pub is_some : {A : Type 0} → Option A → Bool
is_some none = false
is_some (some x) = true

pub below : ℤ → Option ℤ → Bool
below p none = false
below p (some threshold) = ltb_ℤ p threshold

module _ {Q : Type 0} where
  unfoldable pub is_drainable : Pod Q → Bool → Bool → Labels → Bool
  is_drainable pod ignore_daemon_sets delete_empty_dir_data pod_selector =
      if is_some (lookup mirror_annotation pod.annotations)
      then false
      else if pod.deleting
      then false
      else if ignore_daemon_sets && contains "DaemonSet" pod.owner_kinds
      then false
      else if not delete_empty_dir_data && any_of (λ b. b) pod.empty_dirs
      then false
      else if not (is_empty pod_selector)
      then labels_within pod_selector pod.labels
      else true

  -- The pods that `waitForDrain` does not pass over.
  unfoldable pub is_remaining : String → Pod Q → Bool
  is_remaining node_name pod =
      if not (pod.node_name == node_name)
      then false
      else if pod.phase == "Succeeded" || pod.phase == "Failed"
      then false
      else if pod.deleting
      then false
      else if contains "DaemonSet" pod.owner_kinds
      then false
      else not (is_some (lookup mirror_annotation pod.annotations))

  -- `podsByNode[name]`
  pub pods_on : String → List (Pod Q) → List (Pod Q)
  pods_on name [] = []
  pods_on name (x ∷ xs) =
      let rest = pods_on name xs in
      if (not (x.node_name == "") && x.phase == "Running") && x.node_name == name
      then x ∷ rest
      else rest

  unfoldable pub is_node_ready : Node Q → Bool
  is_node_ready node = elim (lookup "Ready" node.conditions) [
    | none ↦ false
    | some status ↦ status == "True"
  ]

  -- Both thresholds are `int32`; the OR logic.
  unfoldable pub find_drain_candidates :
      DrainThresholds → List (DrainNodeInfo Q) → List (DrainNodeInfo Q)
  unfolding below
  find_drain_candidates t [] = []
  find_drain_candidates t (x ∷ xs) =
      let rest = find_drain_candidates t xs in
      if below x.cpu_request_percent t.cpu_request_percent
        || below x.mem_request_percent t.memory_request_percent
      then x ∷ rest
      else rest

  -- `sort.Slice`'s `less`, an `int32` sum.
  abbrev pub less_utilized : DrainNodeInfo Q → DrainNodeInfo Q → Bool
  less_utilized a b =
      ltb_ℤ (to_int32 (add_ℤ a.cpu_request_percent a.mem_request_percent))
        (to_int32 (add_ℤ b.cpu_request_percent b.mem_request_percent))

  unfoldable pub ready_count : List (DrainNodeInfo Q) → ℤ
  unfolding is_node_ready
  ready_count [] = pos 0
  ready_count (x ∷ xs) =
      let rest = ready_count xs in if is_node_ready x.node then to_int32 (suc_ℤ rest) else rest

abbrev pub or_one : Option ℤ → ℤ
or_one o = or_else o (pos 1)

-- `maxDrainable`, by the number of ready nodes.
unfoldable pub max_drainable : DrainSafety → ℤ → ℤ
max_drainable safety ready =
    let spare = to_int32 (sub_ℤ ready (or_one safety.min_ready_nodes)) in
    let spare' = if ltb_ℤ spare (pos 0) then pos 0 else spare in
    if ltb_ℤ (or_one safety.max_nodes_per_run) spare'
    then or_one safety.max_nodes_per_run
    else spare'

module _ (c : DrainClient) where
  open c use {Quantity, zero, add, exceeds, milli_value, value_of}

  sum_requests : Quantity × Quantity → List (Pod Quantity) → Quantity × Quantity
  sum_requests sums [] = sums
  sum_requests (cpu, mem) (x ∷ xs) =
      let (pod_cpu, pod_mem) = pod_requests zero add exceeds x.containers x.init_containers in
      sum_requests (add cpu pod_cpu, add mem pod_mem) xs

  unfoldable pub drainable : NodeDrainPolicy → List (Pod Quantity) → List (Pod Quantity)
  drainable p [] = []
  drainable p (x ∷ xs) =
      let rest = drainable p xs in
      if is_drainable x (or_else p.spec.drain.ignore_daemon_sets true)
        p.spec.drain.delete_empty_dir_data p.spec.drain.pod_selector
      then x ∷ rest
      else rest

  share : (Quantity → ℤ) → Quantity → Quantity → ℤ
  share reading requests allocatable =
      if ltb_ℤ (pos 0) (reading allocatable)
      then to_int32 (percent (reading requests) (reading allocatable))
      else pos 0

  unfoldable pub node_info :
      NodeDrainPolicy → List (Pod Quantity) → Node Quantity → DrainNodeInfo Quantity
  unfolding pods_on sum_requests drainable share
  node_info p pods node =
      let own = pods_on node.name pods in
      let (cpu, mem) = sum_requests (zero, zero) own in
      let cpu_allocatable = or_else node.cpu_allocatable zero in
      let mem_allocatable = or_else node.memory_allocatable zero in
      record {
        name = node.name;
        cpu_allocatable = cpu_allocatable;
        mem_allocatable = mem_allocatable;
        cpu_requests = cpu;
        mem_requests = mem;
        cpu_request_percent = share milli_value cpu cpu_allocatable;
        mem_request_percent = share value_of mem mem_allocatable;
        drainable_pods = drainable p own;
        node = node;
      }

  -- The loop of `analyzeNodes`.
  unfoldable pub node_infos :
      NodeDrainPolicy → List (Pod Quantity) → List (Node Quantity) → List (DrainNodeInfo Quantity)
  unfolding node_info
  node_infos p pods [] = []
  node_infos p pods (node ∷ nodes) =
      let rest = node_infos p pods nodes in
      if node.unschedulable
      then rest
      else if not (is_empty p.spec.node_selector)
          && not (labels_within p.spec.node_selector node.labels)
      then rest
      else node_info p pods node ∷ rest
