-- ===== src/Packer/Analysis.antt =====
-- `analyzeNodes` and `findCandidateNodes`.
use slumlord.Prelude.{
  Bool, false, not, ◌&&◌, Option, none, some, List, [], ◌∷◌, String, ◌==◌, is_empty, if◌then◌else◌,
}
use slumlord.Prelude.Int.{ℤ, pos, add_ℤ, ltb_ℤ, to_int32, percent}
use slumlord.Change.{or_else}
use slumlord.Policy.{labels_within}
use slumlord.Drain.Requests.{pod_requests}
use slumlord.Packer.Types.{BinPackerThresholds, BinPacker, Pod, Node, NodeInfo}
use slumlord.Packer.Client.{PackerClient}
use slumlord.Packer.Owners.{ReplicaSets, is_evictable}

abbrev pub default_exclude_namespaces : List String
default_exclude_namespaces = "kube-system" ∷ "kube-public" ∷ "kube-node-lease" ∷ []

-- The namespaces to exclude.
abbrev pub excluded_namespaces : BinPacker → List String
excluded_namespaces p =
    if is_empty p.spec.exclude_namespaces
    then default_exclude_namespaces
    else p.spec.exclude_namespaces

module _ {Q : Type 0} where
  -- `podsByNode[name]`
  pub running_on : String → List (Pod Q) → List (Pod Q)
  running_on name [] = []
  running_on name (x ∷ xs) =
      let rest = running_on name xs in
      if (not (x.node_name == "") && x.phase == "Running") && x.node_name == name
      then x ∷ rest
      else rest

  unfoldable pub evictable : BinPacker → ReplicaSets → List (Pod Q) → List (Pod Q)
  unfolding is_evictable
  evictable p m [] = []
  evictable p m (x ∷ xs) =
      let rest = evictable p m xs in
      if is_evictable x (excluded_namespaces p) p.spec.namespaces m then x ∷ rest else rest

  -- Both thresholds where both are set, and never a node where none is.
  is_candidate : Option ℤ → Option ℤ → NodeInfo Q → Bool
  is_candidate (some cpu) (some memory) info =
      ltb_ℤ info.cpu_request_percent cpu && ltb_ℤ info.mem_request_percent memory
  is_candidate (some cpu) none info = ltb_ℤ info.cpu_request_percent cpu
  is_candidate none (some memory) info = ltb_ℤ info.mem_request_percent memory
  is_candidate none none info = false

  -- The loop of `findCandidateNodes`.
  unfoldable pub below_thresholds : BinPackerThresholds → List (NodeInfo Q) → List (NodeInfo Q)
  unfolding is_candidate
  below_thresholds t [] = []
  below_thresholds t (x ∷ xs) =
      let rest = below_thresholds t xs in
      if is_empty x.evictable_pods
      then rest
      else if is_candidate t.cpu_request_percent t.memory_request_percent x
      then x ∷ rest
      else rest

  -- `sort.Slice`'s `less`, an `int32` sum.
  abbrev pub less_requested : NodeInfo Q → NodeInfo Q → Bool
  less_requested a b =
      ltb_ℤ (to_int32 (add_ℤ a.cpu_request_percent a.mem_request_percent))
        (to_int32 (add_ℤ b.cpu_request_percent b.mem_request_percent))

module _ (c : PackerClient) where
  open c use {Quantity, zero, add, exceeds, milli_value, value_of, sort_slice}

  -- The sums of the loop over the node's pods.
  total_requests : Quantity × Quantity → List (Pod Quantity) → Quantity × Quantity
  total_requests sums [] = sums
  total_requests (cpu, mem) (x ∷ xs) =
      let (pod_cpu, pod_mem) = pod_requests zero add exceeds x.containers x.init_containers in
      total_requests (add cpu pod_cpu, add mem pod_mem) xs

  request_percent : (Quantity → ℤ) → Quantity → Quantity → ℤ
  request_percent reading requests allocatable =
      if ltb_ℤ (pos 0) (reading allocatable)
      then to_int32 (percent (reading requests) (reading allocatable))
      else pos 0

  unfoldable pub info_of :
      BinPacker → ReplicaSets → List (Pod Quantity) → Node Quantity → NodeInfo Quantity
  unfolding running_on evictable total_requests request_percent
  info_of p m pods node =
      let own = running_on node.name pods in
      let (cpu, mem) = total_requests (zero, zero) own in
      let cpu_allocatable = or_else node.cpu_allocatable zero in
      let mem_allocatable = or_else node.memory_allocatable zero in
      record {
        name = node.name;
        cpu_allocatable = cpu_allocatable;
        mem_allocatable = mem_allocatable;
        cpu_requests = cpu;
        mem_requests = mem;
        cpu_request_percent = request_percent milli_value cpu cpu_allocatable;
        mem_request_percent = request_percent value_of mem mem_allocatable;
        evictable_pods = evictable p m own;
        node = node;
        scheduled_requests = record { cpu = cpu; mem = mem };
      }

  -- The loop of `analyzeNodes` over the nodes.
  unfoldable pub infos_of :
      BinPacker
      → ReplicaSets
      → List (Pod Quantity)
      → List (Node Quantity)
      → List (NodeInfo Quantity)
  unfolding info_of
  infos_of p m pods [] = []
  infos_of p m pods (node ∷ nodes) =
      let rest = infos_of p m pods nodes in
      if node.unschedulable
      then rest
      else if not (is_empty p.spec.node_selector)
          && not (labels_within p.spec.node_selector node.labels)
      then rest
      else info_of p m pods node ∷ rest

  unfoldable pub find_candidate_nodes :
      BinPackerThresholds → List (NodeInfo Quantity) → List (NodeInfo Quantity)
  unfolding below_thresholds
  find_candidate_nodes t infos = sort_slice less_requested (below_thresholds t infos)
