-- ===== src/Samples/Drains.antt =====
-- The theorems on the node drain controller at concrete inputs.
use mathlib.Core.List.{Memᴰ}
use mathlib.Core.List.Memᴰ.{head}
use slumlord.Prelude.{
  ℕ, ◌+◌, ◌*◌, ◌-◌, ◌/◌, ◌≤◌, ◌<◌, ◌^◌, All, ◌≡◌, ◌↔◌, refl, ◌⊎◌, inl, Bool, true, false, none,
  some, List, [], ◌∷◌, String, length, arith, eqb,
}
use slumlord.Prelude.Int.{pos, to_int32}
use slumlord.Action.{value, ok}
use slumlord.Clock.{second_ns, minute_ns}
use slumlord.Drain.Types.{NodeDrainPolicy, Pod, Node, DrainRunStatus, DrainNodeInfo}
use slumlord.Drain.Client.{DrainClient, DrainRun}
use slumlord.Drain.Analysis.{is_node_ready, node_infos, node_info}
use slumlord.Drain.Node.{poll, wait_for_drain, process_candidates}
use slumlord.Drain.Choice.{should_run}
use slumlord.Drain.Handler.{no_run, drain_analyzed}
use slumlord.Drain.Count.{count, IsDistinct}
use slumlord.Drain.Fleet.{names}
use slumlord.Drain.Limit.{ready_names}
use slumlord.Drain.Reserve.{drain_analyzed_keeps_ready}
use slumlord.Drain.Due.{IsNext, IsDue, should_run_iff}
use slumlord.Drain.Rounds.{Timed, wait_for_drain_enough}
use slumlord.Drain.Report.{result_names, count_results, is_drained, is_deleted}
use slumlord.Drain.Results.{process_candidates_results}
use slumlord.Drain.Stuck.{KeepsData, wait_for_drain-undrainable}
use slumlord.Samples.Nodes.{Machines, machines, machines-Fleet, length-sort_less, Mem-sort_less}

-- Nodes under a tenth of their CPU, two of them in a run, and two that stay ready.
abbrev policy : NodeDrainPolicy
policy = record {
  name = "spare";
  generation = 1;
  deleting = false;
  finalizers = [];
  spec = record {
    node_selector = [];
    thresholds = record { cpu_request_percent = some (pos 10); memory_request_percent = none };
    schedule = record { cron = "* * * * *"; timezone = "" };
    drain = record {
      grace_period_seconds = none;
      timeout_seconds = some (pos 30);
      delete_empty_dir_data = false;
      ignore_daemon_sets = none;
      delete_node_after_drain = true;
      pod_selector = [];
    };
    safety = record {
      max_nodes_per_run = some (pos 2);
      min_ready_nodes = some (pos 2);
      dry_run = false;
    };
    suspend = false;
    reconcile_interval = none;
  };
  status = record {
    conditions = [];
    last_run = none;
    next_run = none;
    total_nodes_drained = pos 0;
  };
}

abbrev machine : String → Node ℕ
machine name = record {
  name = name;
  labels = [];
  unschedulable = false;
  cpu_allocatable = some 4;
  memory_allocatable = some 8;
  conditions = ("Ready", "True") ∷ [];
}

abbrev fleet : List (Node ℕ)
fleet = machine "red" ∷ machine "green" ∷ machine "blue" ∷ []

abbrev cache : Pod ℕ
cache = record {
  namespace = "shop";
  name = "cache";
  labels = [];
  annotations = [];
  node_name = "red";
  phase = "Running";
  deleting = false;
  owner_kinds = "ReplicaSet" ∷ [];
  empty_dirs = true ∷ [];
  containers = record { cpu = some 1; memory = some 1 } ∷ [];
  init_containers = [];
}

abbrev morning : DrainRun Machines
morning = record {
  policy = policy;
  status = no_run;
  events = [];
  world = record { nodes = fleet; pods = cache ∷ []; time = 60 * minute_ns };
}

-- Every minute is a tick.
abbrev is_minute : ℕ → Bool
is_minute t = eqb (t - t / minute_ns * minute_ns) 0

abbrev next_minute : ℕ → ℕ
next_minute t = (t / minute_ns + 1) * minute_ns

next_minute-IsNext : IsNext is_minute next_minute
next_minute-IsNext t =
    inl (record { later = omega arith; ticks = ground arith; first = λ u lt before. ground arith })

abbrev last_minute : DrainRunStatus
last_minute = record no_run { start_time = 59 * minute_ns + 1 }

should_run_iff_example :
    (should_run (some last_minute) (next_minute (60 * minute_ns - 2 * minute_ns)) (60 * minute_ns)
      ≡ true)
    ↔ (IsDue is_minute (some last_minute) (60 * minute_ns)
        ⊎ ((some last_minute ≡ none) × (next_minute (60 * minute_ns - 2 * minute_ns) ≡ 0)))
should_run_iff_example =
    should_run_iff is_minute next_minute (some last_minute) (60 * minute_ns) next_minute-IsNext

cache-KeepsData : KeepsData "red" cache
cache-KeepsData = record {
  on_node = refl;
  running = refl;
  not_deleting = refl;
  not_daemon = refl;
  not_mirror = refl;
  has_data = refl;
}

-- The tick at 60 minutes is due and the run before it started after the one at 59 minutes, but that
-- one is still looked at.
skipped_minute :
    should_run (some last_minute) (next_minute (58 * minute_ns)) (60 * minute_ns) ≡ false
unfolding should_run
skipped_minute = refl

-- A schedule for the thirtieth of February has no tick, and starts the first run at once.
first_run_without_tick : should_run none 0 (60 * minute_ns) ≡ true
unfolding should_run
first_run_without_tick = refl

-- A server from which the pod does not go away.
abbrev stubborn : DrainClient
stubborn = record (machines policy) { list_pods = λ w. (value (cache ∷ []), w) }

wait_for_drain-undrainable_example :
    (¬ Memᴰ cache (node_info stubborn policy (cache ∷ []) (machine "red")).drainable_pods)
    × ((wait_for_drain stubborn "red" (pos 30) morning).0 ≡ ok false)
wait_for_drain-undrainable_example =
    wait_for_drain-undrainable stubborn policy (cache ∷ []) (machine "red") (pos 30) cache morning
      refl cache-KeepsData (λ w. head refl)

abbrev infos : List (DrainNodeInfo ℕ)
infos = node_infos (machines policy) policy (cache ∷ []) fleet

ready_fleet : ready_names infos ≡ "red" ∷ "green" ∷ "blue" ∷ []
unfolding ready_names node_infos is_node_ready
ready_fleet = refl

infos_are_few : length infos < 2 ^ 31
unfolding node_infos
infos_are_few = omega arith

All-ready : All (λ x. (machines-Fleet policy).available morning.world x ≡ true) (ready_names infos)
unfolding ready_names node_infos is_node_ready machines-Fleet
All-ready = (refl, (refl, (refl, tt)))

IsDistinct-fleet : IsDistinct (ready_names infos)
unfolding ready_names node_infos is_node_ready
IsDistinct-fleet = (refl, (refl, (refl, tt)))

abbrev left : ℕ
left =
    count
      ((machines-Fleet policy).available
        (drain_analyzed (pos 0) (machines policy) infos morning).1.world)
      (ready_names infos)

drain_analyzed_keeps_ready_example : (2 ≤ left) ⊎ (length (ready_names infos) ≤ left)
drain_analyzed_keeps_ready_example =
    drain_analyzed_keeps_ready (pos 0) (machines policy) (machines-Fleet policy) morning
      (cache ∷ []) fleet 2 2 (λ less xs. (length-sort_less less xs, Mem-sort_less less xs))
      infos_are_few IsDistinct-fleet All-ready refl refl (omega arith)

machines-Timed : Timed (machines policy)
machines-Timed = record {
  time = λ w. w.time;
  read = λ w. omega arith;
  answered = λ w. omega arith;
  listed = λ w. omega arith;
  paused = λ w waited. omega arith;
}

wait_for_drain_enough_example :
    poll (machines policy) 1000 "red" (60 * minute_ns + 30 * second_ns) morning
    ≡ wait_for_drain (machines policy) "red" (pos 30) morning
wait_for_drain_enough_example =
    wait_for_drain_enough (machines policy) machines-Timed "red" (pos 30) 1000 morning (omega arith)

abbrev after_all : DrainRun Machines
after_all = (process_candidates (machines policy) false (pos 30) infos morning).1

process_candidates_results_example :
    ((process_candidates (machines policy) false (pos 30) infos morning).0 ≡ ok tt)
    × (result_names after_all.status.node_results ≡ names infos)
    × (after_all.status.nodes_drained
        ≡ to_int32 (pos (count_results is_drained after_all.status.node_results)))
    × (after_all.status.nodes_deleted
        ≡ to_int32 (pos (count_results is_deleted after_all.status.node_results)))
process_candidates_results_example =
    process_candidates_results (machines policy) false (pos 30) infos morning refl refl refl
