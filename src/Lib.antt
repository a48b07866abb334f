-- ===== src/Lib.antt =====
-- Slumlord, a Kubernetes operator that puts workloads to sleep on a schedule: its sleep schedule,
-- auto-schedule policy, node drain and bin packer controllers.
--
-- The program. Each SlumlordSleepSchedule (api/v1alpha1/sleepschedule_types.go) holds windows, a
-- workload selector and a status. The handler `Reconcile` of
-- internal/controller/sleepschedule_controller.go reads the schedule, asks the windows whether
-- the workloads should be asleep now, and on a change runs `sleepWorkloads` or `wakeWorkloads`,
-- which list and update objects through the API server. What an object was before it was put to
-- sleep is kept in the status, in one entry of `ManagedWorkloads` for each object, which is
-- stored after each object. For ten minutes after a wake `verifyAndCorrectWorkloads` looks for
-- objects that are still asleep and runs the wake again. A SlumlordAutoSchedulePolicy makes such
-- schedules: its controller puts one in each namespace that the policy's selector takes and whose
-- label names one of the policy's profiles, keeps it as the profile says, and deletes those that
-- are not wanted any more. A SlumlordNodeDrainPolicy runs by a cron schedule: its controller
-- cordons the least used nodes, evicts their pods, waits until they are empty, and uncordons or
-- deletes them. A SlumlordBinPacker finds nodes whose requests are low, plans where their pods
-- could go instead, with a budget of disruptions for each workload, and evicts the planned pods.
--
-- The files.
--   Prelude       shared names; Boolean tests, lists, maps as association lists, signed integers.
--   Action        functions with a state that end in a value, an error or a panic; what was written
--                 before an error stays written. Action/Post, Action/Yields and Action/Keeps:
--                 what holds at the end of an action.
--   Api           the types of api/v1alpha1/sleepschedule_types.go (Schedule), the workloads
--                 (Workload), and unstructured objects with their type assertions (Json).
--   Clock         what is used of Go's `time`: "15:04" is read as `time.ParseInLocation` reads it.
--   Cluster       the API server and libraries as a record of operations on an unknown world.
--   Kinds         kinds, GVKs and `shouldManageType`.
--   Window        `shouldBeSleepingAt`, `shouldBeSleepingAtWindow`, `timeUntilNextTransition`;
--                 Window/Requeue: `shouldVerifyWorkloads` and `computeRequeueInterval`.
--   Days          `daysToDisplay`, `aggregateDaysDisplay`.
--   Change        what sleeping, waking and verifying do to one object, without calls.
--   Sleep         `sleepWorkloads`, `sleepSuspendResources`, `sleepReplicaResources`,
--                 `sleepCountResources`, `sleepElasticsearchResources`.
--   Wake          `wakeWorkloads`, `wakeSuspendResource`, `wakeReplicaResource`,
--                 `wakeCountResource`, `wakeElasticsearchResource`.
--   Verify        `verifyAndCorrectWorkloads`.
--   Reconcile     `Reconcile`, `setScheduleCondition`.
--   Policy        internal/controller/autoschedulepolicy_controller.go: the specs of the child
--                 schedules (`buildSleepScheduleSpec`, `sleepSpecEqual`); Policy/Types: the types of
--                 api/v1alpha1/autoschedulepolicy_types.go; Policy/Handler: `Reconcile` and its
--                 status; Policy/Match: which policies take a namespace; Policy/Removal: the
--                 deletion of children; Policy/Client: its parameters; Policy/Watches: the maps
--                 from events to policies.
--                 Policy/Handler/Store is the abstract view: the children as a map from namespace
--                 and name, and what each call that succeeds does to it.
--   Drain         internal/controller/nodedrainpolicy_controller.go. Drain/Types: the types of
--                 api/v1alpha1/nodedrainpolicy_types.go; Drain/Client: its parameters and state;
--                 Drain/Requests: `podRequests`; Drain/Analysis: `analyzeNodes`, `isDrainable`,
--                 `findDrainCandidates`, `isNodeReady`; Drain/Node: what is done to one node, with
--                 `waitForDrain`; Drain/Choice: when a run is due, and its limit; Drain/Status: the
--                 cron schedule and the status; Drain/Handler: `Reconcile`. Drain/Fleet is the
--                 abstract view: which nodes can take pods.
--   Packer        internal/controller/binpacker_controller.go: `isInConsolidationWindow` and
--                 `toleratesTaints`. Packer/Types: the types of api/v1alpha1/binpacker_types.go and
--                 of the controller; Packer/Client: its parameters and state; Packer/Owners:
--                 `resolveWorkload`, `isEvictable`; Packer/Analysis: the loop of `analyzeNodes`,
--                 `findCandidateNodes`; Packer/Safety: `buildSafetyContext`; Packer/Plan:
--                 `buildConsolidationPlan`, `findTargetNode`, `canFitOnNode`; Packer/Handler:
--                 `Reconcile`, `executePlan`. Packer/Journal is the abstract view: the evictions
--                 that were made; Packer/Plan/Loads tells a plan by the placements it makes.
--   Samples       concrete inputs, and the theorems at them.
-- The child modules hold the proofs, named for what they are about.
--
-- The state. `Run` of Cluster is the state of one reconciliation: the schedule in memory (the Go
-- pointer `schedule`), the map `managed` of `sleepWorkloads`, the reports (counters, gauge and
-- events), and the world; `PolicyRun`, `DrainRun` and `PackerRun` are those of the other
-- controllers. Any call may change the world, since other actors run between two calls. The target
-- nodes that `buildConsolidationPlan` changes through pointers, and the budgets it counts down, are
-- the state `Planning`, which its loops pass on.
--
-- Bounds. `timeUntilNextTransition` makes 1440 probes, as in the code. `waitForDrain` makes at
-- most one round for each second of its timeout: a round that goes on waits for two seconds. All
-- other loops are over lists. `int32` wraps around, and so do the product of the percentages and
-- the totals of drained nodes and evicted pods in `int64`; other `int` and `int64` values are
-- only compared or, for day numbers, increased by one, and are unbounded here.
--
-- Parameters. The API server, `apimeta.SetStatusCondition`, the JSON codec of node set counts and
-- the clock are operations of `Client`; the time zone database is `Zones`. Assumed of them, where
-- a theorem says so: an answer to a status update restates the spec, the sleep state and the
-- entries that were sent; the server carries out what it is asked for (`Serves`); a location has
-- a constant offset from UTC. The API server of the policy controller, with the evaluation of
-- label selectors, is `PolicyClient`, and `Store` states what its successful calls do. Those of
-- the drain controller, with quantities, cron schedules, `sort.Slice` and `fmt.Sprintf`, are
-- `DrainClient`, and `Fleet` states which calls change nodes; an answer to a status update
-- restates the run that was sent; the cron library answers the first tick after a time, or the
-- zero time, which is 0 here, where the four years after it have none (it looks through five
-- calendar years). Those of the bin packer are `PackerClient`, and `Journal`
-- states which calls evict pods and that an answer to an update restates the spec and the status.
--
-- Not modelled. Log lines; the requeue time that accompanies an error, which controller-runtime
-- ignores; metric registration and `SetupWithManager`; Kubernetes metadata that the controller
-- does not read. A `float64` of an unstructured object is held by the integers it converts to. Go
-- maps have no order: where the code ranges over one, the days seen, they are a list here, in the
-- order in which they were met; the workloads of `buildSafetyContext`, whose order changes
-- nothing, are a list too. Not part of this library are the idle
-- detector (internal/controller/idledetector_controller.go), which compares `float64` percentages
-- of the metrics API and otherwise keeps and restores original values as the sleep schedule
-- controller does, the dashboard (internal/dashboard), which only shows listed objects, start-up
-- (cmd/main.go), which is wiring, and generated code.
pub mod Prelude
pub mod Action
pub mod Api
pub mod Clock
pub mod Cluster
pub mod Kinds
pub mod Change
pub mod Sleep
pub mod Wake
pub mod Verify
pub mod Reconcile
pub mod Window
pub mod Days
pub mod Samples
pub mod Policy
pub mod Packer
pub mod Drain
