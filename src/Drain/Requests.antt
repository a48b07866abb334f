-- ===== src/Drain/Requests.antt =====
-- `podRequests` of internal/controller/binpacker_controller.go.
use slumlord.Prelude.{Bool, Option, none, some, List, [], ◌∷◌, if◌then◌else◌}
use slumlord.Drain.Types.{Container}

module _ {Q : Type 0} (zero : Q) (add : Q → Q → Q) (exceeds : Q → Q → Bool) where
  add_request : Q → Option Q → Q
  add_request q none = q
  add_request q (some r) = add q r

  -- One loop over containers.
  add_requests : Q × Q → List (Container Q) → Q × Q
  unfolding add_request
  add_requests sums [] = sums
  add_requests (cpu, mem) (x ∷ xs) =
      add_requests (add_request cpu x.cpu, add_request mem x.memory) xs

  -- Containers and init containers: CPU and memory.
  pub pod_requests : List (Container Q) → List (Container Q) → Q × Q
  unfolding add_requests
  pod_requests containers init_containers =
      let (cpu, mem) = add_requests (zero, zero) containers in
      let (init_cpu, init_mem) = add_requests (zero, zero) init_containers in
      (
        (if exceeds init_cpu cpu then init_cpu else cpu),
        (if exceeds init_mem mem then init_mem else mem),
      )
