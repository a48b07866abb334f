-- ===== src/Packer/Safety/Traced.antt =====
-- Where the workloads that `buildSafetyContext` notes for pods come from.
use mathlib.Core.List.{Memᴰ}
use mathlib.Core.List.Memᴰ.{head, tail}
use slumlord.Prelude.{
  ◌≡◌, refl, ◌∙◌, inl, inr, Option, none, some, List, [], ◌∷◌, String, ◌==◌, eq_iff, lookup, insert,
  lookup-insert, arith, Bool-cases,
}
use slumlord.Packer.Types.{Pod, NodeInfo, WorkloadRef}
use slumlord.Packer.Owners.{object_key, ReplicaSets, resolve_workload}
use slumlord.Packer.Safety.{collect_pod, collect_pods, collect_workloads}

module _ {Q : Type 0} (m : ReplicaSets) (candidates : List (NodeInfo Q)) where
  -- A pod with this key, that a candidate can give away, is of the workload.
  abbrev pub IsTraced : String → WorkloadRef → Type 0
  IsTraced k wl =
      (x : NodeInfo Q) × (pod : Pod Q) × Memᴰ x candidates
      × Memᴰ pod x.evictable_pods
      × (object_key pod.namespace pod.name ≡ k)
      × (resolve_workload pod m ≡ some wl)

  abbrev AllTraced : List (String × WorkloadRef) → Type 0
  AllTraced by_pod = (k : String) (wl : WorkloadRef) → lookup k by_pod ≡ some wl → IsTraced k wl

  AllTraced-insert :
      (j : String) (v : WorkloadRef) (by_pod : List (String × WorkloadRef))
      → IsTraced j v
      → AllTraced by_pod
      → AllTraced (insert j v by_pod)
  AllTraced-insert j v by_pod traced h k wl e = elim (Bool-cases (j == k)) [
    | inl same ↦
        let (x, pod, at, at', key, resolved) = traced in
        (
          x,
          pod,
          at,
          at',
          key ∙ (eq_iff j k).0 same,
          resolved ∙ (rw (lookup-insert j k v by_pod, same) at e),
        )
    | inr other ↦ h k wl (rw (lookup-insert j k v by_pod, other) at e)
  ]

  AllTraced-collect_pod :
      (x : NodeInfo Q) (pod : Pod Q) (o : Option WorkloadRef)
      (found : List (String × WorkloadRef) × List WorkloadRef)
      → resolve_workload pod m ≡ o
      → Memᴰ x candidates
      → Memᴰ pod x.evictable_pods
      → AllTraced found.0
      → AllTraced (collect_pod pod o found).0
  unfolding collect_pod
  AllTraced-collect_pod x pod none found e at at' h = h
  AllTraced-collect_pod x pod (some v) found e at at' h =
      AllTraced-insert (object_key pod.namespace pod.name) v found.0 (x, pod, at, at', refl, e) h

  AllTraced-collect_pods :
      (x : NodeInfo Q) (pods : List (Pod Q))
      (found : List (String × WorkloadRef) × List WorkloadRef)
      → Memᴰ x candidates
      → ((pod : Pod Q) → Memᴰ pod pods → Memᴰ pod x.evictable_pods)
      → AllTraced found.0
      → AllTraced (collect_pods m pods found).0
  unfolding collect_pods
  AllTraced-collect_pods x [] found at own h = h
  AllTraced-collect_pods x (pod ∷ pods) found at own h =
      AllTraced-collect_pods x pods _ at (λ y n. own y (tail n))
        (AllTraced-collect_pod x pod (resolve_workload pod m) found refl at (own pod (head refl)) h)

  AllTraced-collect_workloads :
      (xs : List (NodeInfo Q)) (found : List (String × WorkloadRef) × List WorkloadRef)
      → ((x : NodeInfo Q) → Memᴰ x xs → Memᴰ x candidates)
      → AllTraced found.0
      → AllTraced (collect_workloads m xs found).0
  unfolding collect_workloads
  AllTraced-collect_workloads [] found among h = h
  AllTraced-collect_workloads (x ∷ xs) found among h =
      AllTraced-collect_workloads xs _ (λ y n. among y (tail n))
        (AllTraced-collect_pods x x.evictable_pods found (among x (head refl)) (λ y n. n) h)

  -- What is noted of a key is true of a pod of a candidate.
  pub IsTraced-of_lookup :
      (k : String) (wl : WorkloadRef)
      → lookup k (collect_workloads m candidates ([], [])).0 ≡ some wl
      → IsTraced k wl
  IsTraced-of_lookup =
      AllTraced-collect_workloads candidates ([], []) (λ x n. n) (λ k wl e. ground (arith, e))
