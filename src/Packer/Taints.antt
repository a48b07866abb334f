-- ===== src/Packer/Taints.antt =====
-- When a pod tolerates the taints of a node.
use slumlord.Prelude.{
  ◌≡◌, refl, ◌↔◌, ◌⊎◌, Bool, true, false, not, ◌&&◌, ◌||◌, List, [], ◌∷◌, ◌==◌, All, any_of, arith,
  if◌then◌else◌,
}
use slumlord.Packer.{Taint, Toleration, pod_tolerates_taint, tolerates_taints}

-- One toleration matches a taint: it has no key and the operator Exists; or it has the taint's key
-- and its effect or none, and either the operator Exists or, with the operator Equal or none, the
-- taint's value.
abbrev pub matches : Taint → Toleration → Bool
matches t l =
    (l.operator == "Exists" && l.key == "")
    || (l.key == t.key
        && ((l.effect == "" || l.effect == t.effect)
            && (l.operator == "Exists"
                || ((l.operator == "Equal" || l.operator == "") && l.value == t.value))))

-- The nested tests of the loop's body, on the tests' results.
matches_step :
    (keyless same exists effect equal default value rest : Bool)
    → (if exists && keyless
        then true
        else if same
        then if exists
          then if effect then true else rest
          else if equal && value && effect
          then true
          else if default && value && effect
          then true
          else rest
        else rest)
      ≡ (((exists && keyless) || (same && (effect && (exists || ((equal || default) && value)))))
          || rest)
matches_step true true true effect equal default value rest = ground arith
matches_step true false true effect equal default value rest = ground arith
matches_step true false false effect equal default value rest = ground arith
matches_step false true true effect equal default value rest = ground arith
matches_step false false true effect equal default value rest = ground arith
matches_step false false false effect equal default value rest = ground arith
matches_step keyless true false effect true default value rest = ground arith
matches_step keyless true false effect false default value rest = ground arith

-- A pod tolerates a taint exactly if one of its tolerations matches it.
pub pod_tolerates_taint_lem :
    (ls : List Toleration) (t : Taint) → pod_tolerates_taint ls t ≡ any_of (matches t) ls
unfolding pod_tolerates_taint
pod_tolerates_taint_lem [] t = refl
pod_tolerates_taint_lem (l ∷ ls) t = rw (pod_tolerates_taint_lem ls t) (
    matches_step (l.key == "") (l.key == t.key) (l.operator == "Exists")
      (l.effect == "" || l.effect == t.effect) (l.operator == "Equal") (l.operator == "")
      (l.value == t.value) (any_of (matches t) ls))

taint_step :
    (a b tolerated rest : Bool) {R : Type 0}
    → (rest ≡ true) ↔ R
    → ((if not a && not b then rest else if not tolerated then false else rest) ≡ true)
      ↔ ((((a || b) ≡ false) ⊎ (tolerated ≡ true)) × R)
taint_step true b true rest h = ground arith
taint_step true b false rest h = ground arith
taint_step false true true rest h = ground arith
taint_step false true false rest h = ground arith
taint_step false false tolerated rest h = ground arith

-- A pod tolerates a node's taints exactly if each of them with the effect NoSchedule or NoExecute
-- is matched by one of its tolerations.
pub tolerates_taints_iff :
    (ls : List Toleration) (ts : List Taint)
    → (tolerates_taints ls ts ≡ true)
      ↔ All
          (λ t.
            ((t.effect == "NoSchedule" || t.effect == "NoExecute") ≡ false)
            ⊎ (any_of (matches t) ls ≡ true))
          ts
unfolding tolerates_taints
tolerates_taints_iff ls [] = ground arith
tolerates_taints_iff ls (t ∷ ts) = rw (pod_tolerates_taint_lem ls t) (
    taint_step (t.effect == "NoSchedule") (t.effect == "NoExecute") (any_of (matches t) ls) _
      (tolerates_taints_iff ls ts))
