-- ===== src/Packer.antt =====
-- internal/controller/binpacker_controller.go: here, the consolidation window, and the taints that a
-- pod tolerates.
pub mod Windows
pub mod Taints
pub mod Types
pub mod Client
pub mod Owners
pub mod Analysis
pub mod Safety
pub mod Plan
pub mod Handler
pub mod Available
pub mod Journal
pub mod Quiet
pub mod Held
pub mod Evictions
pub mod Kept
use slumlord.Prelude.{
  ℕ, ◌+◌, ◌%◌, Bool, true, false, not, ◌&&◌, ◌||◌, Option, none, some, List, [], ◌∷◌, String, ◌==◌,
  ltb, is_empty, any_of, if◌then◌else◌,
}
use slumlord.Prelude.Int.{ℤ, pos, eqb_ℤ}
use slumlord.Clock.{parse_clock, Zones}
use slumlord.Api.Schedule.{SleepWindow}

-- From `isOvernight` on.
consolidates : List ℤ → ℕ → ℕ → ℕ → ℕ → Bool
consolidates days now weekday start_time end_time =
    let is_overnight = ltb end_time start_time in
    let check_day : ℕ = if is_overnight && ltb now end_time then (weekday + 6) % 7 else weekday in
    let day_allowed = any_of (λ d. eqb_ℤ d (pos check_day)) days in
    if not (is_empty days) && not day_allowed
    then false
    else if is_overnight
    then ltb start_time now || ltb now end_time
    else ltb start_time now && ltb now end_time

module _ (z : Zones) where
  open z use {Location, utc, load_location, civil, date}

  consolidation_location : String → Location
  consolidation_location timezone =
      if timezone == "" then utc else elim (load_location timezone) [ none ↦ utc | some l ↦ l ]

  pub is_in_consolidation_window : Option SleepWindow → ℕ → Bool
  unfolding consolidates consolidation_location
  is_in_consolidation_window none t = true
  is_in_consolidation_window (some w) t = elim (parse_clock w.start) [
    | none ↦ false
    | some (sh, sm) ↦ elim (parse_clock w.end) [
      | none ↦ false
      | some (eh, em) ↦
          let loc = consolidation_location w.timezone in
          let today = civil loc t in
          consolidates w.days t today.weekday (date loc today sh sm) (date loc today eh em)
    ]
  ]

-- corev1.Taint and corev1.Toleration, as far as they are read.
pub record Taint : Type 0 where
  pub key : String
  pub value : String
  pub effect : String

pub record Toleration : Type 0 where
  pub key : String
  pub operator : String
  pub value : String
  pub effect : String

-- `toleration.Effect == "" || toleration.Effect == taint.Effect`
pub effect_matches : Toleration → Taint → Bool
effect_matches l t = l.effect == "" || l.effect == t.effect

-- The loop over the pod's tolerations.
pub pod_tolerates_taint : List Toleration → Taint → Bool
unfolding effect_matches
pod_tolerates_taint [] t = false
pod_tolerates_taint (l ∷ ls) t =
    let rest = pod_tolerates_taint ls t in
    if l.operator == "Exists" && l.key == ""
    then true
    else if l.key == t.key
    then if l.operator == "Exists"
      then if effect_matches l t then true else rest
      else if l.operator == "Equal" && l.value == t.value && effect_matches l t
      then true
      else if l.operator == "" && l.value == t.value && effect_matches l t
      then true
      else rest
    else rest

-- The loop over the node's taints.
pub tolerates_taints : List Toleration → List Taint → Bool
unfolding pod_tolerates_taint
tolerates_taints ls [] = true
tolerates_taints ls (t ∷ ts) =
    let rest = tolerates_taints ls ts in
    if not (t.effect == "NoSchedule") && not (t.effect == "NoExecute")
    then rest
    else if not (pod_tolerates_taint ls t)
    then false
    else rest
