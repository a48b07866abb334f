-- ===== src/Policy/Handler/Taken.antt =====
-- The namespaces that a policy takes, among the listed ones.
use mathlib.Core.Path.{subst}
use mathlib.Core.List.{Memᴰ}
use mathlib.Core.List.Memᴰ.{head, tail}
use slumlord.Prelude.{
  ◌≡◌, refl, ◌⊎◌, inl, inr, Bool, true, false, List, [], ◌∷◌, All, if◌then◌else◌,
}
use slumlord.Action.{Error, Reply, value, error}
use slumlord.Policy.Types.{AutoSchedulePolicy, Namespace}
use slumlord.Policy.Client.{PolicyClient}
use slumlord.Policy.Match.{namespace_matches_policy, matched_namespaces}

module _ (c : PolicyClient) where
  pub Reply-cases :
      {A : Type 0} (a : Reply A) → ((x : A) × (a ≡ value x)) ⊎ ((e : Error) × (a ≡ error e))
  Reply-cases (value x) = inl (x, refl)
  Reply-cases (error e) = inr (e, refl)

  -- One of the listed namespaces, and the policy takes it.
  abbrev pub IsMatched : AutoSchedulePolicy → List Namespace → Namespace → Type 0
  IsMatched p nss ns = Memᴰ ns nss × (namespace_matches_policy c p ns ≡ value true)

  abbrev AllMatched : AutoSchedulePolicy → List Namespace → Reply (List Namespace) → Type 0
  AllMatched p nss (error x) = Unit {0}
  AllMatched p nss (value xs) = All (IsMatched p nss) xs

  AllMatched-step :
      (p : AutoSchedulePolicy) (all nss : List Namespace)
      → ((x : Namespace) → Memᴰ x nss → Memᴰ x all)
      → AllMatched p all (matched_namespaces c p nss)
  unfolding matched_namespaces
  AllMatched-step p all [] within = tt
  AllMatched-step p all (ns ∷ rest) within =
      let ih = AllMatched-step p all rest (λ x m. within x (tail m)) in
      elim (Reply-cases (namespace_matches_policy c p ns)) [
        | inr (x, e) ↦ rw (e, matched_namespaces) tt
        | inl (b, e) ↦ elim (Reply-cases (matched_namespaces c p rest)) [
          | inr (x, e') ↦ rw (e, matched_namespaces, e') tt
          | inl (found, e') ↦
              rw (e, matched_namespaces, e') (taken_cons b found (subst (AllMatched p all) e' ih) e)
        ]
      ]
    where
      taken_cons :
          (b : Bool) (found : List Namespace)
          → AllMatched p all (value found)
          → namespace_matches_policy c p ns ≡ value b
          → AllMatched p all (value (if b then ns ∷ found else found))
      taken_cons true found h e = ((within ns (head refl), e), h)
      taken_cons false found h e = h

  pub All-matched_namespaces :
      (p : AutoSchedulePolicy) (nss found : List Namespace)
      → matched_namespaces c p nss ≡ value found
      → All (IsMatched p nss) found
  All-matched_namespaces p nss found e =
      subst (AllMatched p nss) e (AllMatched-step p nss nss (λ x m. m))

  abbrev IsUnmatchedOr : AutoSchedulePolicy → (Namespace → Type 0) → Namespace → Type 0
  IsUnmatchedOr p P ns = (namespace_matches_policy c p ns ≡ value false) ⊎ P ns

  abbrev Spreads :
      AutoSchedulePolicy → (Namespace → Type 0) → List Namespace → Reply (List Namespace) → Type 0
  Spreads p P nss (error x) = Unit {0}
  Spreads p P nss (value found) = All P found → All (IsUnmatchedOr p P) nss

  Spreads-matched_namespaces :
      (p : AutoSchedulePolicy) (P : Namespace → Type 0) (nss : List Namespace)
      → Spreads p P nss (matched_namespaces c p nss)
  unfolding matched_namespaces
  Spreads-matched_namespaces p P [] = λ h. tt
  Spreads-matched_namespaces p P (ns ∷ rest) =
      let ih = Spreads-matched_namespaces p P rest in
      elim (Reply-cases (namespace_matches_policy c p ns)) [
        | inr (x, e) ↦ rw (e, matched_namespaces) tt
        | inl (b, e) ↦ elim (Reply-cases (matched_namespaces c p rest)) [
          | inr (x, e') ↦ rw (e, matched_namespaces, e') tt
          | inl (found, e') ↦
              rw (e, matched_namespaces, e')
                (spread_cons b found (subst (Spreads p P rest) e' ih) e)
        ]
      ]
    where
      spread_cons :
          (b : Bool) (found : List Namespace)
          → Spreads p P rest (value found)
          → namespace_matches_policy c p ns ≡ value b
          → Spreads p P (ns ∷ rest) (value (if b then ns ∷ found else found))
      spread_cons true found f e h = (inr h.0, f h.1)
      spread_cons false found f e h = (inl e, f h)

  -- What holds of the taken namespaces holds of the listed ones that the policy takes.
  pub All-unmatched :
      (p : AutoSchedulePolicy) (P : Namespace → Type 0) (nss found : List Namespace)
      → matched_namespaces c p nss ≡ value found
      → All P found
      → All (λ ns. (namespace_matches_policy c p ns ≡ value false) ⊎ P ns) nss
  All-unmatched p P nss found e h = subst (Spreads p P nss) e (Spreads-matched_namespaces p P nss) h
