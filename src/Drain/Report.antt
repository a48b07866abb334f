-- ===== src/Drain/Report.antt =====
-- What a list of results says of a drain run.
use slumlord.Prelude.{
  ℕ, suc, ◌+◌, ◌≡◌, refl, sym, ap, ◌∙◌, ◌⊎◌, inl, inr, Bool, true, false, ◌||◌, List, [], ◌∷◌, ◌++◌,
  String, ◌==◌, arith, if◌then◌else◌,
}
use slumlord.Prelude.Int.{ℤ, pos, suc_ℤ, to_int32, to_int32-suc}
use slumlord.Drain.Types.{DrainNodeResult, DrainRunStatus}
use slumlord.Drain.Node.{add_result}

abbrev pub result_names : List DrainNodeResult → List String
result_names [] = []
result_names (x ∷ xs) = x.name ∷ result_names xs

pub count_results : (DrainNodeResult → Bool) → List DrainNodeResult → ℕ
count_results t [] = 0
count_results t (x ∷ xs) = let rest = count_results t xs in if t x then rest + 1 else rest

result_names-snoc :
    (xs : List DrainNodeResult) (x : DrainNodeResult)
    → result_names (xs ++ x ∷ []) ≡ result_names xs ++ x.name ∷ []
result_names-snoc [] x = refl
result_names-snoc (y ∷ xs) x = ap (λ k. y.name ∷ k) (result_names-snoc xs x)

count_results-snoc :
    (t : DrainNodeResult → Bool) (xs : List DrainNodeResult) (x : DrainNodeResult)
    → count_results t (xs ++ x ∷ [])
      ≡ (if t x then suc (count_results t xs) else count_results t xs)
unfolding count_results
count_results-snoc t [] x = ground arith
count_results-snoc t (y ∷ xs) x = ground (arith, count_results-snoc t xs x)

abbrev pub is_drained : DrainNodeResult → Bool
is_drained x = x.action == "drained" || x.action == "deleted"

abbrev pub is_deleted : DrainNodeResult → Bool
is_deleted x = x.action == "deleted"

-- `n` after one more, if the test says so.
abbrev pub bump : Bool → ℤ → ℤ
bump b n = if b then to_int32 (suc_ℤ n) else n

-- One more result, for the node.
pub record Extends (name : String) (s s' : DrainRunStatus) : Type 0 where
  pub result : DrainNodeResult
  pub named : result.name ≡ name
  pub results : s'.node_results ≡ s.node_results ++ result ∷ []
  pub drained : s'.nodes_drained ≡ bump (is_drained result) s.nodes_drained
  pub deleted : s'.nodes_deleted ≡ bump (is_deleted result) s.nodes_deleted

pub Extends-undrained :
    (name : String) (result : DrainNodeResult) (s q : DrainRunStatus)
    → q ≡ s
    → result.name ≡ name
    → is_drained result ≡ false
    → is_deleted result ≡ false
    → Extends name s (add_result result q)
Extends-undrained name result s q e named no_drain no_delete = record {
  result = result;
  named = named;
  results = ap (λ k. k.node_results ++ result ∷ []) e;
  drained = rw no_drain (ap (λ k. k.nodes_drained) e);
  deleted = rw no_delete (ap (λ k. k.nodes_deleted) e);
}

-- The status once the node's drain was counted, and its deletion.
abbrev pub count_drained : DrainRunStatus → DrainRunStatus
count_drained s = record s { nodes_drained = to_int32 (suc_ℤ s.nodes_drained) }

abbrev pub count_deleted : DrainRunStatus → DrainRunStatus
count_deleted s = record s { nodes_deleted = to_int32 (suc_ℤ s.nodes_deleted) }

abbrev pub IsDeletion : DrainRunStatus → String → DrainRunStatus → Type 0
IsDeletion s action q =
    ((action ≡ "drained") × (q ≡ s)) ⊎ ((action ≡ "deleted") × (q ≡ count_deleted s))

pub Extends-counted :
    (name : String) (result : DrainNodeResult) (s q : DrainRunStatus)
    → IsDeletion (count_drained s) result.action q
    → result.name ≡ name
    → Extends name s (add_result result q)
Extends-counted name result s q (inl (action, e)) named = record {
  result = result;
  named = named;
  results = ap (λ k. k.node_results ++ result ∷ []) e;
  drained = rw action (ap (λ k. k.nodes_drained) e);
  deleted = rw action (ap (λ k. k.nodes_deleted) e);
}
Extends-counted name result s q (inr (action, e)) named = record {
  result = result;
  named = named;
  results = ap (λ k. k.node_results ++ result ∷ []) e;
  drained = rw action (ap (λ k. k.nodes_drained) e);
  deleted = rw action (ap (λ k. k.nodes_deleted) e);
}

-- The results are those of the nodes `done`, and the counts are those of the results.
pub record Reports (done : List String) (s : DrainRunStatus) : Type 0 where
  pub reported : result_names s.node_results ≡ done
  pub drained : s.nodes_drained ≡ to_int32 (pos (count_results is_drained s.node_results))
  pub deleted : s.nodes_deleted ≡ to_int32 (pos (count_results is_deleted s.node_results))

pub no_count : (t : DrainNodeResult → Bool) → pos 0 ≡ to_int32 (pos (count_results t []))
unfolding count_results to_int32
no_count t = refl

bump_count :
    (b : Bool) (n : ℕ) → bump b (to_int32 (pos n)) ≡ to_int32 (pos (if b then suc n else n))
bump_count true n = to_int32-suc n
bump_count false n = refl

pub Reports-Extends :
    (done : List String) (name : String) (s s' : DrainRunStatus)
    → Reports done s
    → Extends name s s'
    → Reports (done ++ name ∷ []) s'
Reports-Extends done name s s' h x = record {
  reported =
      ap result_names x.results
      ∙ result_names-snoc s.node_results x.result
      ∙ rw (h.reported, x.named) refl;
  drained =
      x.drained
      ∙ ap (bump (is_drained x.result)) h.drained
      ∙ bump_count (is_drained x.result) (count_results is_drained s.node_results)
      ∙ ap (λ n. to_int32 (pos n))
          (sym (
            ap (count_results is_drained) x.results
            ∙ count_results-snoc is_drained s.node_results x.result));
  deleted =
      x.deleted
      ∙ ap (bump (is_deleted x.result)) h.deleted
      ∙ bump_count (is_deleted x.result) (count_results is_deleted s.node_results)
      ∙ ap (λ n. to_int32 (pos n))
          (sym (
            ap (count_results is_deleted) x.results
            ∙ count_results-snoc is_deleted s.node_results x.result));
}
