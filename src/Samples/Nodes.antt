-- ===== src/Samples/Nodes.antt =====
-- A server that keeps nodes and pods in lists, with a clock that only waiting moves; quantities are
-- natural numbers, and the cron expressions mean every minute.
use mathlib.Core.List.{Memᴰ}
use mathlib.Core.List.Memᴰ.{head, tail}
use mathlib.Core.Path.{subst}
use slumlord.Prelude.{
  ℕ, suc, ◌+◌, ◌*◌, ◌/◌, ◌≡◌, refl, ap, ◌∙◌, Bool, true, false, not, ◌&&◌, none, some, List, [],
  ◌∷◌, String, ◌==◌, eq_iff, any_of, length, ltb, arith, Bool-cases, inl, inr, if◌then◌else◌,
}
use slumlord.Prelude.Int.{pos}
use slumlord.Action.{Reply, value, error, not_found}
use slumlord.Clock.{second_ns, minute_ns}
use slumlord.Drain.Types.{NodeDrainPolicy, Pod, Node}
use slumlord.Drain.Client.{DrainClient}
use slumlord.Drain.Analysis.{is_node_ready}
use slumlord.Drain.Fleet.{Fleet}

pub record Machines : Type 0 where
  pub nodes : List (Node ℕ)
  pub pods : List (Pod ℕ)
  pub time : ℕ

module _ {A : Type 0} (less : A → A → Bool) where
  pub insert_less : A → List A → List A
  insert_less x [] = x ∷ []
  insert_less x (y ∷ ys) = let rest = insert_less x ys in if less y x then y ∷ rest else x ∷ y ∷ ys

  pub sort_less : List A → List A
  unfolding insert_less
  sort_less [] = []
  sort_less (x ∷ xs) = insert_less x (sort_less xs)

  length-insert_less : (x : A) (ys : List A) → length (insert_less x ys) ≡ suc (length ys)
  unfolding insert_less
  length-insert_less x [] = refl
  length-insert_less x (y ∷ ys) = ground (arith, length-insert_less x ys)

  pub length-sort_less : (xs : List A) → length (sort_less xs) ≡ length xs
  unfolding sort_less
  length-sort_less [] = refl
  length-sort_less (x ∷ xs) = length-insert_less x (sort_less xs) ∙ ap suc (length-sort_less xs)

  Mem-insert_less : (x z : A) (ys : List A) → Memᴰ z (insert_less x ys) → Memᴰ z (x ∷ ys)
  unfolding insert_less
  Mem-insert_less x z [] m = m
  Mem-insert_less x z (y ∷ ys) m = go (less y x) (Mem-insert_less x z ys) m
    where
      behind : Memᴰ z (x ∷ ys) → Memᴰ z (x ∷ y ∷ ys)
      behind (head e) = head e
      behind (tail m') = tail (tail m')

      go :
          (b : Bool)
          → (Memᴰ z (insert_less x ys) → Memᴰ z (x ∷ ys))
          → Memᴰ z (if b then y ∷ insert_less x ys else x ∷ y ∷ ys)
          → Memᴰ z (x ∷ y ∷ ys)
      go false ih m' = m'
      go true ih (head e) = tail (head e)
      go true ih (tail m') = behind (ih m')

  pub Mem-sort_less : (xs : List A) (z : A) → Memᴰ z (sort_less xs) → Memᴰ z xs
  unfolding sort_less
  Mem-sort_less [] z m = m
  Mem-sort_less (x ∷ xs) z m = go (Mem-insert_less x z (sort_less xs) m) (Mem-sort_less xs z)
    where
      go : Memᴰ z (x ∷ sort_less xs) → (Memᴰ z (sort_less xs) → Memᴰ z xs) → Memᴰ z (x ∷ xs)
      go (head e) ih = head e
      go (tail m') ih = tail (ih m')

pub replace_node : Node ℕ → List (Node ℕ) → List (Node ℕ)
replace_node n [] = []
replace_node n (x ∷ xs) = (if x.name == n.name then n else x) ∷ replace_node n xs

pub remove_node : String → List (Node ℕ) → List (Node ℕ)
remove_node name [] = []
remove_node name (x ∷ xs) =
    let rest = remove_node name xs in if x.name == name then rest else x ∷ rest

pub remove_pod : String → String → List (Pod ℕ) → List (Pod ℕ)
remove_pod a b [] = []
remove_pod a b (x ∷ xs) =
    let rest = remove_pod a b xs in if x.namespace == a && x.name == b then rest else x ∷ rest

pub find_node : String → List (Node ℕ) → Reply (Node ℕ)
find_node name [] = error not_found
find_node name (x ∷ xs) = if x.name == name then value x else find_node name xs

abbrev pub can_run : String → Node ℕ → Bool
can_run name n = n.name == name && (is_node_ready n && not n.unschedulable)

pub any_of-replace_node :
    (n : Node ℕ) (xs : List (Node ℕ)) (m : String)
    → (n.name == m) ≡ false
    → any_of (can_run m) (replace_node n xs) ≡ any_of (can_run m) xs
unfolding replace_node
any_of-replace_node n [] m h = refl
any_of-replace_node n (x ∷ xs) m h = elim (Bool-cases (x.name == n.name)) [
  | inl same ↦
      let other : (x.name == m) ≡ false = ap (λ k. k == m) ((eq_iff x.name n.name).0 same) ∙ h in
      rw (same, h, other) (any_of-replace_node n xs m h)
  | inr other ↦ rw (other, any_of-replace_node n xs m h) refl
]

pub any_of-remove_node :
    (name : String) (xs : List (Node ℕ)) (m : String)
    → (name == m) ≡ false
    → any_of (can_run m) (remove_node name xs) ≡ any_of (can_run m) xs
unfolding remove_node
any_of-remove_node name [] m h = refl
any_of-remove_node name (x ∷ xs) m h =
    ground
      (arith, any_of-remove_node name xs m h, eq_iff name m, eq_iff x.name m, eq_iff x.name name)

abbrev pub NamedNode : String → Reply (Node ℕ) → Type 0
NamedNode name (error e) = Unit {0}
NamedNode name (value n) = n.name ≡ name

pub NamedNode-find_node : (name : String) (xs : List (Node ℕ)) → NamedNode name (find_node name xs)
unfolding find_node
NamedNode-find_node name [] = tt
NamedNode-find_node name (x ∷ xs) = elim (Bool-cases (x.name == name)) [
  | inl e ↦ rw e ((eq_iff x.name name).0 e)
  | inr e ↦ rw e (NamedNode-find_node name xs)
]

module _ (policy : NodeDrainPolicy) where
  abbrev pub machines : DrainClient
  machines = record {
    World = Machines;
    Quantity = ℕ;
    Location = Unit {0};
    Cron = Unit {0};
    zero = 0;
    add = λ a b. a + b;
    exceeds = λ a b. ltb b a;
    milli_value = λ q. pos (q * 1000);
    value_of = λ q. pos q;
    utc = tt;
    load_location = λ name. none;
    parse_cron = λ text. some tt;
    next = λ cron loc t. (t / minute_ns + 1) * minute_ns;
    sort_slice = λ less xs. sort_less less xs;
    sprintf = λ form arguments. form;
    get_policy = λ name w. (value policy, w);
    update_policy = λ p w. (value p, w);
    update_policy_status = λ p w. (value p, w);
    set_status_condition = λ old x. x ∷ [];
    list_nodes = λ w. (value w.nodes, w);
    list_pods = λ w. (value w.pods, w);
    get_node = λ name w. (find_node name w.nodes, w);
    patch_node = λ n w. (value tt, record w { nodes = replace_node n w.nodes });
    evict = λ a b grace w. (value tt, record w { pods = remove_pod a b w.pods });
    delete_node = λ name w. (value tt, record w { nodes = remove_node name w.nodes });
    clock = λ w. (w.time, w);
    pause = λ w. (false, record w { time = w.time + 2 * second_ns });
  }

  unfoldable pub machines-Fleet : Fleet machines
  unfolding find_node
  machines-Fleet = record {
    available = λ w m. any_of (can_run m) w.nodes;
    nodes = λ w. refl;
    pods = λ w. refl;
    got = λ name w. refl;
    got_name =
        λ name w w' node e. subst (λ q. NamedNode name q.0) e (NamedNode-find_node name w.nodes);
    evicted = λ a b grace w. refl;
    status = λ p w. refl;
    clock_lem = λ w. refl;
    paused = λ w. refl;
    patched = λ node w m h. any_of-replace_node node w.nodes m h;
    deleted = λ name w m h. any_of-remove_node name w.nodes m h;
  }
