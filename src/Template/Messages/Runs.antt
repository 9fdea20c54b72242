-- ===== src/Template/Messages/Runs.antt =====
-- Every run of the protocol ends, with the count of the nodes.
use calypso_experiments.Base.{
  ℕ, suc, ◌+◌, ◌*◌, ◌≤◌, ◌≡◌, refl, sym, ap, ◌∙◌, ◌⊎◌, inl, inr, List, [], ◌∷◌, length,
  length-append, arith,
}
use mathlib.Core.Path.{subst}
use calypso_experiments.Template.{
  Tree, Trees, node, no_trees, tree_and, handle_reply, handle_announce, announce_all,
}
use calypso_experiments.Template.Count.{nodes, nodes_all, handle_announce_lem}
use calypso_experiments.Template.Messages.{
  Net, Nets, announced, waiting, sent, arrived, no_nets, net_and, announce_to, HasArrived,
  none_left, and_one, Step, leaf, inner, reply, below, Steps, deliver, first, later, Run, stop, go,
}

-- What a part of the tree will have replied in the end.
mutual
  expected : Net → ℕ
  expected (announced t) = handle_announce t
  expected (waiting ns) = handle_reply (expected_all ns)
  expected (sent n) = n
  expected (arrived n) = n

  expected_all : Nets → List ℕ
  expected_all no_nets = []
  expected_all (net_and n ns) = expected n ∷ expected_all ns

expected_all-announce_to : (ts : Trees) → expected_all (announce_to ts) ≡ announce_all ts
unfolding expected announce_to handle_announce
expected_all-announce_to no_trees = refl
expected_all-announce_to (tree_and t ts) =
    ap (λ (cs : List ℕ). handle_announce t ∷ cs) (expected_all-announce_to ts)

expected_all-HasArrived : {ns : Nets} {cs : List ℕ} → HasArrived ns cs → expected_all ns ≡ cs
unfolding expected
expected_all-HasArrived none_left = refl
expected_all-HasArrived (and_one c h) = ap (λ (cs : List ℕ). c ∷ cs) (expected_all-HasArrived h)

-- A step changes nothing of it.
mutual
  unfolding expected handle_announce

  expected-Step : {n m : Net} → Step n m → expected n ≡ expected m
  expected-Step (leaf id n e) = sym e
  expected-Step (inner id t ts ns e) =
      ap handle_reply (sym (expected_all-announce_to (tree_and t ts)) ∙ ap expected_all (sym e))
  expected-Step (reply cs n h e) = ap handle_reply (expected_all-HasArrived h) ∙ sym e
  expected-Step (below s) = ap handle_reply (expected_all-Steps s)

  expected_all-Steps : {ns ms : Nets} → Steps ns ms → expected_all ns ≡ expected_all ms
  expected_all-Steps (deliver c ns) = refl
  expected_all-Steps (first ns s) = ap (λ (c : ℕ). c ∷ expected_all ns) (expected-Step s)
  expected_all-Steps (later n s) = ap (λ (cs : List ℕ). expected n ∷ cs) (expected_all-Steps s)

expected-Run : {k : ℕ} {n m : Net} → Run k n m → expected n ≡ expected m
expected-Run (stop n) = refl
expected-Run (go s r) = expected-Step s ∙ expected-Run r

-- How many steps are left at most.
mutual
  size : Tree → ℕ
  size (node id ts) = suc (size_all ts)

  size_all : Trees → ℕ
  size_all no_trees = 0
  size_all (tree_and t ts) = size t + size_all ts

mutual
  unfolding size nodes

  size-nodes : (t : Tree) → size t ≡ length (nodes t)
  size-nodes (node id ts) = ap suc (size_all-nodes ts)

  size_all-nodes : (ts : Trees) → size_all ts ≡ length (nodes_all ts)
  size_all-nodes no_trees = refl
  size_all-nodes (tree_and t ts) =
      omega (arith, size-nodes t, size_all-nodes ts, length-append (nodes t) (nodes_all ts))

mutual
  left : Net → ℕ
  left (announced t) = 3 * size t
  left (waiting ns) = 2 + left_all ns
  left (sent n) = 1
  left (arrived n) = 0

  left_all : Nets → ℕ
  left_all no_nets = 0
  left_all (net_and n ns) = left n + left_all ns

left_all-announce_to : (ts : Trees) → left_all (announce_to ts) ≡ 3 * size_all ts
unfolding left announce_to size
left_all-announce_to no_trees = refl
left_all-announce_to (tree_and t ts) = omega (arith, left_all-announce_to ts)

mutual
  unfolding left size

  left-Step : {n m : Net} → Step n m → suc (left m) ≤ left n
  left-Step (leaf id n e) = omega arith
  left-Step (inner id t ts ns e) =
      omega (arith, ap left_all e, left_all-announce_to (tree_and t ts))
  left-Step (reply cs n h e) = omega arith
  left-Step (below s) = omega (arith, left_all-Steps s)

  left_all-Steps : {ns ms : Nets} → Steps ns ms → suc (left_all ms) ≤ left_all ns
  left_all-Steps (deliver c ns) = omega arith
  left_all-Steps (first ns s) = omega (arith, left-Step s)
  left_all-Steps (later n s) = omega (arith, left_all-Steps s)

left-Run : {k : ℕ} {n m : Net} → Run k n m → k + left m ≤ left n
left-Run (stop n) = omega arith
left-Run (go s r) = omega (arith, left-Step s, left-Run r)

-- The replies that have arrived stay; a step of a node never ends in one.
data IsArrived : Net → Type 0 where
  it_arrived : (c : ℕ) → IsArrived (arrived c)

Step-IsArrived : {n m : Net} → Step n m → ¬ IsArrived m
Step-IsArrived (leaf id n e) h = elim h [ ]
Step-IsArrived (inner id t ts ns e) h = elim h [ ]
Step-IsArrived (reply cs n a e) h = elim h [ ]
Step-IsArrived (below s) h = elim h [ ]

-- A part of the tree that has not sent its reply can take a step.
mutual
  progress :
      (n : Net) → ((m : Net) × Step n m) ⊎ (((c : ℕ) × (n ≡ sent c)) ⊎ ((c : ℕ) × (n ≡ arrived c)))
  progress (announced (node id no_trees)) =
      inl (sent (handle_reply []), leaf id (handle_reply []) refl)
  progress (announced (node id (tree_and t ts))) =
      inl (waiting (announce_to (tree_and t ts)), inner id t ts (announce_to (tree_and t ts)) refl)
  progress (waiting ns) = elim (progress_all ns) [
    | inl (ms, s) ↦ inl (waiting ms, below s)
    | inr (cs, h) ↦ inl (sent (handle_reply cs), reply cs (handle_reply cs) h refl)
  ]
  progress (sent c) = inr (inl (c, refl))
  progress (arrived c) = inr (inr (c, refl))

  progress_all : (ns : Nets) → ((ms : Nets) × Steps ns ms) ⊎ ((cs : List ℕ) × HasArrived ns cs)
  progress_all no_nets = inr ([], none_left)
  progress_all (net_and n ns) = elim (progress n) [
    | inl (m, s) ↦ inl (net_and m ns, first ns s)
    | inr (inl (c, e)) ↦ inl (
      net_and (arrived c) ns,
      subst (λ (n : Net). Steps (net_and n ns) (net_and (arrived c) ns)) (sym e) (deliver c ns),
    )
    | inr (inr (c, e)) ↦ elim (progress_all ns) [
      | inl (ms, s) ↦ inl (net_and n ms, later n s)
      | inr (cs, h) ↦
          inr
            (c ∷ cs, subst (λ (n : Net). HasArrived (net_and n ns) (c ∷ cs)) (sym e) (and_one c h))
    ]
  ]

-- Whatever was sent is the number of the nodes.
pub Run-sent : {k n : ℕ} (t : Tree) → Run k (announced t) (sent n) → n ≡ length (nodes t)
unfolding expected
Run-sent t r = sym (expected-Run r) ∙ handle_announce_lem t

Run-IsArrived : {k : ℕ} {n m : Net} → Run k n m → IsArrived m → IsArrived n
Run-IsArrived (stop n) h = h
Run-IsArrived (go s r) h = elim (Step-IsArrived s (Run-IsArrived r h)) [ ]

-- Whatever the order of the messages, a run has at most three steps for a node; it can go on until the
-- root has counted, and then what the root has counted is the number of the nodes.
pub Run-ends :
    {k : ℕ} {net : Net} (t : Tree)
    → Run k (announced t) net
    → (k ≤ 3 * length (nodes t)) × (((m : Net) × Step net m) ⊎ (net ≡ sent (length (nodes t))))
unfolding left
Run-ends {k} {net} t r =
    let steps : k ≤ 3 * length (nodes t) = omega (arith, left-Run r, size-nodes t) in
    elim (progress net) [
      | inl step ↦ (steps, inl step)
      | inr (inl (c, e)) ↦
          (steps, inr (e ∙ ap sent (Run-sent t (subst (λ (n : Net). Run k (announced t) n) e r))))
      | inr (inr (c, e)) ↦ elim (Run-IsArrived r (subst IsArrived (sym e) (it_arrived c))) [ ]
    ]
