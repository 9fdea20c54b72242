-- ===== src/Template/Count.antt =====
-- What is counted.
use calypso_experiments.Base.{
  ℕ, ◌+◌, ◌≡◌, refl, ap, List, [], ◌∷◌, ◌++◌, Option, none, some, Result, ok, err, panic, length,
  length-append, arith,
}
use calypso_experiments.Template.{
  Tree, Trees, node, no_trees, tree_and, add_replies, handle_reply, handle_announce, announce_all,
  run_protocol, Storage, clock, count_reply, clocks,
}

-- The nodes of a tree.
unfoldable mutual
  pub nodes : Tree → List ℕ
  nodes (node id ts) = id ∷ nodes_all ts

  pub nodes_all : Trees → List ℕ
  nodes_all no_trees = []
  nodes_all (tree_and t ts) = nodes t ++ nodes_all ts

unfoldable pub total : List ℕ → ℕ
total [] = 0
total (c ∷ cs) = c + total cs

add_replies_lem : (n : ℕ) (cs : List ℕ) → add_replies n cs ≡ n + total cs
unfolding add_replies total
add_replies_lem n [] = omega arith
add_replies_lem n (c ∷ cs) = omega (arith, add_replies_lem (n + c) cs)

mutual
  unfolding handle_announce handle_reply nodes total

  pub handle_announce_lem : (t : Tree) → handle_announce t ≡ length (nodes t)
  handle_announce_lem (node id no_trees) = refl
  handle_announce_lem (node id (tree_and t ts)) =
      omega
        (arith, add_replies_lem 1 (announce_all (tree_and t ts)), announce_all_lem (tree_and t ts))

  announce_all_lem : (ts : Trees) → total (announce_all ts) ≡ length (nodes_all ts)
  announce_all_lem no_trees = refl
  announce_all_lem (tree_and t ts) =
      omega
        (arith, handle_announce_lem t, announce_all_lem ts, length-append (nodes t) (nodes_all ts))

-- For a tree with at least one child of the root and a protocol that could be created, a call of
-- `Clock` answers the number of the nodes of the tree.
pub clock_lem :
    (s : Storage) (id : ℕ) (t : Tree) (ts : Trees)
    → (clock s (some (node id (tree_and t ts))) (ok tt)).1
      ≡ some (ok (length (nodes (node id (tree_and t ts)))))
unfolding clock run_protocol
clock_lem s id t ts = ap (λ (n : ℕ). some (ok n)) (handle_announce_lem (node id (tree_and t ts)))

clock_count :
    (s : Storage) (generated : Option Tree) (created : Result (Unit {0}))
    → (clock s generated created).0.count ≡ s.count + 1
unfolding clock
clock_count s none created = refl
clock_count s (some t) (err e) = refl
clock_count s (some t) panic = refl
clock_count s (some t) (ok u) = ground arith

-- The counter is the number of the calls of `Clock`, also of those that failed or never returned.
pub count_reply-clocks :
    (s : Storage) (calls : List (Option Tree × Result (Unit {0})))
    → count_reply (clocks s calls) ≡ count_reply s + length calls
unfolding count_reply clocks
count_reply-clocks s [] = omega arith
count_reply-clocks s ((generated, created) ∷ calls) =
    omega (
      arith,
      count_reply-clocks (clock s generated created).0 calls,
      clock_count s generated created,
    )

-- A call of `Clock` for a tree that is a root alone never returns.
pub clock_alone : (s : Storage) (id : ℕ) → (clock s (some (node id no_trees)) (ok tt)).1 ≡ none
unfolding clock run_protocol
clock_alone s id = refl
