-- ===== src/Samples/Witnesses/Trees.antt =====
-- The template service on a tree of four nodes.
use calypso_experiments.Base.{
  true, refl, ◌⊎◌, Option, ◌+◌, ◌*◌, ◌≤◌, ◌≡◌, [], ◌∷◌, none, some, ok, length,
}
use calypso_experiments.Template.{
  handle_reply, add_replies, Tree, node, no_trees, tree_and, Storage, clock, count_reply,
}
use calypso_experiments.Saved.{
  Context, right_type, try_load, new_service, new_template_service, clocks_saved,
}
use calypso_experiments.Saved.Restart.{Keeps, new_template_service-clocks_saved}
use calypso_experiments.Template.Messages.{
  Net, announced, sent, no_nets, net_and, announce_to, none_left, and_one, Step, inner, leaf, reply,
  below, deliver, first, Run, stop, go,
}
use calypso_experiments.Template.Messages.Runs.{Run-ends}
use calypso_experiments.Template.Count.{nodes, clock_lem}

abbrev middle : Tree
middle = node 1 (tree_and (node 3 no_trees) no_trees)

abbrev last_leaf : Tree
last_leaf = node 2 no_trees

abbrev fresh : Storage
fresh = record { count = 0 }

clock_lem_example :
    (clock fresh (some (node 0 (tree_and middle (tree_and last_leaf no_trees)))) (ok tt)).1
    ≡ some (ok (length (nodes (node 0 (tree_and middle (tree_and last_leaf no_trees))))))
clock_lem_example = clock_lem fresh 0 middle (tree_and last_leaf no_trees)

-- A disk that is what was saved last, if anything was.
abbrev disk : Context Storage
disk = record {
  Disk = Option Storage;
  save = λ d s. (some s, none);
  load = λ d. elim d [ none ↦ ok none | some s ↦ ok (some (right_type s)) ];
}

disk-Keeps : Keeps disk
disk-Keeps = record { load-save = λ d s. refl }

new_template_service-clocks_saved_example :
    (s' : Storage) × (new_template_service disk true
        (clocks_saved disk (fresh, none) ((none, ok tt) ∷ (some last_leaf, ok tt) ∷ [])).1
      ≡ ok s')
    × (s' ≡ (clocks_saved disk (fresh, none) ((none, ok tt) ∷ (some last_leaf, ok tt) ∷ [])).0)
    × (count_reply s' ≡ count_reply fresh + 2)
unfolding new_template_service new_service try_load
new_template_service-clocks_saved_example =
    new_template_service-clocks_saved disk disk-Keeps fresh none
      ((none, ok tt) ∷ (some last_leaf, ok tt) ∷ []) refl

-- A root with one child: the announcement, the child's reply, its arrival and the root's count.
abbrev small : Tree
small = node 0 (tree_and last_leaf no_trees)

abbrev counted : Run 4 (announced small) (sent 2)
unfolding announce_to handle_reply add_replies
counted = go (inner 0 last_leaf no_trees (net_and (announced last_leaf) no_nets) refl) (
    go (below (first no_nets (leaf 2 1 refl))) (
      go (below (deliver 1 no_nets))
        (go (reply (1 ∷ []) 2 (and_one 1 none_left) refl) (stop (sent 2)))))

Run-ends_example :
    (4 ≤ 3 * length (nodes small))
    × (((m : Net) × Step (sent 2) m) ⊎ (sent 2 ≡ sent (length (nodes small))))
Run-ends_example = Run-ends small counted
