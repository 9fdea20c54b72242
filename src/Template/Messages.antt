-- ===== src/Template/Messages.antt =====
-- The messages of the template protocol, in any order in which they may be handled (protocol/protocol.go).
pub mod Runs
use calypso_experiments.Base.{ℕ, zero, suc, ◌≡◌, List, [], ◌∷◌}
use calypso_experiments.Template.{Tree, Trees, node, no_trees, tree_and, handle_reply}

-- What a part of the tree does: it has an announcement on its way to it, it waits for its children, its
-- reply is on its way, or its reply has arrived. onet keeps the replies for a node until it has those of
-- all its children.
mutual
  pub data Net : Type 0 where
    announced : Tree → Net
    waiting : Nets → Net
    sent : ℕ → Net
    arrived : ℕ → Net

  pub data Nets : Type 0 where
    no_nets : Nets
    net_and : Net → Nets → Nets

-- `SendToChildren`
unfoldable pub announce_to : Trees → Nets
announce_to no_trees = no_nets
announce_to (tree_and t ts) = net_and (announced t) (announce_to ts)

-- The replies of all the children are there.
pub data HasArrived : Nets → List ℕ → Type 0 where
  none_left : HasArrived no_nets []
  and_one :
      {ns : Nets} {cs : List ℕ} (c : ℕ)
      → HasArrived ns cs
      → HasArrived (net_and (arrived c) ns) (c ∷ cs)

-- One handler of one node, or the arrival of one reply.
mutual
  pub data Step : Net → Net → Type 0 where
    -- `HandleAnnounce` at a leaf, and at another node
    leaf : (id n : ℕ) → n ≡ handle_reply [] → Step (announced (node id no_trees)) (sent n)
    inner :
        (id : ℕ) (t : Tree) (ts : Trees) (ns : Nets)
        → ns ≡ announce_to (tree_and t ts)
        → Step (announced (node id (tree_and t ts))) (waiting ns)
    -- `HandleReply`
    reply :
        {ns : Nets} (cs : List ℕ) (n : ℕ)
        → HasArrived ns cs
        → n ≡ handle_reply cs
        → Step (waiting ns) (sent n)
    below : {ns ns' : Nets} → Steps ns ns' → Step (waiting ns) (waiting ns')

  pub data Steps : Nets → Nets → Type 0 where
    deliver : (c : ℕ) (ns : Nets) → Steps (net_and (sent c) ns) (net_and (arrived c) ns)
    first : {n n' : Net} (ns : Nets) → Step n n' → Steps (net_and n ns) (net_and n' ns)
    later : (n : Net) {ns ns' : Nets} → Steps ns ns' → Steps (net_and n ns) (net_and n ns')

-- A run, with the number of its steps.
pub data Run : ℕ → Net → Net → Type 0 where
  stop : (n : Net) → Run zero n n
  go : {k : ℕ} {n m p : Net} → Step n m → Run k m p → Run (suc k) n p
