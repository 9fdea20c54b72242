-- ===== src/Template.antt =====
-- The template protocol and its service: protocol/protocol.go counts the nodes of a tree, from the
-- leaves up, and service/service.go runs it for a client and counts the runs. The tree and the
-- messages along it are onet's: it hands a node the replies of all its children at once.
pub mod Count
pub mod Simulation
pub mod ServiceSimulation
pub mod Messages
pub mod Command
use calypso_experiments.Base.{
  ℕ, ◌+◌, List, [], ◌∷◌, Option, none, some, Result, ok, err, panic, Error,
}

-- A tree of nodes, each with its index in the roster.
mutual
  pub data Tree : Type 0 where
    node : ℕ → Trees → Tree

  pub data Trees : Type 0 where
    no_trees : Trees
    tree_and : Tree → Trees → Trees

-- The loop of `HandleReply` over the replies.
unfoldable pub add_replies : ℕ → List ℕ → ℕ
add_replies children [] = children
add_replies children (c ∷ replies) = add_replies (children + c) replies

-- What `HandleReply` sends to the parent, or, at the root, into the channel.
unfoldable pub handle_reply : List ℕ → ℕ
unfolding add_replies
handle_reply replies = add_replies 1 replies

-- What a node replies to the announcement, in the end: a leaf at once, another node when its children
-- have replied.
unfoldable mutual
  unfolding handle_reply

  pub handle_announce : Tree → ℕ
  handle_announce (node id no_trees) = handle_reply []
  handle_announce (node id (tree_and t ts)) = handle_reply (announce_all (tree_and t ts))

  pub announce_all : Trees → List ℕ
  announce_all no_trees = []
  announce_all (tree_and t ts) = handle_announce t ∷ announce_all ts

-- `pi.Start()` and the receive after it. At a root without children `Start` itself sends into the
-- channel, which has no buffer and no receiver yet: `none`, it waits for ever.
unfoldable pub run_protocol : Tree → Option ℕ
unfolding handle_announce
run_protocol (node id no_trees) = none
run_protocol (node id (tree_and t ts)) = some (handle_announce (node id (tree_and t ts)))

-- `Service`: the counter of its storage.
pub record Storage : Type 0 where
  pub count : ℕ

-- `generated` is what `GenerateNaryTreeWithRoot` gives, `created` what `CreateProtocol` does; `none`
-- for a call that never returns. The time in the reply is left out.
unfoldable pub clock : Storage → Option Tree → Result (Unit {0}) → Storage × Option (Result ℕ)
unfolding run_protocol
clock s generated created =
    let s' = record s { count = s.count + 1 } in
    elim generated [
      | none ↦ (s', some (err "couldn't create tree"))
      | some tree ↦ elim created [
        | err e ↦ (s', some (err e))
        | panic ↦ (s', some panic)
        | ok _ ↦ elim (run_protocol tree) [
          | none ↦ (s', none)
          | some children ↦ (s', some (ok children))
        ]
      ]
    ]

-- `Count`
unfoldable pub count_reply : Storage → ℕ
count_reply s = s.count

-- The service after a sequence of calls of `Clock`.
unfoldable pub clocks : Storage → List (Option Tree × Result (Unit {0})) → Storage
unfolding clock
clocks s [] = s
clocks s ((generated, created) ∷ calls) = clocks (clock s generated created).0 calls
