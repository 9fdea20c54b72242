-- ===== src/Lib.antt =====
-- A verification of the calypso experiments: programs that share encrypted data through a service and
-- draw lotteries on a ledger.
--
-- The parts of the program and the files that model them:
-- - Util: hybrid encryption (util/util.go). `CreateWriteData` seals data under a fresh key and encrypts
--   that key to a server; the functions keep their names, in snake case. What `rand.Reader` and
--   `random.New()` give is an argument (`Draws`).
-- - Store: the database of the two services (fully_centralized/service/struct.go,
--   semi_centralized/db.go). The two files are the same code over two types of request, so that there
--   is one model with the type of request as a parameter (`Schema`).
-- - Central: the fully centralized service and its client (fully_centralized/service/*.go,
--   fully_centralized/api.go). A handler takes the state of the service and gives the new state with
--   its result.
-- - Semi, Semi/Client: the semi-centralized service (semi_centralized/service.go) and the calls of its
--   client (semi_centralized/api.go).
-- - KeyValue: the key/value contract (byzcoin/keyvalue.go, byzcoin/proto.go).
-- - Tournament: the list of participants, the duels and the rounds of the tournament lottery
--   (tournament_lottery/api.go, tournament_lottery/simulation/service.go,
--   tournament_lottery/client/main.go); Xor: `SafeXORBytes` of the two lotteries.
--   Tournament/Ledger has the transactions of a round, Tournament/Contract the contract that keeps them
--   (tournament_lottery/contracts.go).
-- - Lottery: the lottery over Calypso (calypso_lottery/simulation/service.go,
--   calypso_lottery/client/main.go). It shares `SafeXORBytes`, and the last byte that decides,
--   with the tournament.
--   Lottery/Multiple has the run that polls the ledger for its proofs (`runMultipleLottery`).
-- - Central/Simulation: the runs of the simulation of the fully centralized service
--   (fully_centralized/simulation/service.go), which use the client of Central.
-- - Sharing: what the simulations of the semi-centralized service and of Calypso have in common, over a
--   record of the calls of a client: the loops over the transactions, the goroutines of the readers
--   under a scheduler, and the transactions that are sent in blocks. Semi/Simulation
--   (semi_centralized/simulation/service.go) and CalypsoSimulation (calypso_simulation/service.go) give
--   the record for their clients.
-- - Workload: the files that list the transactions, and slices that are read and written by index.
-- - Semi/Simulation/Runs, CalypsoSimulation/Runs, Lottery/Runs: whole runs of these simulations, with the
--   files, the set-up of the ledger and of the darcs, and the rounds.
-- - Template: the template protocol and its service (protocol/protocol.go, service/service.go). The
--   protocol is there twice: as a recursion over the tree, which the service uses, and in
--   Template/Messages as a relation of steps, one for each handler of a node and each reply that arrives,
--   in any order. Template/Command has the client (api.go) and its commands (app/app.go).
-- - SetUp: the ledgers and the darcs that a run sets up (semi_centralized/api.go, calypso_lottery/api.go,
--   calypso_simulation/service.go), under cothority's `darc` and `byzcoin` as parameters.
-- - Central/Program, Central/Main, Semi/Program, Semi/Main, Template/Simulation,
--   Template/ServiceSimulation: the two client programs, with the files that they read, and the
--   simulations of the template protocol and of its service (fully_centralized/client/main.go,
--   semi_centralized/client/main.go, simulation/protocol.go, simulation/service.go).
-- - Saved: the start of the three services and the storage that they save.
-- - Crypto, Byzcoin, Contracts: what the code calls and does not implement, as records of operations.
--   `IsSound`, `IsBolt` and `IsCodec` say what the code relies on; Samples has instances of them.
-- - Base, Hex: shared names, byte slices, `encoding/hex`; Base/Calls has programs of calls that change the
--   state of a world and may fail, with their loops and the rule for those that succeed.
--
-- A function that returns an error is of type `Result`, with a panic as a third outcome. Bytes are
-- natural numbers, below 256 where `IsBytes` says so. Loops over lists are structural recursion, and
-- the rounds of a tournament are counted down, so that no fuel is needed. The number of rounds is a
-- parameter, since the code computes it in floating point; the theorems ask that it is enough. A run of
-- the tournament takes what each round reveals as a function of the round and of the number of players;
-- `collect` is how a round comes by it on a ledger. The loop of `runMultipleLottery` that polls has
-- fuel, since nothing in the code bounds it: on a ledger that proves a transaction after n more calls,
-- any fuel above n is enough. The blocks of `runByzgenSimulation` are a recursion over the list of
-- their sizes, which panics where the list is too short; `Fits` says that it is long enough. A
-- goroutine takes turns, one call of the client each, and the order of the turns is a list.
--
-- Not modelled: logging, the lines of the programs that report progress, and time measurement; `Setup` and `Node` of the simulations, which hand over to
-- onet; flags, the table of commands and conode, which starts a server of onet; the registration of
-- services, contracts and simulations; and the client programs of the lotteries from their flags to the
-- set-up, which call `SetupByzcoin` with one argument where it takes two.
pub mod Base
pub mod Hex
pub mod Crypto
pub mod Byzcoin
pub mod Contracts
pub mod KeyValue
pub mod Util
pub mod Workload
pub mod Sharing
pub mod Xor
pub mod Tournament
pub mod Store
pub mod Central
pub mod Semi
pub mod SetUp
pub mod Lottery
pub mod CalypsoSimulation
pub mod Template
pub mod Saved
pub mod Samples
