-- ===== src/Lib.antt =====
-- A verification library of the fraud scoring platform: its consensus core with its storage,
-- raft/*.go, and its scoring service, internal/ and cmd/score-server.
--
-- The platform is a Go service that scores transactions (internal/, cmd/score-server) and a Raft
-- implementation (raft/) that replicates a log of commands between servers. A raft node keeps its
-- state under one lock. Goroutines take the lock for a while and release it: the election ticker,
-- the handlers of the two RPCs, the senders of RPCs before and after the network call, the
-- leader's loop, the service's calls and the applier. The node saves term, vote and log through a
-- storage before it tells others anything that depends on them. The scoring service takes a
-- request with named features over HTTP (internal/httpapi), reads them into a vector in the
-- model's order (internal/scoring) and has the inference kernel score it (internal/model).
--
-- What stands where:
--   Prelude, with Tests, Lists, Word and Int: Boolean tests, lists and options over the native
--     numbers, uint64 arithmetic modulo 2 ^ 64 (inc64, add64, sub64), Go's signed int, All.
--   Raft/Types: the messages of raft/message.go, and Entry, Role, ApplyMsg, Status, the errors and
--     the effects of the other files.
--   Raft/Log: raft/log.go, all its functions, as functions that may panic (out of range, slice
--     bounds). Log/Shape has the abstract view, a partial map from indexes to entries; Log/Lookup,
--     Log/Edit and Log/Order state the functions in terms of it. Raft/Newest is about
--     lastIndexOfTerm.
--   Raft/Storage: the interface Storage of raft/persist.go with what its comments promise.
--     Storage/Codec has encodeGob and decodeGob, Storage/Memory the MemoryStorage. Storage/Disk
--     has the calls of package os, Storage/File the FileStorage of raft/filestorage.go over them:
--     a method is a do block of calls, and the disk before each call is kept, as what a crash may
--     come upon. Storage/Crash and Storage/Kept are about a crash in a save and about the
--     interface.
--   Raft/Node: Config and Node of raft/node.go, and the monad of a node's methods: state, panic,
--     and a list of effects (timer reset, goroutines started, broadcast) in order. A panic keeps
--     what was written before it. persist is here.
--   Raft/Role, Raft/Election, Raft/Replication, Raft/Service: the methods of raft/role.go,
--     raft/election.go, raft/replication.go, raft/apply.go, and Propose, Status, Start, Stop and
--     kick of raft/node.go. A method that makes a network call without the lock is two actions:
--     start_election and on_vote_reply for requestVote, prepare_append and on_append_reply for
--     replicateTo, next_batch and finish_batch for applier. Role/Majority and Role/Commit are
--     about advanceCommitIndex, Service/Batch about the applier, Election/Grant about
--     HandleRequestVote, and Replication/Merge, Accept and Handler build up to
--     HandleAppendEntries; Replication/Progress is about the leader's side of replicateTo.
--   Raft/Action: all these actions as one type with one function, perform. Raft/Vote and
--     Raft/Durable are about every action, Durable/Held about what each method leaves on the disk.
--   Raft/Create: New of raft/node.go with withDefaults and validate, and restoreState of
--     raft/persist.go; Create/First is about the first boot over fresh storage, Create/Restart
--     about a restart after a crash, Raft/Valid about validate.
--   Raft/Cluster: several nodes over a network that may lose, delay, repeat and reorder messages,
--     as a relation between the states before and after a step, with crashes and restarts.
--     Cluster/Majority and Cluster/Leads have the lemmas on majorities and on how a node comes to
--     lead. Cluster/Ledger keeps every vote ever given, Cluster/Moves has the invariant,
--     Cluster/Sound, Votes and Count show that the steps keep it, and Cluster/Safety is about
--     elections. Messages and tallies are never taken away, so each can be delivered late, twice
--     or never; RPCs of AppendEntries carry anything at all.
--   Raft/Net: the same cluster with the requests and replies of AppendEntries as messages, which
--     only replicateTo and HandleAppendEntries make. `past` keeps what each member has been after
--     each of its steps; it is no part of the program. Net/Growth, Advance, Progress, Acts and
--     Wins say what each method does to the log, the commit index and the leader's record of its
--     peers; Net/Added, Joined, Sent and Storers have the lemmas on logs, requests and majorities.
--     Three invariants build on each other: Net/Origins and Matched (where entries come from),
--     Net/Fresh (what the votes of an election know) and Net/Committed (what a majority has
--     stored). Net/Moves, Merging, Stepped and Matching keep the first, Net/Remember, Onward, Won,
--     Elections, Counted and Safety the second, Net/Replicate, Replies and Commit the third;
--     Net/Complete and Agreement draw the conclusions, Net/Delivery for what the appliers send.
--     Replication/Splice is about HandleAppendEntries index by index.
--   Scoring/Float: float64 with the operations of it and of package math that the code uses.
--   Scoring/Model: internal/model/model.go, with index panics. Model/Kernel is about validate and
--     Score, Model/Sigmoid about the range of the result.
--   Scoring/Vector: vectorFor of internal/scoring/scoring.go with the errors of
--     internal/scoring/errors.go; a map is a list of its entries in the order that a loop over it
--     happens to take. Vector/Fault and Vector/Order are about its errors and about that order.
--   Scoring/Service: New, Score and Ready of internal/scoring; Service/Total is about Score.
--     Scoring/Strings has a sort of texts for the tests.
--   HttpApi/Json: the pass over the JSON tokens of a request body of internal/httpapi/score.go.
--     Json/Tree has the values as trees, with their tokens, Json/Ends that the recursion ends,
--     Json/Fresh and Json/Steps its single steps, Json/Sound and Json/Complete the two halves of
--     what it accepts, Json/Blame and Json/Judge what its errors say.
--   HttpApi/Body: validateJSONStructure around that pass; Body/Accepts and Body/Faults are about
--     it.
--   HttpApi/Handler: the handlers of internal/httpapi and its routes; a panic is no answer.
--     Handler/Answer is about the score handler.
--   Raft/Timer: the election timeout of resetElectionTimer, in int64 arithmetic; in Node its only
--     trace is an effect.
--   Raft/Transport: raft/httptransport; Transport/Remote is about an RPC that reaches the peer.
--   Server: internal/config and `run` of cmd/score-server/main.go. Server/Start is about its
--     start, Server/Answers about the handlers of a server that has started.
--   Raft/Tests, Raft/Replication/Tests, Raft/Storage/Tests, Raft/Cluster/Samples,
--     Raft/Cluster/Tests, Raft/Net/Samples, Raft/Net/Tests, Raft/Transport/Tests,
--     Raft/Timer/Tests, Scoring/Samples, Scoring/Tests, HttpApi/Samples, HttpApi/Tests and
--     Server/Tests: concrete nodes, storages, models and requests on which the theorems are
--     applied.
--
-- Bounds. Terms and indexes are uint64 and wrap around as in the source; a theorem that needs room
-- for one more says so. Every loop is a recursion over a list or over a number that the source
-- counts down, except the pass over the tokens of a body: it has fuel, which bounds the depth of
-- its calls. A token takes at least one byte, so twice the length of the body and one more are
-- enough. A negative int limit is read as 0, which the source treats alike.
--
-- What the model takes as given: a node's storage is a parameter with the promise of
-- raft/persist.go that what was saved is loaded, and with that of raft/filestorage.go that a save
-- that fails leaves the old state or the new one; both storages keep both; encoding/gob is a
-- parameter whose results can be decoded; package os is a parameter with the promises of a local
-- file system, that a synced file survives a crash, that a rename is atomic and is durable once
-- the directory is synced, and that a call on one path spares others. float64 is a parameter, with
-- the rounding of IEEE 754 where the range of a score depends on it; a decoder of encoding/json is
-- a parameter whose tokens take a byte each; the calls of net/http, mime and json.Marshal are
-- functions of the handlers; json.Unmarshal, os.ReadFile and sort.Strings are functions that the
-- definitions take. The configuration's transport, channels and logger are only present or absent.
-- Time is a parameter too: whether the election deadline has passed is an argument of tick, and
-- what the clock says is a field of the service.
--
-- What is not modelled: logging; the texts of errors; the disk of a node whose save failed after
-- it reached the disk, as a state that a cluster's node restarts from; how the Go runtime
-- schedules goroutines beyond the lock; how a ServeMux matches a pattern; the timeouts of the
-- servers, and the forced close after a failed shutdown.
pub mod Prelude
pub mod Raft
pub mod Scoring
pub mod HttpApi
pub mod Server
