-- ===== src/Lib.antt =====
-- The distributed services of the 6.5840 labs (Go, under 6.5840/src): a key/value server whose
-- clerks retry, the leader election of Raft, MapReduce, and of the tests the simulated
-- network and the key/value model.
--
-- Common (Common/*.antt): shared names, Boolean tests, lists over the native numbers, and Go maps as
-- functions from keys to optional values.
--
-- KvSrv.antt is kvsrv/server.go and kvsrv/common.go: `KVServer` is the record KvServer, and Get,
-- CheckIfNeedChange, Put, Append and StartKVServer are functions of the same names that take the
-- server and return it with the reply. KvSrv/Clerk.antt is kvsrv/client.go: the loops of Get and
-- PutAppend, one Call at a time; what comes of a Call (the request is lost, the reply is lost, it is
-- delivered) is an argument. KvSrv/System.antt puts any number of clerks beside one server, their
-- calls in any order. KvSrv/Atomic.antt is the store that they promise. A request whose Call has
-- returned false is taken not to run afterwards; KvSrv/Retries.antt says what happens if one does.
-- KvSrv/Calls.antt puts the clerk's calls and the server's service on the network of Labrpc.antt: the
-- requests of client.go, ClientEnd.Call around them and StartServer of kvsrv/config.go; what labgob
-- makes of a value is a parameter, and a Call on a destroyed network, which sends nothing, is left out.
-- KvSrv/Config.antt is the harness of kvsrv/config.go, which makes the server and the clerks; that
-- deleteClient also removes files is left out.
--
-- Raft.antt is raft/raft.go: the struct Raft without its lock, its log and its channels, and a
-- function for each handler and for each stretch of code that runs under the lock. The `-1` of votedFor is
-- `none`. Raft/System.antt is n peers with the goroutines of emitElection and sendHeartBeat in any
-- order, messages delayed, reordered or lost. Terms are natural numbers: a Go int holds them as long
-- as fewer than 2 ^ 63 elections have begun, since no term is larger than that number. The stubs
-- persist, readPersist and Snapshot are not modelled. The ticker tests killed before its sleep, and
-- anything may happen during the sleep.
-- Raft/Persister.antt is raft/persister.go for any number of persisters, with the arrays of the byte
-- slices, which Copy shares, and those that the callers can write.
--
-- MapReduce.antt is mr/rpc.go, and MapReduce/Coordinator.antt is mr/coordinator.go: the two loops of
-- AssignMission are one function scan over a task list; a panic on an index out of range and the nil
-- of MakeCoordinator are `none`. filepath.Glob and fmt.Sprintf are parameters. A time.Time is its
-- nanoseconds since the zero time, and each reading of the clock is an argument.
-- MapReduce/Coordinator/Rounds.antt is the loop of Worker in mr/worker.go without the work itself;
-- its rounds are a list of clock readings, and MapReduce/Coordinator/Recovery.antt has the number of
-- rounds that is enough.
--
-- Labrpc.antt is the registry of labrpc/labrpc.go: the names of ends are strings, those of servers
-- numbers, and a *Server is an address. Labrpc/Service.antt is the dispatch of a request to a method;
-- a log.Fatalf and a panic are `none`, and what reflect and labgob do is a parameter.
-- Labrpc/Process.antt is processReq, as the steps of one request and of its handler's thread beside
-- whatever the rest of the program does; random numbers are arguments and sleeps are left to the
-- order of the steps. Labrpc/Calls.antt follows one request whose server nobody else calls or moves.
--
-- MapReduce/Worker.antt is the data path of HandleMap and HandleReduce in mr/worker.go: a file of
-- pairs is the list that json.Decode reads from it (JSON keeps a text that is UTF-8), an index out of range is `none`, and the two index
-- loops over the sorted pairs are reduce_loop, whose fuel, the number of pairs, is at least the number
-- of groups. Map is represented by what it gave for each input, Reduce, fnv.New32a and sort.Sort are
-- parameters. MapReduce/Worker/Agreement.antt has the run of main/mrsequential.go beside the
-- distributed one.
--
-- MapReduce/Apps.antt is mrapps/wc.go and mrapps/indexer.go, whose calls of strings, unicode, strconv,
-- sort and fmt are parameters; a Go map is the list of its keys, and the order in which a loop takes them
-- is a parameter too.
--
-- Models.antt is KvModel of models/kv.go, the sequential model of the tests, and Models/Histories.antt
-- is what kvsrv/test_test.go writes down of the calls of one clerk.
--
-- Labgob.antt is checkType of labgob/labgob.go: a reflect.Type is an index into a table, so that types
-- may be recursive, and the fuel is the depth of the calls, for which one more than the number of types
-- is enough. Labgob/Defaults.antt is checkDefault; no pointer is followed beyond the third level.
--
-- Harness/Leaders.antt and Harness/Commits.antt are the checks of raft/config.go: what they see of the
-- servers at each moment is an argument, and a Fatalf is `none`. nCommitted takes the lock once for each
-- server, so it has the logs of a moment for each; applierSnap and ingestSnap, which can take entries
-- away, are not modelled. Harness/Links.antt is make_config,
-- connect, disconnect, crash1 and start1 on the network of Labrpc.antt: the names of randstring and the
-- verdict of ingestSnap are arguments, a persister is an address, and Harness/Links/Live has the
-- invariant of the ends under every sequence of these operations. cfg.logs, cfg.lastApplied and the
-- appliers have no part in that state.
--
-- KvRaft/Config.antt is kvraft/config.go: replicas and clerks on the network of Labrpc.antt, make_config,
-- StartServer, ShutdownServer, the connections, partition, Leader and make_partition. The loops over
-- lists of servers are functions on these lists, a *Clerk is a number, and an index out of range is
-- `none`. KvRaft/Config/Names.antt and Keeps.antt have the invariant that all ends have different
-- names, Reached.antt the states of a test. shardctrler/config.go repeats the same functions for
-- another server and is not modelled again.
--
-- Shards.antt is the clerks of shardctrler/client.go and shardkv/client.go, whose servers have empty
-- handlers. The Calls of a clerk are numbered, and what comes of each is an argument, so the network, the
-- servers and the controller may do anything. A `for` without end is a recursion on a number of rounds,
-- and Shards/Settled.antt has how many are enough. A group id is a natural number, -1 as the number of a
-- configuration is `none`, and key[0] is the first byte of the key in UTF-8.
--
-- Not modelled: sockets, files, logging and goroutine start-up; the servers of kvraft,
-- shardctrler and shardkv and the clerk of kvraft, whose methods are empty; the other test harnesses;
-- porcupine, a copy of another project.
pub mod Common
pub mod KvSrv
pub mod Raft
pub mod MapReduce
pub mod Labrpc
pub mod Models
pub mod Labgob
pub mod Harness
pub mod KvRaft
pub mod Shards
