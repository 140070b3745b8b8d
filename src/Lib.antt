-- ===== src/Lib.antt =====
-- A key-value store replicated by Raft: the consensus node, the files that it keeps, the server,
-- and the fibers, timers and calls that it is built on.
--
-- The program. A server (raftCore/kvServer.cpp) hands the commands of its clients to a Raft node
-- (raftCore/raft.cpp) and applies what the node commits to a skip list. The nodes exchange
-- AppendEntries, RequestVote and InstallSnapshot messages (raftRpcPro/raftRPC.proto), keep their
-- term, vote, log and snapshot in two files (raftCore/Persister.cpp), and give committed commands
-- and snapshots to the server by a queue (raftCore/include/ApplyMsg.h). Paths are from src/ of the
-- repository.
--
-- The files.
--   Common        lists with their lengths over the native numbers, integers, strings as bytes, and
--                 the outcome of a call: a value, a failed `myAssert`, or a read out of range.
--   Persister     raftCore/Persister.cpp: a node's two files and the output streams, whose buffers
--                 reach the files when the streams are closed or flush themselves. Reading is
--                 `ifs >> str`, so it takes the first word.
--   Raft/State    the fields of class Raft (raftCore/include/raft.h) and the messages.
--   Raft/Log      getLastLogIndex ... UpToDate: which index stands where in `m_logs`.
--   Raft/Persist  persistData, persist, readPersist; Raft/Peers the loop over the other nodes.
--   Raft/Vote     doElection, RequestVote, sendRequestVote from its reply on.
--   Raft/Append   AppendEntries1, branch by branch.
--   Raft/Leader   GetState, Start, doHeartBeat, sendAppendEntries from its reply on,
--                 leaderUpdateCommitIndex.
--   Raft/Snapshot Snapshot, InstallSnapshot, CondInstallSnapshot, leaderSendSnapShot.
--   Raft/Apply    getApplyLogs, applierTicker's round, pushMsgToKvServer, init.
--   Raft/Tickers  a round of electionTimeOutTicker and leaderHearBeatTicker: up to its sleep, and
--                 from it on.
--   Raft/Node     the node as a state machine: each operation under the lock is one call.
--   The modules below these hold what is proved of them; Raft/Tests the theorems at one node.
--
--   KvServer/State     class KvServer, class Op (common/include/util.h), the clients' messages
--                 (raftRpcPro/kvServerRPC.proto), and the interface Store of the skip list.
--   KvServer/Execute   ExecutePutOpOnKVDB ... ReadRaftApplyCommandLoop's round.
--   KvServer/Handlers  Get and PutAppend, and the constructor.
--   KvServer/View      the abstract state: values by key, and the last request of each client.
--   KvServer/Returns   a server on a well-formed node handles its messages without a failed check.
--   KvServer/CallLog   the calls that a server makes of its skip list; KvServer/Replays makes
--                 them of SkipList, and KvServer/CallMap shows IsMap of them.
--   Config        rpc/mprpcconfig.cpp: the file with the nodes' addresses, as bytes.
--   Timers        fiber/timer.cpp: the ordered set of timers, on 64-bit times.
--   SkipList/State, Operations, Dumps   skipList/include/skipList.h: the nodes on a heap, and each
--                 operation of SkipList; Shape the cells that the nodes stand for; Refines what
--                 is proved of an operation, Traces of calls one after the other.
--   Fiber         fiber/fiber.cpp: the states of fibers and the switches between their stacks;
--                 Fiber/Pool on a thread of the scheduler's pool.
--   Locks         fiber/include/mutex.hpp: scoped locks.
--   Scheduler     fiber/scheduler.cpp: the queue of tasks and which one a thread takes;
--                 Scheduler/Life the threads that it starts and joins.
--   IoManager     fiber/iomanager.cpp: the events that descriptors wait for; IoManager/Idle the
--                 rounds of `idle`, with the timers.
--   FdManager     fiber/fd_manager.cpp: what is kept of each descriptor; Hook fiber/hook.cpp: the
--                 hooked system calls that use it; Hook/Waits do_io and connect_with_timeout;
--                 Hook/Sleeps the sleeps, which set a timer of the IOManager.
--   Rpc/Channel   rpc/mprpcchannel.cpp, rpc/mprpccontroller.cpp: a call, its framing and its
--                 connections; Rpc/Provider rpc/rpcprovider.cpp: the services and the dispatch.
--   Clerk         raftClerk/clerk.cpp: the retry loops of Get and PutAppend.
--
-- Modelling. An operation under the mutex is one function of the node's state; what the network,
-- the clock and the caller bring are its arguments, and the threads that it starts are in its
-- result. sendRequestVote, sendAppendEntries and leaderSendSnapShot release the lock or do not
-- hold it during their RPC: what they do with the reply is a step of its own. Terms, indexes and
-- node numbers are natural numbers, since they never are negative; votes, next indexes and hints
-- are integers. Overflow of `int` is not modelled, but for
-- the cast of a wait to it. A call whose `myAssert` fails ends the process
-- and has no next state. Writes to `m_nextIndex[server]` and `m_matchIndex[server]` are taken to
-- be in range, since the servers come from the loop over the peers. Loops are structural recursion
-- on a list or on the rounds that are left, which each caller computes from the loop's bounds; the
-- clerk's are recursion on the answers. A handler of the server is two steps, up to its wait for
-- the node and from it on; the server knows the skip list by the interface Store, and a theorem
-- that needs a map has the hypothesis IsMap. The skip list itself is a heap of nodes whose walks
-- take as fuel the number of elements and one more, which is enough on every well-formed list; the
-- results of rand() are an input, and its mutex is a flag, so that waiting for it while holding it
-- is an outcome of its own. Boost's archives and protobuf's entries are the parameters RaftCodec
-- and KvCodec; where a theorem needs that reading gives back what was written, it has the
-- hypothesis IsLawful. `m_statue`, `.count > 1`, `applyChan->pop()`, `SnapchotValid`, `op.key`,
-- `m_lastSnapshotIncludeIndex()` and `persistStateAndSnapshot`, which do not compile, are read as
-- `m_status`, `.count() > 1`, Pop, SnapshotValid, Key, the field, and a save of state and
-- snapshot.
--
-- What the hooks ask of fcntl, ioctl and fstat is the parameter System, with IsSystem for what
-- those document. A turn of do_io brings the result of the original function and the IOManager's
-- state. The results of the other system calls (socket, connect, send, recv, epoll_ctl) are inputs
-- in the order of the calls; protobuf is the parameter Protobuf, with IsProtobuf for what it
-- documents. `method_name` in rpc/mprpcchannel.cpp, which is not declared, is read as
-- `menthod_name`, and the template's `int insert_element` as the `bool` of its definition.
--
-- Not modelled: the sleeps and the endless loops of the tickers, what the skip list prints, the
-- clerk's connections, the stacks' memory, what threads do at the same time inside an operation,
-- the start of the RPC server, sockets, and the generated code.
pub mod Clerk
pub mod Common
pub mod Config
pub mod FdManager
pub mod Fiber
pub mod Hook
pub mod IoManager
pub mod KvServer
pub mod Locks
pub mod Persister
pub mod Raft
pub mod Rpc
pub mod Scheduler
pub mod SkipList
pub mod Timers
