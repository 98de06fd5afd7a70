-- ===== src/Lib.antt =====
-- A study of server components for Windows: object pools with handles, sessions over completion
-- ports, and task schedulers with work stealing. This library models the parts that carry state
-- of their own and shows that they are correct.
--
-- The parts and how they interact. SparsePool keeps its objects in an ObjectPool and their
-- states in a SparseSet, and counts the SharedPoolPtrs to each of them; the last one to go gives
-- the object back. SessionManager keeps its sessions in such a pool. A Session cuts what comes
-- over its socket into packets for PacketHandler, and queues what is to be sent. PacketHandler
-- answers by a Broadcast of SessionManager, which sends to every connected session. Listener
-- posts accepts; IocpCore hands each completion to the session that it is about, and disconnects
-- it where that fails. The two schedulers, Worker and WorkStealing, are programs of their own,
-- as are the echo servers and the client of Network/Legacy. The sessions of the server keep
-- their bytes in magic buffers.
--
-- Which file models which part:
--
-- - Prelude: words that wrap round, arrays, Boolean tests, lists, and the rings of arrays that
--   are indexed modulo their size.
-- - SparseSet: Network/Common/Pool/SparseSet.hpp, with the same operations in snake_case. The
--   private steps of IncrementState and DecrementState are raise and lower, the loops of
--   MoveToState are climb and descend, and the loop of GetIndicesInState is collect. N and the
--   number of states are parameters.
-- - SparsePool: Network/Common/Pool/SparsePool.hpp, ISparsePool.hpp and the use that this makes
--   of ObjectPool.hpp; T is a parameter.
-- - SharedPoolPtr: Network/Common/Pool/SharedPoolPtr.hpp, each special member as a function of
--   the pool and the pointers.
-- - WorkStealing: Scheduler/WorkStealing.cpp, the queues. WorkStealing.Runs is the loop of
--   Worker with Steal and Try_pop_global, and what RunTasks does, as steps that come in any
--   order: a step is one call on one queue, one task or one access to a global. Try_pop_global
--   takes g_m in one step, moves a task in each of the next ones, between which others may
--   steal, and gives g_m back; RunTasks does nothing while a worker holds it. The victims that
--   the random generator draws are the arguments of the steps. The queues are all there when the
--   first worker runs.
-- - Scheduler: Scheduler/Worker.hpp and Scheduler/Worker.cpp, the ring and the buffer of a
--   worker and what moves tasks into, between and out of them. Scheduler.Runs is the loops of
--   Worker.cpp and what RunTasks and main of Main.cpp do to the workers, as steps that come in
--   any order: a step is one call of these operations, one task, one access to pending_tasks_ or
--   one test of stop_. Scheduler/Legacy is the same program with another number of attempts to
--   steal, and a run is of either.
-- - MagicBuffer: Network/Common/MagicBuffer.cpp and MagicBuffer.hpp, over the system's sections,
--   views and addresses.
-- - Session: Network/Server/Session.cpp with OverlappedEx.hpp, the header of
--   Network/Common/Protocol.hpp and the buffer size of Network/Common/Config.hpp: RegisterRead,
--   OnRead, RegisterWriteInternal, OnWrite, SendPacket and HandleIO, and Reset of OverlappedEx
--   with the deleter of Network/Server/SessionManager.cpp. The session manager, the packet
--   handlers and the socket calls are the interface Env.
-- - SessionState: the states of a session, GetState, SetState and ConnectSession of
--   Network/Server/SessionManager.cpp on the SparseSet of the pool, and what Connect and
--   Disconnect of Session.cpp do under connectMtx_.
-- - SessionManager: Network/Server/SessionManager.cpp, CreateSession, DisconnectSession,
--   GetSession, Broadcast, Init and RegisterSession, over a pool of sessions and the table of
--   their pointers. What SendPacket of a session does is a parameter.
-- - PacketHandler: Network/Server/PacketHandler.cpp, both handlers with the packets that they
--   build, and Execute. Broadcast is a parameter.
-- - Connection: Network/Server/IocpCore.cpp (Dispatch, HandleError, a round of WorkerThread)
--   with Connect, Disconnect and Clear of Session.cpp and HandleAccept and RegisterAccept of
--   Listener.cpp, on one session, the states of all, and the interface System.
-- - IocpCore: Network/Server/IocpCore.cpp, Start, the destructor and the loop of WorkerThread,
--   as steps that come in any order: a step is one thread started, posted to or joined, one
--   packet taken, or one completion handled. The completion port is the interface Port.
-- - Listener: Network/Server/Listener.cpp, PostAccept and DecrementPendingAccepts, as one thread
--   runs them and as the steps of several threads, each up to its next access to pendingAccepts_
--   or call of another part.
-- - Echo: Network/Legacy/SingleThreadEcho.cpp, all of main, and handleClient of
--   MultiThreadEcho.cpp, over the calls of Winsock.
-- - Client: Network/Legacy/Client/Client.cpp, SendPacket, ReceiveByte, ReceivePacket,
--   HandlePacket and the loop of ThreadFunc, over a socket that takes and gives bytes in parts.
--
-- Conventions. A fixed-size array is a function from indices, and a machine word is a natural
-- number with its wrap written out. A mutex makes a call one step, so the calls come one after
-- another; whether a try_lock succeeds is an argument. A call that changes an object returns the
-- new one. Where a callback runs while a call is under way, the state that it starts from is the
-- one described: for the function that SparsePool calls after a release this is the predicate
-- Settled. The conditions on the next handle in SharedPoolPtr are there because generations have
-- 32 bits and come round again.
--
-- Rounds. climb gets the new state and descend the present one as the number of rounds: each
-- round changes the state by one. collect, and the loops of the schedulers, get the count that
-- the code computes before the loop. The loop of OnRead gets the number of bytes there are, of
-- which each round that goes on takes four or more. The loops of the client that send and
-- receive get the number of bytes, of which each round takes one or more. PostAccept gets a
-- number of rounds; one for each accept that is missing and one more are enough. The loop of
-- SingleThreadEcho gets any number of rounds, after which it may still go on. digits gets 64,
-- one round for each bit of the word that it prints.
--
-- Magic buffers. In Session the mapping of the buffer twice in a row appears as indexing modulo
-- its size; MagicBuffer models the mapping itself. The memory of a packet that is sent is
-- indexed modulo that size too, since the packet's size has 16 bits.
--
-- Interfaces. Streams and Accepts say what the client's sockets promise: a call gives or takes
-- some of the bytes, in order. Handles says what it is to handle a stream packet by packet.
-- Keeps of Echo says what the calls of Winsock do to sockets, Logs what they add to the lists of
-- what was received and asked for, Maps what sections, views and handles do to each other,
-- IsFifo that a completion port gives packets in the order in which they come, Counts that only
-- RegisterAccept posts accepts, and IsSteady that releasing a pointer and counting an accept
-- down leave the state of the one session that the completion is about alone, as they do while
-- the manager's table holds a reference to it, whatever they do to others. Counts of
-- Session.Writing says that only WSASend counts as a send.
--
-- Left out. What the completion port itself does, the construction and start of the server and
-- of its parts, the benchmarks' load, logging, timing, and the mains of the other legacy echo
-- servers.
pub mod Prelude
pub mod SparseSet
pub mod SparsePool
pub mod SharedPoolPtr
pub mod WorkStealing
pub mod Scheduler
pub mod Session
pub mod SessionState
pub mod SessionManager
pub mod PacketHandler
pub mod Client
pub mod Connection
pub mod Listener
pub mod IocpCore
pub mod MagicBuffer
pub mod Echo
