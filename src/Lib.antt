-- ===== src/Lib.antt =====
-- The core of oef-mt-core: bytes from a socket to protobuf messages and back, conversations with the
-- search core, the pool of tasks that does the work, the karma accounts that limit it, and the queries
-- over instances with which agents are found.
--
-- The parts and how they meet:
--
-- - An endpoint (basic_comms/src/cpp/EndpointBase.cpp) owns two byte rings (RingBuffer.hpp). It starts
--   asynchronous reads and writes of boost::asio on their space and data buffers and is called back
--   when they complete. It hands the data that came to a reader, which says how many bytes it consumed
--   and how many more it needs, and lets a writer fill the free space from the queue of messages.
-- - Reader and writer are mt-core/comms/src/cpp/ProtoMessageReader.cpp and ProtoMessageSender.cpp. They
--   see the scattered buffers as one stream (basic_comms/src/cpp/ConstCharArrayBuffer.hpp and
--   CharArrayBuffer.hpp). A message is a header of four bytes, its length, and its body; the byte
--   order of the header is detected on the first message.
-- - Senders that find the queue full wait on a notification (threading/src/cpp/lib/Waitable.cpp and
--   Notification.cpp), which the writer wakes.
-- - The work on messages runs as tasks on the threads of a pool (threading/src/cpp/lib/Taskpool.cpp and
--   Task.cpp), some of them state machines (StateMachineTask.hpp).
-- - Before it acts for a connection the program charges its karma account
--   (mt-core/karma/src/cpp/KarmaPolicyBasic.cpp and KarmaAccount.cpp); the accounts stand in the store of
--   cpp-utils/src/cpp/lib/BucketsOf.hpp.
-- - A conversation with the search core (mt-core/conversations/src/cpp) goes over messages that carry a
--   leader with a path and an identifier, ProtoPathMessageSender.cpp and ProtoPathMessageReader.cpp.
--   OutboundSearchConversationCreator.cpp numbers conversations, lets a worker task send their first
--   messages and hands the replies to them by their identifier.
-- - An agent logs in with two messages (mt-core/oef-functions/src/cpp/InitialHandshakeTaskFactory.cpp)
--   and is entered in the directory of agents (mt-core/agents/src/cpp/Agents.cpp), which
--   OefFunctionsTaskFactory.cpp takes it out of when its connection ends.
-- - A worker task (mt-core/tasks-base/src/cpp/TWorkerTask.hpp) works off a queue of workloads and wakes
--   those who wait for them.
-- - A query (oef-core-functions/src/cpp/lib/schema.hpp and schema.cpp) is an expression of constraints
--   on attributes; it is checked against instances, the values of the attributes of a data model. The
--   versions of data models stand in a directory.
--
-- The files, with the code they model:
--
-- - Base: numbers, lists, Boolean tests, the four bytes of a word, and integers.
-- - BasicComms/Memory and Window: the bytes that buffers point at, and runs of bytes round a ring.
-- - BasicComms/RingBuffer: RingBuffer.hpp, an operation for each method under its name, the mutex left
--   out since each method holds it throughout. Sizes wrap at 2^64 as size_t does. RingBuffer/Bounds has
--   the invariant and RingBuffer/Queue the queue of bytes that a ring stands for.
-- - BasicComms/ConstCharArrayBuffer and CharArrayBuffer: the two streams. A stream is a record of
--   memory, buffers, position and size; `uflow`, `read_u32`, `write_u32` and the others follow the
--   methods. BasicComms/Int32 has the overloads for signed numbers.
-- - BasicComms/EndpointBase: the endpoint as a record, each handler and completion a function on it.
--   What leaves the endpoint is appended to a log. Reader and writer are parameters, and what `connect` gets from
--   resolver and socket is an argument. EndpointBase/Rule
--   carries an invariant over all calls; Notices, Life and Transfer use it.
-- - Comms/ProtoMessageReader and ProtoMessageSender: `check_for_message` and `check_for_space`, with the
--   loop body in functions of their own. Comms/RoundTrip puts sender, ring and reader together.
-- - Threading/Taskpool: tasks are numbers, and the pool has a table of their fields. The stages of the
--   loop of `run` between two locks are functions, and a history is a sequence of such steps. In
--   `stop`, which calls into the pool while it holds the mutex, a second lock by the same thread is
--   `none`; Taskpool/Stop is about it, Once about where tasks wait, Groups about cancelling.
-- - Threading/Notification: notifications and the Waitable. Threading/StateMachineTask: the loop of run.
-- - Karma/BucketsOf, Karma/KarmaPolicyBasic, Karma/KarmaAccount: the three classes.
-- - Conversations/Transport: the leader, transport.proto, and the framing. Conversations/
--   ProtoPathMessageReader and ProtoPathMessageSender: `check_for_message` and `check_for_space` as above;
--   Conversations/RoundTrip puts them together. Conversations/OutboundSearch: the conversations as a map
--   from identifiers; OutboundSearch/Routing has the way of the replies.
-- - Tasks/WorkerTask: TWorkerTask.hpp; a round of the loop is a function, and the wakes are collected.
-- - CoreFunctions/Values, Attributes, Constraints, Instances, Query, Schemas: the classes of schema.hpp in
--   its order. A protobuf message is a record and a oneof a data type with a constructor for no case;
--   exceptions are values. Constraints/Meaning and Query/Satisfaction say what a query means,
--   Query/Typing is an evaluation in which a read of a case that is not set is an error, Instances/Filling,
--   Required, Complete and RoundTrip are about the constructors of Instance, and Schemas/Versions about
--   the directory.
-- - Agents: mt-core/agents, the directory; Agents/Laws what is found in it.
--   OefFunctions/InitialHandshake: the plain handshake, and how an endpoint goes away;
--   InitialHandshake/Login what each does to the directory, InitialHandshake/Live runs of both.
-- - Base/Decides: Boolean tests that decide propositions.
-- - Tests beside each of these: concrete runs. BasicComms/Sample is a memory for them.
--
-- Fuel: the loop of `check_for_message` gets one round more than there are bytes, and each round
-- consumes a header of four; that of `check_for_space` one round more than the bytes of space, and
-- each round writes a header; `copy_out` one round for each byte; `tokenise` one round more than
-- there are characters. The path reader and the path sender get rounds in the same way, and each
-- round reads or writes two lengths. A run of TWorkerTask gets its rounds as a parameter, since
-- workloads may be posted while it goes on; while none are, one round more than there are workloads
-- is enough. The loop of StateMachineTask has no bound of its own, so its rounds are a parameter.
--
-- Parameters: protobuf's ByteSize and SerializeToOstream, of which a record of hypotheses says that the
-- size is the length of the encoding and below 2^31; the waking of waiting senders, which only appends
-- to the queue; the parsing of leaders and responses, of which it is assumed where needed that a leader
-- is parsed from the bytes that were written for it; the arithmetic of doubles and the functions of
-- <cmath>, of which nothing is assumed; to_string of a value, which has no body in the repository; the
-- `process` of a worker; connecting; std::stoi; the parsing of the messages of the handshake; the state
-- functions of a state machine; and, for the endpoint alone, reader and writer.
--
-- Not modelled: sockets, resolvers, TLS and the clock, which are calls of libraries; counters, gauges
-- and logging; the other conversations and handshakes, the task factories and the rest of the search library,
-- which use the parts above; hashes; data races, where the code leaves out a lock.
pub mod Agents
pub mod Base
pub mod BasicComms
pub mod Comms
pub mod Conversations
pub mod CoreFunctions
pub mod Karma
pub mod OefFunctions
pub mod Tasks
pub mod Threading
