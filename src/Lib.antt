-- ===== src/Lib.antt =====
-- wraft: Raft among browser windows, in Rust for WebAssembly.
--
-- The program. Each window runs one worker (wraft/src/raft/worker.rs), which is a follower, a
-- candidate or a leader, keeps its log, term and vote in the browser's local storage
-- (wraft/src/raft/storage.rs), calls its peers over data channels
-- (wraft/src/webrtc_rpc/transport.rs), whose requests in flight stand in a ring buffer
-- (wraft/src/ringbuf/mod.rs), and sends committed commands to a state machine, such as a todo list
-- (wraft/src/todo_state.rs). Windows of one session find each other through a service
-- (webrtc-introducer/src/main.rs), which passes their offers and answers on.
--
-- The files.
--   Base: numbers, lists, maps, machine words, and `Outcome` for code that may panic.
--   Raft.Types: the messages of wraft/src/raft/mod.rs and errors.rs.
--   Raft.Storage: `Storage` of storage.rs, one function per method. Storage.Log is about the log that
--     a storage holds, Storage.Reload about opening it again.
--   Raft.Worker: `RaftWorkerInner` and the handlers of every role; Worker.Follower, Worker.Candidate,
--     Worker.Leader and Leader.Handlers: those of one role; Worker.Machine: `next` of the three roles
--     as one step function on a role.
--   Raft.Votes: the term and the vote of one node through all of its handlers, steps and runs.
--   Raft.Replication: a follower's log, as a merge of lists. Raft.Leading: elections, what a leader
--     commits and sends, what it knows of its peers, and its log while it leads and as followers take
--     it over.
--   Raft.Clients: the senders of the requests of clients and peers through the handlers and the rounds
--     of one node: which are answered, dropped, forwarded, acknowledged or left waiting.
--   Raft.Cluster: the nodes of a cluster together, with the calls for votes that are on their way
--     between them. A move is a round of one node, or the loss of a call; what the nodes send
--     besides comes back as any event, so nothing is assumed of it but its terms.
--   Raft.Setup: `Raft::start` of mod.rs, with the stored peer configuration. Raft.StateMachine: the
--     trait `State`, `handle_state_machine` and the HashMap. Raft.Client: the results of client.rs and
--     rpc_server.rs.
--   Introducer: `Channels` of webrtc-introducer/src/main.rs, with the commands of
--     webrtc-introducer-types/src/lib.rs; Introducer.Socket: `process_socket` and `process_message`.
--   Introduction: `State` and the handlers of wraft/src/webrtc_rpc/introduction.rs; it shares the
--     commands of Introducer.
--   RingBuf: `RingBuf`. RingBuf.Window has its validity and its contents as a finite map,
--     RingBuf.Contents its values with how often they stand in it.
--   Transport: `RequestManager`, on the ring buffer. Transport.Calls: the other end of the channel.
--     Transport.Peer: one end as a whole, with its client, its channels, its manager and its server.
--   Todo: `State` of todo_state.rs and its messages.
--   App.Startup: the page of raft_init.rs that starts or joins a cluster, and `get_session_key` of
--     lib.rs. App.Page: the page of todo.rs; what a cluster does with the commands that a page sends is
--     no part of it. App.Bench: benchmark.rs. What a page draws is a record of
--     what its elements show and of the messages that they send.
--   Tests: concrete nodes, buffers and lists.
--
-- How code corresponds. A method that changes `self` returns the new state, one that may panic an
-- `Outcome` of it; a panic ends the node, so its state is not kept. A handler also returns, in order,
-- what it sends (`Effect`, `Sent`): replies, commands, and the tasks that it spawns, each of which is
-- a call to a peer whose result comes back as an `Event`. `select!` takes the events in any order, so
-- a run is any list of events. An event for a role that has no such channel changes nothing.
-- `disconnected` is a task's call that finds the client's channel closed, and clears the flag that
-- all clones of the client share.
--
-- Numbers. Node ids, terms and indices are u64 and wrap as in a release build, usize has the 32 bits
-- of WebAssembly; both are natural numbers with the wrap written out. Theorems that need room say so
-- by a bound. Session keys are u128, which the pages print and read in base 16; elsewhere they are
-- only compared. A time of the benchmark is only kept.
--
-- Collections. A HashMap is an association list, a HashSet a list. Where the code goes over a map,
-- the model does so in one order: what is sent has that order, and no theorem is about it.
--
-- The browser's storage is a function from keys to texts; a key is the data that its text is made
-- of. `to_string`, `parse`, bincode and base64 are a parameter, `Codec`, with the laws that parsing
-- and decoding undo showing and encoding for numbers that fit. `char::is_whitespace` is the list of
-- the code points that have the property White_Space.
--
-- Fuel. `skip`, the loop of `RingBuf::remove`, runs on the width of the window, and each round makes
-- the window narrower; on a valid buffer it ends by its own test.
--
-- The broadcast channel of tokio is a parameter, `Broadcasting`, with the law that a channel with
-- a receiver takes what is sent. How it brings a command to its receivers is not modelled: a task
-- that serves a node takes any command as its next event. bincode of peer lists is `PeersCodec`, for
-- ids of 64 bits. A socket's loop and its task are one state, and what either takes next is an
-- event. The channels of a data channel's end
-- take a message or are closed; a sender that waits for room has its event when it gets it. The
-- fragment of an address, as the browser gives it, is a parameter with a law for fragments of
-- hexadecimal digits (`IsFragment`), and so is what an address is.
--
-- Not modelled: time and randomness (a timeout is an event); the channels of a worker that close
-- (the receivers of replies are kept by the RPC server, those of commands by the state machine's
-- task); log output; the sockets of the introducer and its `main`; the hash that makes a node's id;
-- the functions of wraft/src/webrtc_rpc/introduction.rs that wrap promises and callbacks of the
-- browser; the markup and styles of the pages, the router, and the rate that the benchmark draws, in
-- floating point; the timers of wraft/src/util/mod.rs.
pub mod Base
pub mod RingBuf
pub mod Raft
pub mod Todo
pub mod Transport
pub mod Introducer
pub mod Introduction
pub mod App
pub mod Tests
