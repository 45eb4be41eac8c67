-- ===== src/Lib.antt =====
-- A model of the core of libzmq-ru, a ZeroMQ messaging library in Rust. All code modelled is in
-- the folder crates/libzmq-core/src: a name such as context.rs below is
-- crates/libzmq-core/src/context.rs.
--
-- The parts, and how they work together. A `Context` holds options, a counter of socket ids, and
-- a registry of inproc endpoints by name (context.rs). A socket has a type (socket.rs), and a
-- state that makes REQ and REP sockets take turns. Sockets of one process exchange messages
-- (message.rs) by way of an endpoint: the socket that binds a name owns it, the sockets that
-- connect to the name are its peers, and each peer has a queue and a set of subscriptions. A
-- message of the binder goes to the peers in turn, to one of them, or to all that subscribe to
-- it; an XPUB binder hears of its peers' subscriptions in frames of its own queue. pipe.rs has
-- the bounded queues. On a network, peers greet each other, tell each other their properties, and
-- wrap messages in frames (transport.rs), after they agree on keys that are written in Z85
-- (security.rs).
--
-- The files, with the code that each is about:
--   Base, Constants, Error: shared helpers; constants.rs; error.rs. Base.Maps stands for Rust's
--     hash maps, Base.Wire for big-endian numbers, Base.Utf8 for `String::from_utf8`, Base.Int
--     for `i32`. Numbers are natural numbers, with the wrap-around of `u64` and `usize` written
--     out.
--   Pipe: `YQueue`, `YPipe` and `Mailbox` of pipe.rs. A call takes the pipe and returns the new
--     one. Pipe.Bound is about the high water mark and termination, Pipe.Fifo about the order.
--   Message: `MessageData` and `Message` of message.rs. A mutable slice is modelled by the write
--     of one byte of it, `set_data`. Message.Payload is about the bytes, Message.Properties about
--     the metadata and the group.
--   Zmtp.Frame, Zmtp.Greeting, Zmtp.Metadata: `ZmtpFrame`, `ZmtpGreeting` and `ZmtpMetadata` of
--     transport.rs, each with a child RoundTrip.
--   Z85: `z85_encode`, `z85_decode`, `curve_keypair` and `curve_public` of security.rs. The
--     curve's multiplication and the random bytes are parameters. The loops over digits run five
--     times.
--   Subscriptions: `SubscriptionState` of context.rs. Subscriptions.Index says when its index is
--     right, Subscriptions.Preserved that every call keeps it so, Subscriptions.Matching and
--     Subscriptions.Counts what follows for lookups.
--   SocketType: `SocketType` and `can_send`, `can_recv` of socket.rs, and
--     `inproc_types_compatible` of context.rs.
--   Inproc: `InprocEndpoint` of context.rs. What the code shares by `Arc<Mutex<…>>` is a cell of
--     a `Heap`, named by a number, so that two holders of a queue see the same queue; an
--     operation takes a `World`, the heap with the endpoint, and returns the new one.
--     Inproc.Topics has the subscription changes that reach an XPUB binder, Inproc.Peers the
--     peers that come and go, Inproc.Dispatch the choice of receivers; their children have the
--     proofs.
--   Pattern: `PatternState` of socket.rs, with the checks that `send` and `recv` make before and
--     after a frame.
--   Context: the life of `Context`; Context.Options: `ContextOptions`, `set_option`, `get_option`
--     and their kin; Context.Registry: `bind_inproc`, `connect_inproc`, `unbind_inproc` and
--     `disconnect_inproc` of `ContextShared`. `connect_inproc` takes two locks one after the
--     other; `lookup` and `pend` are what it does under each of them.
--   Subscriber: `subscribe`, `unsubscribe`, `join` and `leave` of socket.rs, over the registry.
--     `subscribe_in` and `unsubscribe_in` are what the two do in the world of the endpoint that
--     the socket is connected to. Subscriber.Agreement is about one call, Subscriber.History
--     about any number of them.
--   Security: `SecurityOptions` of socket.rs, the choice of a mechanism and the checks of
--     clients.
--   SocketOptions: the other options of a socket, of socket.rs. The code's `match` on a number is
--     `option_named`, which finds the option of a code, then one clause for each option:
--     `accepts` has the guards of the arms and `store` their bodies. SocketOptions.Codes,
--     Setting, Getting, Bytes: the calls; ReadBack, BytesBack: what is read after a call;
--     Coherence: what any calls leave true.
--   Zap: `ZapRequest` and `ZapReply` of security.rs.
--   Handshake: what two peers say to each other over a stream before they exchange messages, in
--     socket.rs. A stream is the bytes that the peer sends before it closes, `read_exact` takes
--     the first of them, and what is written is a list of bytes. Handshake.Stream: reading and
--     writing frames; Handshake.Command: the bodies of commands; Handshake.Crypto: the boxes of
--     CURVE; Handshake.Session: `CurveSession`, which seals messages; Handshake.Authorize:
--     `authorize_plain`, `authorize_curve`, `authorize_gssapi` and their dialogues with a ZAP
--     handler; Handshake.Connection: what the two ends know; Handshake.Ready: the READY of a
--     peer; Handshake.Plain: the PLAIN mechanism; Handshake.Curve: CURVE, with the two ends in
--     Client and Server, and Drive for `write_curve_handshake_tcp`. The functions for IPC streams
--     are the same code with another type of stream.
--   Exchange: a socket with inproc endpoints, no network transport and no monitor, of socket.rs.
--     `Exchange` is the registry with the socket that is called. Exchange.Connection: `bind`,
--     `unbind`, `connect` and `disconnect`; Exchange.Send: `send` and `events`; Exchange.Recv:
--     `recv`. Exchange.Calls, Setup and Unbinding are about binding and connecting, Direct,
--     Request, Reply and Dialogue about a request and its reply, Polling about looks at the
--     events between messages.
-- A module Examples beside a component has the tests of the code and runs at small inputs.
--
-- Bounds and fuel. The loop that decodes properties runs on fuel, as many steps as the input has
-- bytes, which is enough since each step consumes a byte. The loop that skips frames up to the
-- READY of a peer runs on one unit more than the stream has bytes, and each frame takes at least
-- two. `to_string` writes at most ten digits, enough for an `i32`. All other loops are by
-- recursion on the data.
--
-- What is not modelled. A poisoned lock, which needs a panic of a thread that holds it: an
-- operation that can only fail so has no error result here. Memory that runs out. A peer that
-- keeps a connection open and sends nothing more, or sends without end, for which the code waits;
-- a frame length of 2^63 or more, on which it panics. The order of entries in a hash map, which
-- no modelled operation lets out. The handles of the TCP, IPC, UDP, WebSocket and NORM transports
-- in socket.rs, which are input and output; the handshake of GSSAPI, which needs a library that
-- is not in the repository, and the feature `sodium`. The cryptography of CURVE, its random
-- bytes, and what other threads do while a call waits for a ZAP handler are parameters, with
-- their documented laws as hypotheses. Of socket.rs also the monitor; of transport.rs the parsers
-- of endpoint addresses. The display texts of errors; the C interfaces of crates/libzmq-ffi and
-- crates/libzmq-sys, the wrapper crates/libzmq, and the programs of crates/libzmq-test-harness.
pub mod Base
pub mod Constants
pub mod Error
pub mod Pipe
pub mod Message
pub mod Zmtp
pub mod Z85
pub mod Subscriptions
pub mod SocketType
pub mod Inproc
pub mod Pattern
pub mod Context
pub mod Subscriber
pub mod Zap
pub mod Security
pub mod Handshake
pub mod Exchange
pub mod SocketOptions
