-- ===== src/Lib.antt =====
-- hush-rs: a request protocol with encrypted sessions over QUIC and TCP.
--
-- The parts of the program, and where they are modelled:
--
-- * Tlv (src/tlv.rs): tagged values. Tlv.Value has the types; Tlv.Map the ordered map (`new`, `set`,
--   `get`, ...); Tlv.Varint `encode_varint` and `decode_varint`; Tlv.Encode `encode_into` and
--   `payload_bytes`; Tlv.Decode `decode_value`, in the parts `read_header`, `decode_scalar`,
--   `decode_items` and `decode_entries`.
-- * Session (src/session.rs): Session.Crypto is the interface to the cryptographic libraries, with a
--   toy instance; Session.Cipher has `derive_session_key`, `encrypt` and `decrypt`; Session.Store the
--   session store and the key store; Session.Handshake `negotiate_client` and `negotiate_server`;
--   Session.Keys what
--   is generated; Session.Store.View is the store as a quotient, which forgets the order of its
--   entries.
-- * Frame (src/frame.rs): Frame.Wire reads and writes frames; Frame.Body has status codes, requests
--   and responses, which carry a Tlv map and are encrypted by Session.Cipher.
-- * Media (src/media.rs): the store of media tokens.
-- * Middleware (src/middleware.rs, and the handler types of src/server.rs): handlers and what wraps
--   them.
-- * Server (src/server.rs): the table of handlers, and `handle_request_stream`, which answers one
--   request over QUIC. Server.Establish is the handshake that both kinds of connection start with;
--   Server.Tcp is `handle_tcp_connection`, with Server.Tcp.Conversation as its specification;
--   Server.Quic is `handle_connection`, whose streams Server.Quic.Answers sets against the same
--   specification; Server.Accept has the accept loops and the tasks that they
--   spawn, as a step relation; Server.Collect is `gc_loop`; Server.State is `Server` with its builder
--   methods and the media tokens; Server.FrameStream is what streaming handlers write to.
--   Server.Routes has what a program registers behind which middleware; Server.Gone is about sessions
--   that were collected; Server.Guarded is what middleware keeps from the handlers of a connection;
--   Server.Listen has `load_tls`, the listeners and what they log.
-- * Transport (src/transport.rs): dialling, binding and accepting. Transport.Libraries is the interface
--   to the networking libraries, Transport.Toy an instance.
-- * Client (src/client.rs): calls over QUIC and TCP (`do_quinn`, `do_tcp`); Client.Dial has `dial` and
--   `dial_tcp`, Client.Streams `do_`, `start_stream` and `open_bi_stream`.
-- * Hub (src/hub.rs): topics and their channels. Hub.Channel is the interface to the channels of
--   tokio, Hub.Toy an instance.
-- * Logger (src/logger.rs): the lines of the log.
-- * Examples (examples): Examples.Notes (examples/crud.rs), Examples.Chat (examples/chat.rs) and
--   Examples.Weather (examples/weather.rs) have the handlers, and what the clients read;
--   Examples.Notes.Client is a whole client, and Examples.Commands reads the command lines.
--
-- Base has the shared helpers, and Std what the code uses of Rust's standard library: words as bytes,
-- UTF-8, streams, keys that can be compared, and hash maps. Tests applies the theorems to concrete
-- inputs, and Tests.Repository has the unit tests of the sources.
--
-- Conventions. Numbers are natural numbers, and a sum or cast that wraps is written with its modulus.
-- A string is its bytes; a float its bit pattern; a `Duration` or an `Instant` its nanoseconds. What
-- the clock and the random generator give is an argument. A stream is a `Reader`, the bytes that will
-- still arrive and how the stream ends, and a `Writer`, the bytes sent and whether the peer takes
-- more. A handler acts on an arbitrary state, and may respond, fail or panic. Stores behind a lock
-- are values, and each operation on them is one step; but the look-ups of its session that the
-- handling of one request makes are one snapshot.
--
-- Fuel. `decode_value` recurses on slices of its input, so it takes fuel; `decode` gives it twice the
-- length of the buffer and one, which is enough since every value takes two bytes. The loop of
-- `encode_varint` recurses on the accessibility of the order on numbers. The loop over TCP takes one
-- more than the bytes that will arrive, which is enough since every request that is read takes some.
-- The loop of `gc_loop` is counted in ticks, and the accept loops in turns.
--
-- Assumptions. The cryptography is a record of operations; Session.Crypto.Assumed states what is
-- assumed of them: the key length that is accepted, that unsealing undoes sealing, the lengths of
-- tags, keys and points, and that both sides of a key exchange compute the same point. The toy
-- instance meets all of it. The channels of the hub are a record of operations too, with their
-- documented behaviour in IsBroadcast, which Hub.Toy meets. So are the networking libraries, of which
-- IsNet says only that the ALPN of a configuration is what it was last set to. What other tasks do to
-- the session store between the turns of a connection is an arbitrary function, and so is the weather
-- service.
--
-- Not modelled: of src/server.rs the lines that the tasks of connections log; the AsyncRead wrapper
-- of src/client.rs, which only passes calls on; and what the programs under examples print at their
-- start, and the lines that the chat reads.
pub mod Base
pub mod Std
pub mod Tlv
pub mod Session
pub mod Frame
pub mod Media
pub mod Middleware
pub mod Transport
pub mod Server
pub mod Client
pub mod Hub
pub mod Logger
pub mod Examples
mod Tests
