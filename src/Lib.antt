-- ===== src/Lib.antt =====
-- p2pradio: a verification library for the radio over libp2p of this repository.
--
-- The program. A streamer reads an Ogg/Opus stream from Icecast through GStreamer (backend/mod.rs,
-- backend/icecast_ogg.rs), which gives RTP packets and titles; `process_url` sends these as messages to
-- the streamer's swarm (p2p/swarm.rs), which encodes (p2p/codec.rs) and publishes them over gossipsub.
-- A listener's swarm takes the messages that the streamer relayed, decodes them and sends them to the
-- bridge (`GossipBackendBridge` of rpc/mod.rs), which keeps the title and hands the packets to the
-- decoding backend (backend/ogg_dec.rs). GStreamer makes Ogg pages of them; the callback of its sink
-- caches the header pages and broadcasts every page. The HTTP server (rpc/mod.rs) sends a client the
-- cached headers and then the live pages, with ICY metadata if the client asked for it. node.rs and
-- utils.rs start the tasks of a node and watch over them. All paths are below src/.
--
-- The files, and the code that each is about:
--   Prelude    names of the standard library, tests on numbers, lists, `Result`
--   Text       Rust's `char`, `str` and UTF-8 (`from_utf8`, `len_utf8`, `is_control`), as defined by
--              the encoding; Text.Utf8 has its round trip
--   Errors     lib.rs, utils.rs: error types and join handlers; the errors of other crates are `Foreign`
--   Network    libp2p, as an interface; Network.Tables is a network that meets it
--   Channel    tokio's mpsc, broadcast and watch channels and flume's, as interfaces; Channel.Logs and
--              Channel.Queues meet them, Channel.Room is about a channel with a capacity
--   Codec      p2p/codec.rs: `Message`, `Metadata`, `encode`, `decode`; Codec.Wire has the wire format
--              as a type
--   Icy        rpc/mod.rs: `format_title`, `IcyEncoder`, and `strip_icy` of its tests
--   Ogg        backend/ogg_dec.rs: the `new_sample` callback with its header cache
--   Stream     rpc/mod.rs: `stream_handler` and `response_stream`, joined with the callback of Ogg
--   Swarm      p2p/swarm.rs: `message_id`, every event handler, the loops of both nodes and
--              the services around them; Swarm.Building has how the swarm is built
--   Bridge     rpc/mod.rs: `GossipBackendBridge`
--   Encoder    backend/mod.rs, backend/icecast_ogg.rs: `EncodingBackend`, `main_loop`,
--              `process_message` and the sink's callback
--   Decoder    backend/ogg_dec.rs, backend/mod.rs: `run_dec_stream`, `run_loop`, `process_bytes`,
--              `DecodingBackend::run`
--   Node       node.rs, rpc/mod.rs: how nodes and servers are made and how they end
--   Tasks      node.rs: a streamer's node and a listener's node while their tasks run, in any order,
--              with the channels of 100 places between them; Tasks.Titles adds the watch channel of
--              the title; Tasks.Radio, Tasks.Lossy, Tasks.Complete and Tasks.Shown have both nodes
--              and the network
--   Http       rpc/mod.rs: `StreamService` and the HTTP servers with their routers
--   Pipeline   backend/icecast_ogg.rs, backend/ogg_dec.rs, backend/mod.rs: the handlers that link pads
--              while the encoder plays; Pipeline.Making has how both pipelines are made
--   Rpc        rpc/info.rs, rpc/listener.rs, rpc/json.rs: the JSON-RPC methods and the error codes
--   Cli        cli.rs: the command line and the parser of socket addresses
--   Program    main.rs, node.rs: the program from its command line to its exit. Program.Stops tells how
--              the first task of a node may end
--   Radio      the chain from the encoder's message loop to the listener's decoder
-- The modules named Tests run the definitions on concrete data and apply each result to some.
--
-- How code becomes definitions. A struct is a record and an enum a data type, with the names of the
-- source in lower case. A function on `&mut self` takes the state and returns it. `?` on results is a
-- `do` block; a panic is `none`. An asynchronous loop around `select!` runs over the list of what its
-- `select!` takes, one entry for each ready branch, in any order; it returns no result while it still
-- runs. In Tasks a node's tasks interleave: a state is reached by steps, each one round of one task's
-- loop, in any order, and a round that has to wait for room in a channel is not a step; what a task has
-- taken and not yet sent is part of the state. How a node ends is not in Tasks but in Node and Program.
-- Logging is left out, but for what `main` logs at its end. A critical section is one step: `join` of
-- Stream reads the cache and subscribes at once, since the code holds the lock that the callback holds
-- while it publishes.
-- Numbers are natural numbers; where a value is cut to a byte (`as u8`, `to_be_bytes`) the cut is
-- written out. Bytes and characters are numbers.
--
-- Loops. `IcyEncoder::encode` runs on as much fuel as there are bytes of audio, since each round takes
-- one at least; `strip_icy` on as much as there are bytes on the wire, since each round takes at least
-- the length byte. Running out of fuel is `none`, and the results show that it does not happen.
--
-- What is not modelled: the inside of libp2p, tokio, axum, hyper, jsonrpsee and GStreamer, which are
-- interfaces or arguments; the properties of GStreamer's elements and the swarm's protocols; the
-- text of the metrics; clap, with the defaults of the command line; the signal handler, of which only
-- the token that it cancels is there; the task of `process_url` that goes on when the other has ended.
pub mod Prelude
pub mod Text
pub mod Errors
pub mod Network
pub mod Channel
pub mod Codec
pub mod Icy
pub mod Ogg
pub mod Stream
pub mod Swarm
pub mod Bridge
pub mod Encoder
pub mod Decoder
pub mod Node
pub mod Tasks
pub mod Http
pub mod Pipeline
pub mod Radio
pub mod Rpc
pub mod Cli
pub mod Program
