-- ===== src/Lib.antt =====
-- wruster: an HTTP server and client in Rust, and a model of its core.
--
-- A connection's bytes are read into a request, the path of the request is normalised and looked up
-- in a router, the handler's response is written back, and the rest of the request's body is read
-- away before the next request. A client writes a request, reads a response and keeps its
-- connections in a pool. A server runs each connection on a pool of threads. Strings are the bytes
-- that they hold, in lists of native numbers.
--
-- Files and the code they model:
--   Base, Base/Tests, Base/Lists, Base/Text    numbers, lists and strings
--   Base/Decimal     what the code uses of usize::to_string and str::parse
--   Base/Utf8        String::from_utf8_lossy, str::trim_end, str::to_lowercase
--   Router/Trie      wruster/src/router/trie.rs: Trie, Node. Children is the vector of 256 options.
--                    Width, Lookup and Prefix hold its theorems.
--   Router/Routes    wruster/src/router/mod.rs: Router, MethodHandlers. Spec is the list of routes
--                    that a router stands for, and Refine that the router answers as that list. Order
--                    is about lists of the same routes.
--   Router/Normalize wruster/src/router/mod.rs: Normalize for PathBuf. Resolve is an independent
--                    description by a stack of names; Buffer and Laws relate the two.
--   Http/Method, Http/Status, Http/Version, Http/Chars, Http/Error
--                    wruster/src/http/mod.rs, status.rs, version.rs and errors.rs
--   Http/Io          what the messages use of std::io: a reader holds the bytes to come and how it
--                    ends, a writer what it took and what its next calls will do
--   Http/Header, Http/Headers   wruster/src/http/headers.rs
--   Http/RequestLine, Http/Body, Http/Request, Http/ResponseLine, Http/Response
--                    wruster/src/http/mod.rs: read_from, write and the constructors of each
--   Client/ConnectionPool       wruster/src/http/client/connection_pool.rs: Pool. Expiry is the pool with
--                    the thread that expires its resources, as the relations Prompt and Step
--   ThreadPool/Static           wruster/src/thread_pool/static_pool.rs: Static::new and Static::run.
--                    Threads is the pool with the threads of its workers, as the relation Step.
--   ThreadPool/Dynamic          wruster/src/thread_pool/dynamic_pool.rs: Dynamic, with the moves of
--                    the workers' threads as the relation Turn and those of the pool as Step. Dropping
--                    is the drop of the pool.
--   ThreadPool/Pool             wruster/src/thread_pool/mod.rs: Pool::new and Pool::run
--   Server/Conversation         wruster/src/lib.rs: run_action, handle_connection, handle_conversation,
--                    handle_busy. Dispatch, Answer, InOrder, Refusals and Terminates hold its
--                    theorems.
--   Server/Lifecycle            wruster/src/lib.rs: Server::start, shutdown and wait
--   Server/Accepting            wruster/src/lib.rs: Server::accept_connections, as the turns
--                    of its thread, which are the relation Accepts with the moves of the others.
--                    Handles, Loop and Stopping hold its theorems; Builders is what run and run_tls
--                    give it to make streams with.
--   Client/Run       wruster/src/http/client/mod.rs: Client::run and what is done when a response or a
--                    client is dropped. Served is a client that talks to a server.
--   Handlers         wruster_handlers/src/lib.rs: serve_static
--   Programs/Wrustatic, Programs/Wrusdummy
--                    wrustatic/src/main.rs and wrusdummy/src/main.rs: the routes of the programs,
--                    and main in the module Main of each. Programs/HelloWorld is
--                    wruster/examples/hello_world.rs.
--   Streams/Base                wruster/src/streams/mod.rs: BaseStream
--   Streams/Timeout             wruster/src/streams/timeout_stream.rs: TimeoutStream, Operation
--   Streams/Observed            wruster/src/streams/observable.rs: ObservedStreamList, with what
--                    happens to the handles of its streams as the relation Step
--   Streams/Cancellable         wruster/src/streams/cancellable_stream.rs: read_int, write_int. New is how
--                    one is made from a BaseStream and a poller.
--   Streams/Tls                 wruster/src/streams/tls/mod.rs: read_from of Certificate, PrivateKey.
--                    Session is tls::Stream.
--   Streams/Wrapped             observable.rs: the stream the server reads from, a TimeoutStream of
--                    an observed CancellableStream
--   Tests            runs at small inputs, and the theorems applied at them
--
-- State is passed on: an operation returns the changed trie, router, pool, reader or writer. Errors,
-- panics and loops that do not end are values of Result in Http/Error. In `Http.Headers.read_from
-- lines fuel`, `lines` counts the rounds of the loop that reads one line and `fuel` the rounds of the
-- loop over the headers; the round trips say how much is enough. A round of Static::run is one try
-- of a worker, and as many as there are tries is enough. A round of handle_conversation is one
-- request; the theorem on its end says how many are enough. A round of write_int is one wait of the
-- poller.
--
-- Parameters: a stream with its clock (record Streams.Timeout.Stream), the poller and the stream of a
-- connection (record Streams.Cancellable.Device), files and their pem format (record Streams.Tls.Pem),
-- rustls, polling and serde_yaml (records Rustls, Polling and Yaml),
-- the crate mime (record Mime), a copy through a BufWriter (record BufWriter), the type of the
-- handlers, what the reader of each round of a conversation is given and whether its flush succeeds,
-- what try_send finds at a worker, and the instants of the clock.
-- A hash map is an association list, whose order stands for the order of iteration.
--
-- Not modelled: sockets and what the operating system and other machines do with them, locks
-- that a panic has poisoned, logging, and the parsing of command lines.
pub mod Base
pub mod Programs
pub mod Router
pub mod Handlers
pub mod Server
pub mod Streams
pub mod Http
pub mod ThreadPool
pub mod Client
mod Tests
