-- ===== src/Lib.antt =====
-- Totem turns one gRPC stream into a connection on which both ends can call each other. This
-- library models its core, in Go at the root of the repository, and proves what makes it correct.
--
-- The parts and the files that model them:
--   * Wire: the messages of totem.pb.go and extensions.pb.go and their getters. Status: status.go
--     and the errors that are passed about; grpc's status package is the record `StatusApi` of its
--     functions and their documented laws. Context: the metadata in a Go context.
--   * Metadata, Metadata/Validation: metadata.go and grpc_metadata.go. Method: the qualified names
--     of util.go and tracing.go and the lists of names in a `ServiceInfo`. Topology: the flags of
--     types.go.
--   * Handlers: `ServiceHandler`, `NewDefaultServiceHandler` and `ServiceHandlerList` of types.go and
--     `RegisterServiceHandler` of stream.go. A panic is a value of the type `Go` (Base/Go). The
--     comparison proto.Equal is a parameter.
--   * Controller: the state of `StreamController` of stream.go. Controller/Sending: `Request`,
--     `Reply`, `ReplyErr`, `StreamReply`, `Kick`. Controller/Receiving: the loop of `Run`, with one
--     event for each thing that the goroutines around it can do; a run is any list of events, so
--     what is proved of runs is proved of every interleaving. A Go channel is a record of what its
--     reader has taken, what is buffered and whether it is closed; a send on a full channel blocks.
--   * Controller/Dispatch: `handleRequest`. Its replies come back as a list, in order. Invokers
--     are parameters there, as are the bytes of the empty message.
--   * Controller/Starting: `NewStreamController`, which panics for a stream that has a receiver.
--     Controller/Draining: `CloseOrRecv`.
--   * Discovery: `ListServices`, and `discoverServices` of discovery.go. The
--     invokers and the encoding of protobuf are parameters.
--   * LocalStream: the server's stream of stream_wrapper.go, as actions of a handler on its state.
--     Invokers: both invokers of invokers.go. ClientStream: the caller's end of stream_wrapper.go.
--     Client: `ClientConn.invoke` of clientconn.go. What grpc's metadata package joins, how protobuf
--     encodes and the texts of errors are parameters.
--   * Receiver: `recvWrapper` of recv.go and the registry of streams. Server: server.go, with the
--     options and the registration in Server, `Splice` in Server/Splicing, in two parts around its
--     discovery, `Serve` in Server/Serving, one step for each of its goroutines and for the reader of
--     its channel of errors, and the order of these calls in Server/Setup.
--   * EndToEnd: two controllers joined by a stream, one of which makes calls while the workers of the
--     other handle them; a talk is any mixture of their replies with what happens at the caller's end.
--   * Examples: concrete runs, requests and networks, on which the theorems are applied.
--
-- How they interact: a request is issued under a new tag and a new channel (Sending); the message
-- that arrives at the other end is handed to a worker (Receiving), which looks the handlers up and
-- calls an invoker (Dispatch, Handlers); its replies arrive under the same tag and go to the channel
-- (Receiving). Discovery is a method called that way, which calls on other controllers. A server has
-- one controller for its own stream and one for each spliced stream; a splice gives each the handlers
-- by which it passes the calls for the other's services on (Server/Splicing, Server/Serving).
-- Controller/Receiving/CallSpec says what the callers see of all this, without tags and channels.
--
-- Numbers: a tag is a uint64 that wraps around, so two calls can have one tag after 2^64 calls; the
-- theorems on lost calls say so in their conditions. RemainingHops is the bit pattern of an int32.
-- No definition needs fuel: every loop is over a list, and the endless loop of `Run` is a run.
--
-- Not modelled: logs, spans and metrics; the worker pool and the transport, which are what the
-- events say of them; whether a call of `CloseOrRecv` returns, which in `Serve` is an event that comes
-- or does not; the lock of the server, since `Splice` and `register` run before `Serve` or wait for
-- its end; writes on a stream that is closed, the branches of stream_wrapper.go for raw messages, and
-- interceptors.
mod Base
pub mod Wire
pub mod Status
pub mod Metadata
pub mod Method
pub mod Topology
pub mod Handlers
pub mod Context
pub mod Controller
pub mod Discovery
pub mod LocalStream
pub mod Invokers
pub mod ClientStream
pub mod Client
pub mod Receiver
pub mod Server
pub mod EndToEnd
mod Examples
