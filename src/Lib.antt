-- ===== src/Lib.antt =====
-- A model of muxio: many RPC streams over one byte transport.
--
-- The program has four layers, each of which works on the one below.
--
-- Frames (core/src/frame). `FrameStreamEncoder` cuts the bytes of one stream into frames with a
-- stream id, a sequence id and a kind; `FrameCodec` gives a frame its byte form;
-- `FrameMuxStreamDecoder` takes the bytes of a transport, finds the frames in them, and puts the
-- frames of each stream back in order.
--   Frame/Types      frame_kind.rs, frame_struct.rs, frame_error.rs, the constants of constants.rs
--   Frame/Codec      frame_codec.rs: encode, decode
--   Frame/Encoder    frame_stream_encoder.rs: new, write_bytes, flush, end_stream, cancel_stream
--   Frame/Decoder    frame_mux_stream_decoder.rs: read_bytes, of which accept, reassemble and
--                    release are the parts
--   Frame/Delivery   the encoder and the decoder together
--
-- RPC (core/src/rpc). A stream starts with a header. `RpcStreamEncoder` writes it;
-- `RpcStreamDecoder` turns the frames of a stream into a header, payload chunks and an end;
-- `RpcSession` keeps a stream decoder for each stream; `RpcRespondableSession` routes the events to
-- the handlers of responses; `RpcDispatcher` collects requests in a queue, calls and responds.
--   Rpc/Types, Rpc/IdSpace      the data types, utils/id_space.rs, utils/increment_u32_id.rs
--   Rpc/StreamEncoder, Rpc/StreamDecoder, Rpc/Session, Rpc/Respondable
--                               the files of rpc_internals that have these names
--   Rpc/Dispatcher              rpc_dispatcher.rs; Rpc/Dispatcher/Several has reads that hold
--                               several whole messages
--
-- Services (extensions). An endpoint has handlers by method id, a streaming handler answers by a
-- `StreamResponder`, and a caller collects the response of a call.
--   Service/ResultStatus, Service/Error   muxio-rpc-service/src
--   Service/Endpoint, Service/Responder   muxio-rpc-service-endpoint/src
--   Service/Endpoint/Reading              endpoint_interface.rs: decode_bytes, read_bytes
--   Service/Caller                        muxio-rpc-service-caller/src; Service/Caller/Calling has the
--                                         test of the connection, the call and its readiness
--   Service/Caller/DynamicChannel         dynamic_channel.rs of the same crate
--   Service/Call                          a prebuffered call, the caller and the endpoint together;
--                                         Service/Call/Sequence has calls one after the other,
--                                         Service/Call/Batch several that are made at once,
--                                         Service/Call/Client a client that reads by its endpoint
--   Service/Prebuffered                   prebuffered_traits.rs of muxio-rpc-service, prebuffered/traits.rs
--                                         and call_rpc_buffered of muxio-rpc-service-caller; its child
--                                         Methods has add.rs and mult.rs of
--                                         examples/example-muxio-rpc-service-definition
--   Service/Channel                       muxio-tokio-mpsc-adapter/src
--
-- Transports (extensions). A client or a server reads bytes, serves them by its endpoint, and where
-- the connection is lost reports that and fails the calls that are pending.
--   Transport/Link         the flag and the change handler that the clients keep
--   Transport/Program      the program's closures, and the reads of its endpoint
--   Transport/Source       what reads give, and the error that pending calls fail with
--   Transport/ReadLoop     muxio-rpc-service-endpoint/src/client_read_channel.rs
--   Transport/WriteLoop    muxio-rpc-service-caller/src/write_channel.rs, and the writer threads of
--                          the sync client and the sync server
--   Transport/Wasm         muxio-wasm-rpc-client/src/rpc_wasm_client.rs
--   Transport/StaticClient muxio-wasm-rpc-client/src/static_lib; Promises has the promises that the
--                          functions for JavaScript give, whose turns come in any order
--   Transport/Ws           muxio-tokio-rpc-client/src/rpc_client.rs
--   Transport/Ipc          muxio-tokio-rpc-ipc-client/src/rpc_ipc_client.rs
--   Transport/SyncClient   muxio-sync-rpc-client/src/rpc_sync_client.rs; Child has spawn and drop
--   Transport/SyncServer   muxio-sync-rpc-server/src/rpc_sync_server.rs; Setup has setup, start and
--                          join_reader
--   Transport/WsServer     muxio-tokio-rpc-server/src/rpc_server.rs: a connection
--   Transport/IpcServer    muxio-tokio-rpc-ipc-server/src/rpc_ipc_server.rs: a connection; Serving has
--                          the server with all of its connections and the loop that accepts them
-- A child module Life has a component's steps, as a relation where they interleave with those of
-- other tasks, and what holds of every state that they lead to. A task or a thread is a function on
-- what it reads where nothing comes in between. The handlers that an endpoint has are fixed while
-- its transport is modelled.
--
-- Conventions. A number is a native one, and a byte, a u32 or a u64 wraps by an explicit `%`;
-- arithmetic that overflows does so as in a release build, and usize is as wide as on 64 bits. A
-- method with `&mut self` takes the object and gives it back; one that may fail gives a `Result`
-- besides, one that may not return an `Option`. A callback on emitted bytes is the list of the
-- slices that were emitted. Handlers are values of a type that is a parameter, `invoke` runs one on
-- a state that the handlers share. The global id counter is a number that goes in and comes out.
-- HashMap and BTreeMap are association lists with a key once.
--
-- Fuel. The loop of `write_bytes` has a round more than the buffer has bytes, the loop of
-- `read_bytes` as many rounds as the buffer has bytes, the release loop as many as the stream's
-- buffer has entries: every round takes a byte, a frame of 13 bytes, or an entry. With a chunk
-- size of 0 a round of `write_bytes` takes nothing, and the program does not end.
--
-- Not modelled: locks and their poisoning, logging, the making of connections and the sockets, pipes
-- and child processes themselves, stdio, the binding of the servers' listeners, the HTTP router of the
-- WebSocket server, the bindings to JavaScript, and the macro that hashes method names. A bounded channel is the futures crate's: it is a parameter, which takes
-- an item where it has room and gives it back otherwise.
pub mod Prelude
pub mod Frame
pub mod Rpc
pub mod Service
pub mod Transport
