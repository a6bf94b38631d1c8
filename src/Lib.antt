-- ===== src/Lib.antt =====
-- A model of the core of rsocket-js, the implementation of the RSocket protocol in TypeScript.
--
-- The program. Two peers exchange frames over a connection. packages/rsocket-core/src/Frames.ts says
-- what frames there are; Codecs.ts turns them into bytes and back, alone or with a length of three bytes
-- in front, as a stream transport needs it. A payload that is larger than the fragment size is cut by
-- Fragmenter.ts into a first frame and further PAYLOAD frames, and the receiving stream makes it up
-- again with Reassembler.ts. ClientServerMultiplexerDemultiplexer.ts hands the frames of a connection to
-- its streams and gives ids to new ones; the connection itself is, for one, the TcpDuplexConnection of
-- packages/rsocket-tcp-client, which passes on each frame as soon as its bytes are there. Deferred.ts
-- is what all that can be closed is built on.
--
-- The files.
-- Node: what the code uses of the language and of Node. A Buffer is the list of its bytes, a number
--   is a natural number or an integer ℤ, an error that is thrown is a value of Result. A write takes the
--   buffer and the offset and returns both (Writer). Node/Write and Node/Read hold the laws of writes
--   and reads, Node/Signed the arithmetic and `slice` on signed numbers.
-- Frames, Frames/Flags, Frames/Lengths: packages/rsocket-core/src/Frames.ts.
-- Codecs: packages/rsocket-core/src/Codecs.ts, the functions over all frames; Codecs/Numbers the numbers
--   of 24 and 64 bits, Codecs/Payload the header and the payload, Codecs/Connection and Codecs/Requests
--   the functions for each type of frame. Codecs/Layout describes the bytes of a frame independently
--   of the code, Codecs/RoundTrip reads them back, and Codecs/Framing is about buffers with many frames.
-- Reassembler: packages/rsocket-core/src/Reassembler.ts, and the type Payload of RSocket.ts.
-- Fragmenter: packages/rsocket-core/src/Fragmenter.ts. A generator is the sequence of what it yields
--   (Yields of Codecs). Fragmenter/Assembly is the receiver, which does with each frame what the
--   streams do with it.
-- Deferred: packages/rsocket-core/src/Deferred.ts; Deferred/Calls counts the calls of the callbacks.
-- Multiplexer: packages/rsocket-core/src/ClientServerMultiplexerDemultiplexer.ts, less its resumable
--   subclass. Whom `handle` calls is its result. Multiplexer/Registry finds streams, Multiplexer/Routing
--   is about frames, Multiplexer/Ids about the ids that are given out.
-- Errors: packages/rsocket-core/src/Errors.ts.
-- Streams: what the streams of the interactions have in common. A method of a stream is a function that
--   gives a Step: the stream after it, what it called of others on the way (Action), and how it ended.
--   Streams/Requester and Streams/Responder have the methods that the classes of RequestStreamStream.ts
--   and RequestResponseStream.ts share, word for word; Streams/Traces runs events one after the other and
--   watches what they do with a monitor; Streams/RequesterSafety and Streams/ResponderSafety are the
--   monitors and the events of the two sides, for any class that keeps the laws stated there.
-- RequestStream, RequestResponse: packages/rsocket-core/src/RequestStreamStream.ts and
--   RequestResponseStream.ts, what each has of its own. RequestStream/Delivery puts both sides together.
-- RequestFnf: packages/rsocket-core/src/RequestFnFStream.ts. RequestFnf/Once is about what may come to a
--   requester, RequestFnf/Received and RequestFnf/Handled put both sides together.
-- Resume: packages/rsocket-core/src/Resume.ts. Resume/Link is one direction between two peers, with the
--   frames on their way, and Resume/Delivery what it keeps.
-- Support: packages/rsocket-core/src/RSocketSupport.ts, its LeaseHandler (Support/Leases), KeepAliveHandler
--   and KeepAliveSender (Support/KeepAlive). Support/Leases/Fair and Support/KeepAlive/Notice let time go by.
-- Routing: packages/rsocket-composite-metadata/src/RoutingMetadata.ts.
-- Tcp: packages/rsocket-tcp-client/src/TcpDuplexConnection.ts, with what it is connected to as a
--   parameter (Surroundings); a frame that is handled may close the connection. Tcp/Consume takes the bytes frame by frame, Tcp/Chunks is about the chunks
--   in which they arrive, Tcp/Sending and Tcp/Delivery about the two ends.
-- Examples: small inputs, and the theorems applied to them.
--
-- Names. `readUInt24BE` is read_uint24, `serializeSetupFrame` is serialize_setup_frame, and so on. The field
-- `data` of frames and payloads is data_ref.
--
-- Parameters. The two directions of UTF-8, the bytes that fresh memory holds, and the global variable
-- `length`, which one function reads by mistake, are fields of Runtime.
--
-- Events. A method runs to its end before the next event: what an application calls from within a
-- receiver's method is taken to come behind the method that called it; the methods call receivers last, or
-- when the stream is done, so that calls of the stream do nothing. What a handler calls while it runs is
-- part of its run. The multiplexer gives an id to a stream once at most, passes on frames to connected
-- streams only. A stream that its connection closes stays connected; that no frame is passed on to a
-- requester behind the closing is a condition of its theorems, and RequestStream/BehindClose is about one
-- that is.
--
-- Fuel. deserializeFrames has one round more than the buffer has bytes, and every round but the last
-- moves by three bytes at least. The loops of the fragmenter take their fuel as an argument; one more
-- than the length of data and of metadata is enough for fragments of four bytes and more, and the streams
-- give one more than both lengths together. Yields has a constructor `stuck` for fuel that ran out, which
-- no run of the code has; an operation of a stream is then `endless`.
--
-- Not modelled: request channels, the handlers of RSocketSupport.ts that only pass calls on, the multiplexer
-- of resumable connections, the set-up of connections, the other composite metadata, messaging, and the
-- adapters and transports of the other packages.
pub mod Common
pub mod Node
pub mod Frames
pub mod Codecs
pub mod Reassembler
pub mod Fragmenter
pub mod Deferred
pub mod Errors
pub mod Routing
pub mod Streams
pub mod RequestStream
pub mod Resume
pub mod RequestFnf
pub mod RequestResponse
pub mod Multiplexer
pub mod Support
pub mod Tcp
pub mod Examples
