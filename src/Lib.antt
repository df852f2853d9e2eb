-- ===== src/Lib.antt =====
-- xmpp-httpx: HTTP requests and responses over XMPP stanzas.
--
-- The program carries an HTTP body over XMPP in one of several ways. A sender asks the encoding
-- selection how a body travels: inline in the stanza as text, XML or base64, or as a stream. A
-- streamed body may go as numbered chunk messages: the chunked sender cuts it into blocks, the
-- router of the receiving session hands each chunk to the reassembler of its stream, and the
-- reassembler puts the chunks into their order and makes a byte stream of them. Or it goes as an
-- in-band bytestream, whose blocks are acknowledged: a sender keeps a window of blocks in flight, a
-- scheduler shares the session's budget of blocks between the senders, and the receiver withholds
-- an acknowledgement while its consumer is behind. On the server a policy decides who may ask, and a
-- rate limit how often.
--
-- The files and the code they model:
--   Prelude        helpers on numbers, lists and predicates; no code of the program.
--   JsMap          the JavaScript Map, as the list of its entries in insertion order.
--   Errors         src/errors.ts: the error codes, their HTTP equivalents and fromXmppError.
--   Bytes          src/util/bytes.ts: BlockBuffer (push, take, drain), concatBytes, bytesFromStream
--                  and limitStream. A stream is the list of the chunks that it gives.
--   Base64         src/util/base64.ts: encodeBase64, decodeBase64, base64Length.
--   Session        src/session.ts: bareJid and jidDomain.
--   Chunked.Sender, Chunked.Reassembler, Chunked.Router
--                  src/transport/chunked.ts: ChunkedSender.send; ChunkReassembler with its push,
--                  abort, timer and cancel; ChunkRouter with acquire, release, expect, the stanza
--                  handler and the orphan buffer. Chunked.Delivery puts the first two together.
--   Ibb.Windows, Ibb.Inbound, Ibb.Scheduler, Ibb.Sender
--                  src/ibb/ibb.ts: the windows and the test for a redelivery; the receiving side of
--                  IbbManager; its session scheduler; the stream of createOutStream with its pump,
--                  write, close and abort. Ibb.Transfer puts the sender and the receiver together.
--   Select         src/transport/select.ts: selectEncoding, selectStream, canStream,
--                  resolveChunkSize, stanzaBudgets.
--   Limits         src/transport/limits.ts: the advertised limits of a stream and what follows.
--   RateLimit      src/server/rate-limit.ts: the token bucket, its map and the wrapped handler.
--   Policy         src/server/policy.ts: allowList, presencePolicy, manualPolicy.
--   Socks5         src/socks5/protocol.ts: the messages, built and parsed.
--   HopByHop       src/node/hop-by-hop.ts: the headers that a proxy does not forward.
--   Negotiate      src/server/negotiate.ts: parseAccept and negotiateContentType.
--
-- How the code is translated. State is a record, and an operation a function from the state to the
-- next; an event type and a step function stand for the callbacks of a class. A string is the list
-- of its character codes, bytes are a list of numbers. Time is a number of milliseconds that the
-- caller gives. Reassemblers that the router shares, and the streams that an in-band manager
-- receives, are objects in a heap, known by an address, so that two registrations of one object see
-- the same state. A method that awaits is cut there: each of its parts is a step, and any other
-- steps may come between. An error is its code. What throws is a result of a data type.
-- The limit of blocks of a session is taken not to change once streams are open, though the source
-- reads it anew. The rate limit counts its tokens in exact fractions, and the source in doubles.
-- The numbers are natural numbers, and a difference stops at 0: the source subtracts from a count
-- what was added to it before, or replaces a negative difference by a bound.
--
-- Fuel. The loop of the chunked sender takes a block from the buffer in each round, so the bytes
-- in the buffer plus one are enough. The loop of the reassembler takes a pending entry out in each
-- round, so their number plus one is enough. The pump of an in-band sender sends at least one byte
-- in each round but the last, so that one round more than there are bytes buffered is enough; a
-- grant that is given back returns only for an entry of the queue, so that the grants and the queue
-- together bound that loop. All other loops go along a list.
--
-- What is a parameter: the platform's UTF-8 encoder and decoder, its conversion of a text to a
-- number, the prompt of the manual policy, and which messages `session.send` accepts from the
-- chunked sender. What the XML library reads from a stanza is data.
--
-- What is not modelled: the teardown of a duplex in-band stream and what its sender calls it with,
-- Jingle, the sockets of SOCKS5, the stream publication, the server and the client around the parts
-- above, the codec, the discovery, the proxies but for their headers, and the command line. They
-- build and read XML trees, sockets and HTTP messages of other libraries around a state that is not
-- translated yet. The tests, the examples and the scripts are left out.
pub mod Base64
pub mod Bytes
pub mod Chunked
pub mod Errors
pub mod HopByHop
pub mod Ibb
pub mod JsMap
pub mod Limits
pub mod Negotiate
pub mod Policy
pub mod Prelude
pub mod RateLimit
pub mod Select
pub mod Session
pub mod Socks5
