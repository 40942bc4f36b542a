-- ===== src/Lib.antt =====
-- Verification of wtquic, a WebTransport implementation over HTTP/3 and QUIC written in C.
--
-- The library has three layers. The codecs of src/proto read and write the bytes of the protocol
-- and keep no connection. The engine of src/engine drives one HTTP/3 connection with them and
-- calls back into the API of src/api; a backend under backends/ connects the engine to a QUIC
-- stack. This development is about the codecs, and about the part of the engine that opens, keeps
-- and ends the session of a connection.
--
-- Base holds what the modules share: names of the standard libraries, lists measured by native
-- numbers, Boolean tests, and the bit operations as arithmetic. Each module below stands for one C
-- file, with the C functions under their own names less the prefix (wtq_varint_dec_feed is
-- Varint.feed):
--   Proto/Varint     src/proto/varint.c       QUIC variable-length integers
--   Proto/Frame      src/proto/h3_frame.c     HTTP/3 frame headers, two varints
--   Proto/Preamble   src/proto/preamble.c     the prefix of a WebTransport stream
--   Proto/Capsule    src/proto/capsule.c      CLOSE and DRAIN capsules, framed like frames
--   Proto/Settings   src/proto/h3_settings.c  the SETTINGS payload, the choice of a profile
--   Proto/ErrMap     src/proto/errmap.c       application error codes on the wire
--   Proto/SfString   src/proto/sf_string.c    strings of structured fields
--   Proto/Qpack      src/proto/qpack_static.c  prefixed integers, field sections without a dynamic
--                    and qpack_tables.inc      table, and the static and Huffman tables
--   Proto/Connect    src/proto/connect.c       the header fields of the CONNECT exchange, on the
--                                              field sections and the structured-field strings
--   Engine/Conn      src/engine/conn.c         the life of a session on its connection
--
-- A component's module holds the definitions, its child modules the theorems, and its child Tests
-- runs of the code and instances of the theorems. A structure of the source is a record, an
-- enumeration a data type. A buffer with its length is the list of its bytes; what a function
-- writes is the list of the bytes written, and a status below OK comes without outputs (`Result`).
-- An incremental decoder is a function of its state and of a piece of input, which gives the next
-- state, the status with the outputs, and the count of bytes taken (`Fed`). Numbers are natural
-- numbers; where the source computes in `uint64_t`, `uint32_t` or `uint8_t` and the result may be
-- cut, the remainder is written out.
--
-- Loops over input are recursions on the list. Where a round takes several bytes the recursion is
-- on fuel, and the fuel is the length of the input, of which a round takes one byte at least: the
-- payload of a capsule, the settings of a payload, the parameters and the members of a field, the
-- lines of a field section. The loops over a prefixed integer shift seven bits away in a round, so
-- that ten rounds use up a `uint64_t`.
--
-- A connection of the engine is a record, each operation a function of it. Its children Exchange
-- and Capsules hold the CONNECT exchange and the established session, Events what the transport tells
-- of the client's CONNECT stream. Reach has a step relation of a client's connection from the sending
-- of its request on: those handlers, and for all others steps that change, open and release streams in
-- any way that makes none wait for a response. What the engine calls, the operations of the driver and
-- the callbacks of the application, is put on a log in the connection; the driver answers by any
-- function of the log. A callback that is absent is logged too. Callbacks do not call back into the
-- engine; what they would call is a later step. An operation that fails on a stream ends the
-- connection, which closes streams again: `conn_fatal` is on fuel, of which one is enough since the
-- connection is closed before its streams are. The loop over the capsules has one round of fuel for
-- each byte of the delivery and one more; out of fuel it has no result.
--
-- Not modelled: in the engine, the control stream but for GOAWAY, the sending of the request, the
-- walk over the frames of a request stream, the server's side of the exchange, WebTransport streams, datagrams and the stream budget; the
-- API and the backends, which connect other libraries; the answers to null pointers, and the
-- contents of an output that a failing call may have written in part.
pub mod Base
pub mod Engine
pub mod Proto
