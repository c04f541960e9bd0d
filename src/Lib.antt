-- ===== src/Lib.antt =====
-- libOpenRTMP: an RTMP endpoint in C, with the AMF0 data that its commands are made of. A
-- connection keeps two ring buffers, one for the bytes that came from the network and one for
-- those that go to it, and two caches with the last header of each chunk stream. It first
-- exchanges a handshake of three messages in each direction, then receives and sends messages that
-- are cut into chunks, each behind a header that leaves out what the peer knows already. The
-- chunks of a message are collected by an assembler and passed to a stream, which calls the user's
-- callbacks by the type of the message; a command is read as an AMF object first. A stream sends
-- such objects, and the messages that control it, through its connection. A server finds an
-- application, a set of callbacks, by its name.
--
-- Base: the numbers, lists, machine words and bit operations that all parts share.
--
-- Util.Ringbuffer: src/util/ringbuffer.c. `Ring` is struct ringbuffer, whose block is a list of
--   bytes; a function of the same name without its prefix is a function of the file, and what it
--   changes in *buffer is in the ring that it returns. Inv has the invariant and the bytes held
--   (`contents`), which are the abstract view: a queue. Place and Write, Take and Read, Freeze and
--   Resize show what the operations do to it. Sizes stay at 2^62 or less, so that no sum of an
--   operation wraps.
-- Util.Algorithm: src/util/algorithm.c, for any comparison callback. The binary search runs on
--   fuel, the number of elements, which is enough since each round narrows the range.
-- Util.Memutil: src/util/memutil.c on a little-endian machine with 64-bit words. malloc, rand and
--   the clock are arguments.
-- Util.Parseurl: src/util/parseurl.c; a string is its bytes up to the 0. Parseurl has the
--   functions that find one part of a URL, which they cut off by a 0 byte; Parser the parser
--   around them, Text the text of a URL and the functions of the interface. `Parser` is struct
--   parseurl. A pointer of it is a `Part`: it is null, or it leads into `allocated` (`owned`), to
--   a text of the caller's (`borrowed`), which the model keeps, or to a block that was freed. To
--   read a freed block, or outside of a block, has no result. Which sizes malloc grants is an
--   argument. Proper says which parts make a URL; Find, Authority, Pieces, RoundTrip, Update,
--   Bounds, Accepted, Held, Defined and Stale have the proofs.
-- Amf: src/amf and include/openrtmp/amf. A `double` is its 64 bits. Shorthand has the macros of
--   amf_shorthand.h, with a description of the fields as a list; Encode and Decode have the
--   writers of amf0_encode.c and the readers of amf0_decode.c. What reads past its data is an
--   `Outcome` of its own. Value, Builder, Access, Write, Read and Simple are amf_object.c:
--   `AmfValue` is union amf_value and `Amf` is struct amf, whose string that is being filled is
--   its `allocation`. A pointer to the open object is a path, the last member on each level
--   (`in_open`). The vectors grow without failure; `malloc` is an argument that says which sizes
--   are given. The loop of amf_read runs on fuel, one more than the bytes of the data, which is
--   enough for the data that amf_write writes; `out_of_fuel` is told apart from every end of the
--   loop. Format is the data of the values that come back as they were; Write.Integers has the
--   doubles that integers are written as.
-- Rtmp.Errors, Rtmp.Message: rtmp_err_t of include/openrtmp/rtmp/rtmp_constants.h, and the structs
--   of include/openrtmp/rtmp/rtmp_chunk_cache.h and rtmp_private.h with their layout in memory.
-- Rtmp.Cache: src/rtmp/rtmp_chunk_cache.c. The entries of the first ten chunk streams are a list;
--   the dynamic array is the list of the bytes of its block, since the code moves it by bytes. A
--   pointer to an entry is a `Ref`, read by `load` and written by `store`.
-- Rtmp.Session: a state with failure. A failed step keeps what it had changed before, as the C
--   code does; freezing is what undoes it.
-- Rtmp.Flow: src/rtmp/rtmp_chunk_flow.c, on a ring, or on a ring and a cache (`Link`). Wire and
--   Link say what a step writes or reads as lists of bytes; Basic, Shake, Send, Receive, Header,
--   Agreement and Delivery use them for basic headers, handshake messages and whole headers.
-- Rtmp.Conn: src/rtmp/rtmp_chunk_conn.c. `Conn` is struct rtmp_chunk_conn with the history of
--   callback calls in it; a callback is a function of that history. Shake has the handshake, Send
--   the sending of messages, Receive the chunks and the control messages that arrive, Service the
--   loop around them; the modules below these have the proofs. What the system answers while a
--   handshake message is handled (time, memory, random numbers) is a `World`. The sending loop
--   runs on fuel, one more than the bytes that are left, of which each round writes at least one;
--   the service loop runs on fuel that is given to it.
-- Rtmp.Assembler: src/rtmp/rtmp_chunk_assembler.c. A pointer to a buffer is its index in the
--   vector, and the history of the calls of the callback is in the state. Bounds, Whole, Pieces,
--   Begin and Fresh have the proofs.
-- Rtmp.App: src/rtmp/rtmp_app.c. An application's pointer is its index in the list.
-- Rtmp.Stream: src/rtmp/rtmp_stream.c. Dispatch has what arrives, Send and Commands what is sent,
--   Delivery the proofs. A callback is a number, and what the callbacks answer is a function of
--   the history of their calls. `none` is what C leaves undefined. The loop over the results of
--   calls has a round for each entry.
--
-- Not modelled: freeing memory; callbacks that call the library again; clients and servers;
-- polling and sockets; the printing of AMF data and the logging that RTMP_GEN_ERROR does;
-- amf_dereference, which follows pointers into other objects; the setters of the bits of a number
-- on machines whose double is of another format. Big-endian machines are left out.
pub mod Base
pub mod Util
pub mod Amf
pub mod Rtmp
pub mod Tests
