-- ===== src/Lib.antt =====
-- The networking library of the server (svr/library/networking): bit-packed packets with a
-- checksum over UDP, the queues between the application and its socket, the sessions of the
-- server, and the logger (svr/library/commlib).
--
-- Parts and files. A packet is written by Network (Network.cpp) through a stream (Stream,
-- Serialize: Serialization.h) that packs bits into words (BitWriter, BitReader: BitWriter.h,
-- BitReader.h), with the width of an integer from Util/BitsRequired and the checksum from
-- Util/Crc (NetworkUtil.h, NetworkUtil.cpp). Serialize/Text has the strings and the other
-- composed macros. Packet has the packet classes, Packet/Serialize their Serialize functions,
-- Packet/Factory the factory (PacketFactory.h, PacketFactory.cpp, Packet.h). Processor
-- (PacketProcessor.cpp) owns the buffer that Network fills; SocketInterface
-- (SocketInterface.cpp) keeps the queues and counters between the application, the processor and
-- the socket; Socket (Socket.cpp) and Address (Address.cpp, its texts in Address/Text) wrap the
-- operating system. Server (Server.cpp) answers connection requests and keeps its sessions in
-- Session (Session.h, Session.cpp); Dict is the unordered_map of the latter. Util/Sequence,
-- Util/Signed, Util/Portable, Util/Template, Util/Bswap and Util/Clamp have the other arithmetic
-- of NetworkUtil.h, and Util/Hash the hashes of NetworkUtil.cpp. Stream/Check has
-- SerializeCheck, which uses them. Server/Main has the program that runs the server
-- (svr/service/first/first.cpp). Logger has the logger (commlib/logging.h and
-- commlib/logging.cpp): Logger/Level has the names of its levels, Logger/Rotate the rotation of
-- its file, Logger/Line the buffer of a line, Logger/Log logv, the macros and setFileName. All
-- paths without a directory are under svr/library/networking.
--
-- How the code is rendered. A function that the code runs for its effect takes its object and
-- gives the new one; `none` is a failed assert, an access outside a buffer, a shift by a
-- count outside 0 to 63, or a signed overflow, as that of the int that counts the bits of a
-- reader. Memory is a list of bytes, and a 32-bit word of it is little-endian (Memory). A
-- template over the stream takes a record of the stream's operations (Stream). Names are the
-- source's in snake case: WriteBits is `write_bits`, GetBytesProcessed is `bytes_processed`.
-- The getters of a single member are the fields of the records. Members that a constructor
-- leaves indeterminate are parameters (`Junk`), and so is the operating system: `Answers` for
-- the calls of the socket's constructor, `Os` for recvfrom and sendto. The object that is
-- passed as header of a packet is a pair of Serialize functions. The singleton factory and
-- session manager are arguments, and so is the level of the logger where it decides whether a
-- log line is evaluated. WritePackets and ReceivePacket read a queue entry through a
-- reference after they popped it, which is undefined: what they then read is the argument
-- `popped`, and a theorem of them that needs the memory to hold the entry still says so.
--
-- How the bits are seen. The words of a writer's buffer below its index and the scratch above
-- them are one number, the stream (BitWriter/Refines); what a reader has not yet read is the
-- number that the buffer writes down, divided by the bits read (BitReader/Refines). A field is a
-- codec (Stream/Codec): a number below a power of two that writing appends and reading takes
-- off. Codecs compose, so that the Serialize functions need no bit arithmetic of their own
-- (Packet/Codecs).
--
-- Fuel. The loops over a buffer, a queue or a prefix are structural. ReadPackets and
-- ReceivePackets loop for as long as the operating system has datagrams, and take fuel; more
-- fuel than there are datagrams is enough (SocketInterface/Reading, Server/Run).
--
-- What is asked of the operating system. recvfrom gives the waiting datagrams whole and in order
-- (Socket/Inbox), sendto hands each datagram on behind those before (SocketInterface/Writing),
-- and for the two sides together the network delivers what was sent (Link in
-- SocketInterface/Delivery).
--
-- The logger. Its calls give the new logger and the list of what they ask of the system; the
-- clock, the time zone and whether a call succeeds are the `Answers` of Logger. The text that
-- vsnprintf makes of a message is an argument. Threads that rotate at once are a sequence of
-- what each does from its exchange on.
--
-- Not modelled: the templates and macros of commlib beside the logger; the service's tests; the
-- lines that the server logs while it ticks, but for the assert on the sender in one of them; and the context pointers, which are only passed on.
pub mod Prelude
pub mod Bits
pub mod Memory
pub mod BitWriter
pub mod BitReader
pub mod Util
pub mod Stream
pub mod Serialize
pub mod Packet
pub mod Network
pub mod Address
pub mod Dict
pub mod Session
pub mod Socket
pub mod Processor
pub mod SocketInterface
pub mod Server
pub mod Logger
pub mod Examples
