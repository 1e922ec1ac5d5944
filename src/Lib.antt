-- ===== src/Lib.antt =====
-- conn: a C++ library for connections, message buffers and order books.
--
-- What the program is. The library under common/ has byte buffers and packets at the bottom (RingBuffer,
-- NotifierFd, Packet, CircularBuffer), trackers of sequence numbers above them (GapIdentifier, Sequencer),
-- and connections that are made from a URL by a factory and read into a ring buffer (Url, Connection and
-- its transports, ConnClient, ConnServer). The code under engine/ keeps order books by exchange and
-- symbol (engine/book) and the states of orders (engine/sm); it uses common/Utils.h to sort. Its program,
-- engine/book/main.cpp, loads a configuration of streams (ConfigBook) and hands each snapshot of a venue to
-- the streams that list the venue (Stream). common/Operators.h prints and reads containers. server.cpp,
-- server_single.cpp and server_runonce.cpp are servers of their own, which send back what they receive.
--
-- Which file models which part:
--   NotifierFd        common/NotifierFd.cpp
--   RingBuffer        common/RingBuffer.cpp; its children have the invariant (Inv), the refinement to a
--                     byte queue (Refine), runs of a reader and a writer (Run), loads that come between
--                     the steps of a reader (Race), and alloc and free (Alloc)
--   GapIdentifier     common/GapIdentifier.h; Queue is the abstract list of waiting packets, Refine and
--                     Arrive show that each operation is one on it, Run that any calls are, where the
--                     packets fit their slots, Promises says
--                     what the list operations do, and Overrun what a large packet does to a slot
--   Packet            common/Packet.cpp, with Strings, Arrays and whole messages (RoundTrip)
--   Sequencer         common/Sequencer.h
--   CircularBuffer    common/CircularBuffer.h
--   Url               common/Url.cpp; Lines and Options are about the loop over the options, RoundTrip
--                     about addresses in the documented form, Print about operator<< of
--                     common/Url.h, Types about the types that are read
--   Connection        common/Connection.cpp and the create functions of the transports; Reading has the
--                     handlers of reads (handle_connect, handle_read, async_read, handle_recv), Pending the
--                     operations that a connection has given to asio and their handlers, Client
--                     common/ConnClient.cpp and GWClient.h, Server common/ConnServer.cpp,
--                     ServerConnection.cpp and the create functions of the servers
--   EchoServer        server.cpp, whose clients share one array: Quiet is about clients that do not meet
--                     in it, Mixed about two that do; Single is server_single.cpp,
--                     and RunOnce server_runonce.cpp
--   Operators         common/Operators.h: pairs and containers as text; Streams is what is used of
--                     std::istream, Extract is about extractString, Insert about the containers, Items,
--                     Pair, Container and RoundTrip about what is read back
--   Utils             common/Utils.h: insertion_sort, next_power_2, less_than, trim
--   Timepoint         common/Timepoint.h, its times of FIX messages in Fraction and Formats, comparisons
--                     in Order
--   StateMachine      engine/sm/StateMachine.h
--   Exchange          engine/book/Exchange.h and ExchSymKey.h (Key)
--   Book              engine/book/Level.h, Book.h, AggBook.h, SymbolType.h (Symbol), and of Stream.h the
--                     merge of books (Merge), the integrations by price and size (Vertical), the book of
--                     full amounts and the tiers (Tiers), and onSnapshot as a whole (Snapshot)
--   Config            engine/book/ConfigBook.h: Commas is about its lists, Levels about the sorted sizes,
--                     Load about files, whole and broken
--   Registry          engine/book/main.cpp: which streams are given a snapshot
--   PriceCompare      engine/book/PriceCompare.h, with the comparisons of doubles of common/Utils.h
--   Common            shared names, lists and words over the native numbers, texts, arrays
--
-- How state is modelled. A class is a record, and a method a function from the record to its result and
-- the record that it leaves. Calls of clients and callbacks are lists of events in the state. A uint32_t
-- or uint64_t is a natural number, with every sum and difference taken modulo 2 ^ 32 or 2 ^ 64 as written
-- (add32, sub32, add64, sub64). The two mapped halves of a ring are one array of cells, reached modulo the
-- capacity. A text is the list of its bytes. Prices are an abstract type with a comparison, and in
-- PriceCompare natural numbers of a small unit; the size of a level is a natural number, since no book has a
-- negative one.
--
-- Bounds and fuel. The loops of GapIdentifier run for at most as many rounds as there are indices between
-- the read and the write index, and the loop of the options of a URL for at most one round more than there
-- are characters; what the loops do is stated for those numbers of rounds (Refine, Url.Options). The loop of
-- write_buffer and next_power_2 take a number of rounds and say with none that it was too small; so do the
-- readers of Operators, whose loops need not end. The loops over commas of
-- Config have one round more than there are characters (Config.Commas).
--
-- Arrays. A read or a store outside of an array, by mergeOrderBook and by the loops of onSnapshot over the
-- sizes, gives none. The memcpy of a packet into a slot
-- of GapIdentifier may run over m_obj; what it leaves in the number of the slot is an argument.
--
-- What is not modelled. The calls of the operating system and of Boost (asio, lexical_cast, property_tree,
-- MSM) are parameters: what they answer is an argument; and so is what an uninitialised variable holds.
-- Logging, locks, signals, the sockets themselves, handle_client of the TCP and Unix servers, which reads
-- into an array that is gone, the strategies, which are stubs, the other programs that
-- try out system calls, and the classes that do not compile (ReadWriteBuf, GWServer) are left out. The order in
-- which std::sort and the hashed containers leave what their comparison does not order is taken to be that
-- of insertion.
pub mod Book
pub mod CircularBuffer
pub mod Common
pub mod Config
pub mod Connection
pub mod EchoServer
pub mod Exchange
pub mod GapIdentifier
pub mod NotifierFd
pub mod Operators
pub mod Packet
pub mod PriceCompare
pub mod Registry
pub mod RingBuffer
pub mod Sequencer
pub mod StateMachine
pub mod Timepoint
pub mod Url
pub mod Utils
