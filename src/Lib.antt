-- ===== src/Lib.antt =====
-- EdgeDNS, an authoritative DNS server that answers from caches in memory-mapped files and falls
-- back to a database. This library models the parts that decide what is answered.
--
-- Records: the record cache, class Records::Mmap (include/Cache/MmapRecords.hpp and
-- src/Cache/MmapRecords.cpp). Records/State is its state: three arrays and the head of the free
-- list. An index of a signed type is a ℤ, and an access outside an array is the answer `none`.
-- Records/Hash has calculate_hash and calculate_id_hash, with 64-bit wrap-around, Records/Cells has
-- find_bucket, pop_free_slot and push_free_slot, Records/Init has init, and Records/Ops has
-- get_record, append_record, update_record, delete_record and delete_record_from_uuid. A function
-- that changes the cache answers with the changed cache. Records/Valid says when a cache is well
-- formed; Probe, Link, Push, Append, Remove, Delete, ById, Update, Fresh, Walk, Get, Capacity and
-- Lost hold the proofs. The search loop has the table's size as fuel, and the walks of a chain the
-- bound that the source gives them.
--
-- Groups: the IP group cache, class IpGroupEntry::Mmap (include/Cache/MmapIpGroup.hpp and
-- src/Cache/MmapIpGroup.cpp), which has the structure of the record cache with a group and a country
-- code for a name. Groups/State, Cells, Init, Ops and Deletion hold its operations, Probe and Update
-- the proofs. A character array is the list of its bytes, and a copy past its end is a fault.
--
-- Wire: the encodings of include/Utils/Vector.hpp, include/Utils/String.hpp and
-- src/Core/RData/RData.cpp. A string is the list of its bytes. Wire/Codec has the encoders and
-- wireToDomain, Wire/Parse the number and word parsing of the C++ library that they call, Wire/Ipv4
-- and Wire/RData the record data. Each loop has the length of its input as fuel, since every round
-- takes a byte; for wireToDomain, one more than the length. Labels, Names and Texts hold the proofs.
--
-- Core: the query handler, Core::handle of src/Core/Core.cpp. Core/Query reads the query, asks the
-- record cache and otherwise the database, and is the handler as a whole. Core/Answer is the answer
-- section with the address groups and the rate limit, Core/Respond the rest of the response. A
-- position in the buffer is what the buffer holds from there on, and a read behind it is `none`; the
-- loop over the name has the buffer's length as fuel, since every round takes a byte. The database,
-- the country lookup, the IP group cache and the clock are parameters, gathered in Core/State. Fits,
-- Sections, Count, Whole, Complete, All, Read, Octets, Hit and Jobs hold the proofs; Octets has the
-- bytes of a response without the functions of the code. Core/Write has write16 and
-- write32.
--
-- Geo: the groups of addresses that are kept in memory, src/DNS/Geo/Group.cpp and
-- include/DNS/Geo/IpGroup.hpp. Geo/State has the three maps, as functions, Geo/Ops the loading and the
-- reloads; the rows that the database answers are arguments, and `none` is a query that failed. Index,
-- Gap, Remove, Load, Reload and Version hold the proofs. Geo/Country has GeoDNS::getCountry of
-- src/DNS/Geo/GeoDNS.cpp, with the library's answer as an argument.
--
-- Sync: the handler of the sync connection in Core::worker of src/Core/Core.cpp, with
-- getParamFromCharBuffer of include/Utils/String.hpp. Sync/Params finds a parameter in the text,
-- Sync/Numbers has atoi, Sync/Request and Sync/Key the parameters of a request, Sync/Handler the
-- operations on both caches, Sync/Response the bytes of the answers. The parsing of a UUID, which is
-- the database driver's, is a parameter; a number that no int holds is a fault. Found, Safe, Refusals and Whole hold the proofs.
--
-- System: the table of versions, System::Mmap of src/Cache/MmapSystem.cpp. System/State has its
-- operations, where an access outside the array is `none`, and System/Table the finite map that it
-- implements.
--
-- Uring: the buffers that are lent to io_uring, src/Core/Uring/BufferPool.cpp (Uring/Pool), and the
-- queue entries of src/Core/Uring/Pipeline.cpp with the data by which Core::worker tells completions
-- apart (Uring/Pipeline). Memory, registration and the supply of queue entries are parameters, and a
-- failed assertion is `none`. The loop that lays out the groups has the number of buffers as fuel,
-- since each group has one, and the doubling loop has 64, the width of its number. Sizes, Setup,
-- Buffers, Held and Completions hold the proofs.
--
-- Queue: the cache writes that are queued and carried out by a thread, class Operational
-- (src/Core/Thread/Operational.cpp). Queue/State has the two queues, Queue/Worker a round of the
-- thread. Safe and Stored hold the proofs.
--
-- Main: the server as a whole. Main/Start has the start of the caches, from main of src/index.cpp, and
-- what the threads do to them as a relation of steps, in any order; Main/Sound holds the proofs.
--
-- Database: Database/Rows has DB::Record of src/Cassandra/Record.cpp, which makes answers of rows,
-- Database/Session the class Cassandra of src/Cassandra/Cassandra.cpp, and Database/Settings
-- src/DNS/Proxy/Proxy.cpp and src/Zone/Zone.cpp. The rows and values are arguments.
-- Database/Answers holds the proofs.
--
-- Loop: the thread that serves the clients, Core::worker of src/Core/Core.cpp. Loop/State has what
-- the thread keeps (Gen::Thread of include/Core/Gen/Gen.hpp, with the server's caches and queues,
-- the pool, and what it has submitted, given back and closed so far) and an event: a completion,
-- with what the calls that its handling makes answer, and with what is read at the pointer ip_str of
-- a connection over TCP, whose array has gone out of scope. Loop/Queries has a query in a thread, which is
-- Core::handle with the caches and queues, Loop/Events the handling of an event, one function per
-- branch, and Loop/Start how a thread begins. A failed assertion or a fault of a part that is called
-- is `none`. Steady says what the loop keeps, and Life is the relation of its events with the rounds
-- of the queues' worker, in any order. The other modules of Loop hold the proofs.
--
-- Not modelled: the calls of the database driver, of the country library and of the kernel, whose
-- answers are arguments; the first, warming read of the country file; the texts of the database
-- queries; what is printed; the making of threads, of which only their steps are modelled; and the
-- destructors. Of init the system calls are one Boolean, and what the file holds is an argument. Of
-- several threads at once only the order of whole operations is modelled: every operation is one
-- step.
--
-- Tests runs the operations on concrete data.
pub mod Prelude
pub mod Records
pub mod Groups
pub mod Wire
pub mod Core
pub mod Geo
pub mod Sync
pub mod System
pub mod Uring
pub mod Queue
pub mod Main
pub mod Database
pub mod Loop
pub mod Tests
