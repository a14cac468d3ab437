-- ===== src/Lib.antt =====
-- rmw_cyclonedds: the ROS 2 middleware over Eclipse Cyclone DDS, with its CDR serialization.
--
-- A ROS message is an object of C or C++ in memory, described by a tree of value types that the type
-- support builds. `CDRWriter` turns the object into the bytes that Cyclone DDS sends, `CDRReader`
-- turns such bytes into stores to an object, and both ask a cache of answers, the "trivially
-- serialized" cache, whether an object or a run of elements can be copied by one `memcpy`. The cache
-- is filled when a writer or a reader is made, from its root type.
--
-- The node layer, rmw_node.cpp, gives rmw's functions on top of Cyclone DDS. Modelled of it are: the
-- QoS profiles, the wait sets, events and their callbacks, taking messages, requests and responses.
-- What it asks of Cyclone DDS stands in records of operations and laws (`Dds`, `QosLibrary`, `Reader`)
-- or is an argument; every theorem holds for all of these, and the files in Runs have small ones.
--
-- Files and code (paths from the root of the repository):
--   TypeSupport                rmw_cyclonedds_cpp/src/TypeSupport2.hpp and TypeSupport2.cpp:
--                              `AnyValueType` is the class hierarchy under the class of that name,
--                              `Members` the `Member`s of a struct, `sizeof_type` the virtual function.
--   Memory                     the memory that messages stand in, bytewise.hpp's byte order.
--   Cursor                     the write cursors of Serialization.cpp: `WriteCursor` is what the
--                              templates ask of one, with an instance for each cursor and the laws
--                              `IsWriteCursor` on which the proofs about the writer stand.
--   TriviallySerialized        trivsercache.hpp. Dense: where objects have no padding, as a predicate.
--                              Compute: `compute_trivially_serialized`. Covers, Entries, Register,
--                              Lookup: what the constructor leaves in the cache.
--   Writer                     `CDRWriter`. Cdr: the CDR form as plain lists. Fast: objects that are copied.
--                              Put, Encode, TopLevel, Correct: the writer against the CDR form.
--                              Supported: the types that the writer can walk. Bound, OverReport:
--                              the size bounds.
--   Reader                     `CDRReader` and `DeserializeCursor`. Swap: the byte swaps. Stores,
--                              Cursors, Pieces, Decode, RoundTrip: `deserialize` on what the writer
--                              wrote. Within, Bounds: any input. ExtractKey: `extractkey`; Skip: what is
--                              no key. WideStrings: wide strings of a key.
--   Names                      `make_fqtopic` of rmw_cyclonedds_cpp/src/rmw_node.cpp and the topic and
--                              service names of demangle.cpp. Topics: there and back.
--   Events                     the statuses of rmw_cyclonedds_cpp/src/rmw_node.cpp, `mask_map`.
--                              Take, Taken: `rmw_take_event`.
--   Dds                        what the wait sets ask of Cyclone DDS: operations and laws.
--   WaitSet                    the wait sets of rmw_node.cpp, without Cyclone DDS. Wait: `rmw_wait`,
--                              `clean_waitset_caches`. Ready, Report: what the caller is told.
--                              Attached, Gather, Cache, Same, Invariant, Clean: what is attached. Busy:
--                              the flag `inuse`.
--   Qos                        the policies of rmw and Cyclone DDS, and what rmw_node.cpp asks of the
--                              libraries for them. Create: `create_readwrite_qos`, `dds_qos_to_rmw_qos`.
--                              Settings, RoundTrip, Fails: what is made, read back, and refused.
--   Callbacks                  `user_callback_data_t` of rmw_node.cpp, what reports to it and what sets
--                              a callback. Steps: sequences of both. Reported, Drained, Addressed,
--                              Delivered: what is reported, and to whom.
--   Taking                     `rmw_take_int` and `rmw_take_seq` of rmw_node.cpp over a reader's samples.
--   Services                   requests and responses of rmw_node.cpp: headers, the filter of a client,
--                              `get_matched_endpoints`, the wait for the reader of a response,
--                              `get_topic_name`, `rmw_service_server_is_available`.
--   Base                       lists and tests on native numbers, exceptions.
--   Runs                       an example type and message, and the theorems and code run on them.
--
-- Choices. `size_t` and `ptrdiff_t` are numbers modulo 2 ^ 64, `uint32_t` modulo 2 ^ 32; addresses
-- and the sizes of objects are exact numbers, as in any program whose objects fit in memory. The
-- sizes of primitive objects are those of a 64-bit Linux. The byte order of the machine is a
-- parameter. Types are compared by address in the source: the comparison is a parameter `same`, of
-- which the theorems ask that a type is the same as itself and that the same types are equal. A
-- cursor's buffer is the list of bytes written so far, its position is the length; a reader's store
-- is an entry of a log. Exceptions are values of `Result`. All recursion is on the value types, on a
-- count of elements or on a list, so only four loops of rmw_node.cpp have
-- fuel: those over dds_take, which end with the samples, the one of `get_matched_endpoints`, whose
-- buffer grows by 128 each time, and the one of `rmw_send_response`, which ends after 100 ms.
--
-- What the C++ and rosidl C libraries do inside strings, sequences and `std::vector<bool>` is not
-- defined here: reading them is a field of `Memory`, writing them an entry in the log of stores.
--
-- Not modelled: `print` of the reader, the construction of value types from introspection data,
-- serdata.cpp and the rest of rmw_node.cpp (contexts, nodes, publishers, subscriptions, graph queries,
-- the creation of wait sets, clients and services), which mostly call Cyclone DDS, the names of types
-- (type_name.cpp and the rest of demangle.cpp), u16string.cpp, and dynamic types, which call Cyclone
-- DDS only. In rmw_node.cpp the tests for null pointers and for the implementation's identifier,
-- with which most functions begin, and the tracepoints are left out.
pub mod Base
pub mod TypeSupport
pub mod Memory
pub mod Cursor
pub mod TriviallySerialized
pub mod Writer
pub mod Reader
pub mod Names
pub mod Events
pub mod Dds
pub mod Qos
pub mod Callbacks
pub mod Taking
pub mod Services
pub mod WaitSet
pub mod Runs
