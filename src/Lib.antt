-- ===== src/Lib.antt =====
-- Verification of the native library of tox4j.
--
-- The program is the JNI library under src/main/cpp. It has three layers.
--
--   - tox/core.h, tox/core_private.h and tox/core.cpp give a new Tox API on top of an old toxcore: a
--     new_Tox wraps an old Tox, keeps a table of file transfers, and turns the calls that toxcore makes
--     from inside tox_do into calls of the client's callbacks. Core models it: Enums, State (new_Tox and
--     its table), Handlers (new_Tox::CB), Iteration (new_tox_iteration), Files, Messages, Friends, Self,
--     Registration, Lifecycle, Setters and Versions, with the source's function names. Core.Transfers
--     gives the life of a transfer as a relation and relates all operations to it.
--   - tox4j/ToxInstances.h keeps a table of the instances that Java objects refer to by number, and
--     tox4j/with_instance.h and tox4j/ErrorHandling.h reach an instance and report an error code. Jni
--     models them: Instances, Calls, Exceptions and Errors. Jni.Instances takes each operation as one
--     step, since it holds the mutex of the table; Jni.Locks has the locks themselves, with the threads'
--     steps interleaved in any order.
--   - ToxCore/*.cpp are the native methods of im.tox.tox4j.ToxCoreImpl and the callbacks that collect
--     events for Java (protobuf/Core.proto). Jni.Events and Jni.Methods model them.
--
-- tox/av.h and tox/av.cpp are the same kind of layer for audio and video: a new_ToxAV keeps the calls by
-- friend and the friend of each call index. Av models it: Enums, State (the two maps and the old toxav,
-- AvApi), Handlers (new_ToxAV::CB), Client (the iteration and the functions of the client), Setters, and
-- Creation, where pointers to a new_Tox are addresses in a store, with new_tox_kill. The pointer to the
-- client's data is the user_data of the session. ToxAv/*.cpp are the native methods of
-- im.tox.tox4j.ToxAvImpl over a second table of instances, with their events (protobuf/Av.proto); Jni.Av
-- models them. toxAvNew runs on an instance of the first table and adds to the second; the address of the
-- new_Tox is its argument.
--
-- The code has no client of its own: Core.Files.Delivery adds one that answers each request for a chunk
-- of a file, and Core.Transfers.Histories, Av.Histories, Jni.Instances.History and
-- Jni.Methods.Served.Histories run the operations in any order.
--
-- Base has the shared types and lemmas: machine integers as bit patterns in ℕ, lists, std::map as a
-- sorted association list, code over a mutable state that may end the process (Effect), and function
-- bodies with early returns (Early). Tests has a small toxcore on which the theorems are tried.
--
-- Parameters. The old toxcore is the record Core.Api.ToxApi of the functions that the code calls, and the
-- old toxav is Av.State.AvApi; a tox_do or toxav_do is the tree of the calls that it makes (Activity,
-- AvActivity), so a theorem on an iteration holds for every sequence of them. What toxav does with the Tox
-- beneath it is not seen. The serialization of events is protobuf's and a parameter too. The memory that
-- the code never initialises, file_transfer::cause, is an argument.
--
-- Faults. An assert that fails, a call through a missing callback and an access through a null pointer
-- end the process; they are values of Effect.Fault. A theorem that starts from a call that returns says
-- so; the others give that it returns.
--
-- Loops are structural recursion, but for the loops over a uint8_t in Registration.for_bytes, which run
-- on fuel of 256 turns; a byte has 256 values, and the loops there end before.
--
-- Not modelled: new_tox_options_free, which only frees memory, the calls of toxav on a Tox that was closed
-- before its session (only the access by new_toxav_kill is in the model), the look-up of Java classes when an
-- exception is thrown, logging, the playground, the macros that rename tox_* to new_tox_*, and the code
-- in other languages.
pub mod Base
pub mod Core
pub mod Jni
pub mod Av
pub mod Tests
