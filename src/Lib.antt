-- ===== src/Lib.antt =====
-- VMS Engine: a video management engine that runs inference pipelines on camera streams. This
-- library models the parts of it that keep state and decide, function by function, and proves
-- what makes them correct. A call that holds a mutex is one step. What GStreamer, DeepStream's
-- surface library and the system clock answer is an argument.
--
-- Parts and files, by paths of the repository:
--   Evidence/Cache: pipeline/src/evidence/frame_evidence_cache.cpp. The cache of emitted frames,
--     from which evidence requests are answered: a record of two maps; `store_frame`, `resolve`,
--     `find_object`, `clear` and `prune_locked` are functions on it. Its children hold the
--     proofs: Prune (the pruning loop), Owned (the two maps agree), Nearest and Resolve (the answer
--     of a lookup), Fresh (the lifetime of frames), Store (a stored frame is found; the objects).
--   Evidence/Recent, Evidence/Output, Evidence/Requests:
--     pipeline/src/evidence/evidence_request_service.cpp. Recent is the ledger of references that
--     were encoded a short time ago (Tracked and Found hold its proofs), Output the file that a
--     reference stands for, Requests a job and its answer: Encode has the images, Process the way
--     from the lookup of the frame to the message, Kept what every call keeps, Complete how many
--     references an answer has, Pictures the pictures behind them (Steps the loops, Known the
--     references known before the frame is looked up, Answer the answer), Queue the worker thread and the calls on the service as events, with the
--     order of the jobs (Order), the end of the worker (Drain) and the invariants (Sound). The
--     service calls `resolve` and `find_object` of the cache, and the frame events share it.
--   Sources/Naming: pipeline/include/engine/pipeline/source_naming.hpp, names from camera ids.
--   Sources/Registry: pipeline/src/source_identity_registry.cpp, the names of running sources.
--   Sources/Slots, Sources/Streams: pipeline/src/runtime_stream_manager.cpp. Slots has the state of
--     the manager, its configuration, the source indexes and the switches of a slot's pad; Streams
--     has `add_stream_detailed` and `remove_stream_detailed`, cut into one function per stage.
--     Invariant and Preservation hold the bookkeeping, Atomic the failures, Undo the removal of
--     what was added, Limits the limit of active streams. The manager calls Registry for
--     the name of an index.
--   Sources/Health: the same file's handling of buffers and of stalled streams; its Shown holds the
--     proof that both keep the bookkeeping.
--   Probes/ClassIds: pipeline/src/probes/class_id_namespace_handler.cpp, class ids moved apart
--     before the tracker and back behind it.
--   Probes/SmartRecord: pipeline/src/probes/smart_record_probe_handler.cpp, recordings started by
--     detections: its Batch is the buffer callback and the end of a recording, Limit the number of
--     recordings at a time, Interval the time between two, Expiry the lost sessions.
--   Probes/FrameEvents: pipeline/src/probes/frame_events_probe_handler.cpp, the messages on what a
--     source shows. Signatures has the sorted texts that are compared (Order: their independence of
--     the order), Votes the majority vote on labels (Majority, Window), Emission the decision to
--     publish (Gap, Reasons, Quiet), Frames the objects, keys and references of a frame, its Buffer the
--     callback, and Published what it leaves in the frame cache. It calls Sources/Registry for the
--     name of a source and `store_frame` of Evidence/Cache.
--   Probes/Crops: pipeline/src/probes/crop_object_handler.cpp, when a crop of an object is taken and
--     when an object is forgotten: Tokens has the decision and its bucket, Stale the clean-up and
--     the keys, Publish the publication of one object, with the names of
--     its files in Paths, its steps in Object and the links between messages in Chain.
--   Ids: core/src/utils/uuid_v7_generator.cpp, the bytes of a UUIDv7 value and the wait for a new
--     millisecond; Increasing has the order of the values, Ends the end of the wait.
--   Validation: pipeline/src/config_validator.cpp, the checks of a configuration and their errors; its
--     Correct has what each check means, of one test, of a part and of the whole.
--   Common: Boolean tests, lists, byte strings, association lists with their laws, integers.
--
-- Integers: a number that cannot be negative in the code is a natural number, any other an integer
-- over the natural numbers. Casts, the indexes of sources and the clock's nanoseconds are written
-- with their width; a signed product that overflows, and the distance of a request's time from a
-- frame's, are written as wrapping. Other differences of the clock's millisecond times are unbounded. A loop on fuel writes the decimal digits of a number `n`, with
-- `n + 1` steps, more than it has digits. The wait of the UUIDv7 generator has its number of rounds as
-- an argument, since its end depends on the clock.
--
-- The worker's end is bounded by a number of its own steps, written in the statement.
--
-- The arithmetic of floats, the order in which an unordered map is visited and the text of a float
-- are parameters; a theorem that depends on that order takes as its hypothesis that an iteration
-- visits the entries of the map.
--
-- Not modelled: the making and linking of GStreamer elements, logging, the JSON of requests and of
-- published messages, the encoder of pictures, reference counts, the groups of parents and children
-- of the crop handler, the external processing, and the parts that read configuration, serve HTTP or
-- talk to message brokers. The seeding of the manager from running sources and its list of streams
-- are not modelled either.
mod Common
pub mod Evidence
pub mod Sources
pub mod Validation
pub mod Probes
pub mod Ids
