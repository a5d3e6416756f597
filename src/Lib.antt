-- ===== src/Lib.antt =====
-- SRF, the streaming runtime framework: what its control code computes, and that it is correct.
--
-- A program defines segments with named ports (src/internal/segment/definition.cpp) and adds them to
-- a pipeline (src/internal/pipeline/pipeline.cpp), which finds segments by 16-bit ids. The ids are
-- hashes of names (src/public/core/addresses.cpp) and packed into the addresses of segment instances
-- and of their ports; a collision detector (src/internal/utils/collision_detector.cpp) refuses two
-- names with one hash. Managers and pipeline instances share one life cycle
-- (src/internal/service.cpp). Nodes read and write through channels (include/srf/channel). The cpus
-- that the engines run on are sets that are read from texts such as "0-3,8" and printed to them
-- (src/internal/utils/parse_ints.cpp, ranges.hpp, src/public/core/bitmap.cpp); the machine's are split
-- into partitions (src/internal/system/partitions.cpp), and a partition's are allotted to pools by
-- src/internal/system/engine_factory_cpu_sets.cpp, from which src/internal/runnable/engine_factory.cpp
-- takes the engines of each launch. A controller (src/internal/pipeline/controller.cpp) gives the
-- addresses of the segments that are to run to the pipeline instance (src/internal/pipeline/instance.cpp),
-- which creates and stops segments, each a service, and connects their ports through the manifold of
-- each port name (include/srf/manifold). A segment's builder (src/internal/segment/builder.cpp) holds its
-- nodes and ports; its instance (src/internal/segment/instance.cpp) launches, stops and kills
-- their runners. Objects that leave the process are encoded as lists of
-- descriptors (src/public/codable/encoded_object.cpp).
--
-- Files, and the code that each is about:
--   Base: what the parts share. Base/Outcomes is how a call ends and how state is passed on,
--     Base/Map is std::map as the list of its entries in the order of the keys, Base/Sets is
--     std::set, Base/Keys the comparison of keys, Base/Decimal std::to_string and its inverse,
--     Base/Bits packed bit fields, Base/Turns places that go round a list, Base/Lists and Base/Tests lists and Boolean tests.
--   Addresses: src/public/core/addresses.cpp; Addresses/Packing: encoding and decoding.
--   Names: src/internal/utils/collision_detector.cpp; Names/Registration: what registration ensures.
--   Segment: src/internal/segment/definition.cpp; Segment/Ports: when the ports are valid.
--   Pipeline: src/internal/pipeline/pipeline.cpp; Pipeline/Ports: the loops over port names;
--     Pipeline/Segments: the invariant of a pipeline, and finding what was added.
--   Service: src/internal/service.cpp; Service/Advance: the order of states and hooks;
--     Service/Join: joining and destruction.
--   Channel: include/srf/channel/status.hpp; Channel/Recent: recent_channel.hpp, with
--     Channel/Recent/Window for its contents and Channel/Recent/Deadline for timed reads.
--   ParseInts: src/internal/utils/parse_ints.cpp; ParseInts/Split: the tokens.
--   Ranges: src/internal/utils/ranges.hpp; Ranges/Runs: the runs of consecutive numbers;
--     Ranges/Parsing: that parse_ints reads what print_ranges prints.
--   Bitmap: src/public/core/bitmap.cpp; Bitmap/Interface: what it calls of hwloc, as a record of
--     operations and laws; Bitmap/Indexes: ascending lists; Bitmap/ListBits: an instance of the
--     interface; Bitmap/Taking: pop and split; Bitmap/Visits: for_each_bit, append and texts;
--     Bitmap/Turns: the round robin.
--   SharedBits: src/internal/utils/shared_resource_bit_map.cpp; SharedBits/Objects: its contents.
--   EngineGroups: include/srf/options/engine_groups.hpp and the counting of
--     src/internal/system/engine_factory_cpu_sets.cpp; Engines: the rest of the latter;
--     Engines/Counts: how many cpus are needed; Engines/Pools and Engines/Allotment: the pools.
--   Runner: src/public/runnable/runner.cpp; Runner/Progress and Runner/Completion: the completion
--     under every schedule; Runner/Status: what it is told.
--   Blocks: include/srf/memory/core/block_manager.hpp and memory_block.hpp; Blocks/Search: finding
--     the block of an address.
--   Scheduler: src/internal/system/fiber_priority_scheduler.hpp; Scheduler/Order: the order of its
--     ready queue.
--   Factories: src/internal/runnable/engine_factory.cpp, with src/internal/system/fiber_pool.cpp and
--     fiber_manager.cpp: which queues and cpus the engines of a launch get; Factories/Cycle: queues
--     in turn; Factories/Dedicated: queues and cpus of one launch only.
--   Encoded: src/public/codable/encoded_object.cpp and include/srf/codable/encoded_object.hpp;
--     Encoded/Reading: what was added is read back; Encoded/Sound: what each call keeps;
--     Encoded/Objects: whole encodings, and calls without a context.
--   Manifold: include/srf/manifold, composite_manifold.hpp, ingress.hpp, egress.hpp and
--     load_balancer.hpp; Manifold/RoundRobin: the balancer's turns; Manifold/Updates: the updates of
--     the connections.
--   Instances: src/internal/pipeline/instance.cpp, src/internal/segment/instance.cpp and the ports of
--     include/srf/segment; Instances/Attaching, Wiring and Turns: the loops over the ports of a new
--     segment; Instances/Creation: the segment as a whole; Instances/Loops: loops over segments;
--     Instances/Joining: the wait for all segments; Instances/Starting and Resuming: the update of an
--     instance, which starts its segments; Instances/Consistency and Settling: the manifolds while a
--     segment is created; Instances/Readiness: an instance between two updates.
--   Builder: src/internal/segment/builder.cpp, with include/srf/segment/builder.hpp and object.hpp;
--     Builder/Owners: what its names stand for; Builder/Ends: its edges;
--     Builder/Sound: what an initializer keeps;
--     Builder/Ports: the names of its ports.
--   SegmentService: the hooks of src/internal/segment/instance.cpp, over the runners of the nodes and
--     ports; SegmentService/Runners: the maps of runners; Preparing and Starting: the launch;
--     Reactions and Sparing: the runners of a killed segment; Killing: failures; Joining: the wait; Fresh: a segment that was just created.
--   Controller: src/internal/pipeline/controller.cpp; Controller/Stopping: a segment that is stopped
--     and stays; Controller/Refusing: its start; Controller/Removal: updates that take a segment
--     away; Controller/Creating and Growth: updates that only add segments.
--   Partitions: src/internal/system/partitions.cpp; Partitions/Cores: the shares of the cores;
--     Partitions/Devices: the choice of gpus and of the strategy; Partitions/Forming: the loops that
--     fill the partitions, with Forming/Erasing for the gpus that remain, Forming/Assigning for a
--     turn, Forming/Filling for the loops and Forming/Whole for the result.
--   Tags: src/internal/data_plane/tags.hpp; Tags/Fields: the fields of a tag; Tags/Sending: tags of
--     data for a port.
--   Edges: src/public/node/edge_registry.cpp; Edges/Converters: the registry as a partial function.
--   Runnable: src/public/runnable/runnable.cpp and context.cpp, and what runner.cpp asks of them;
--     Runnable/Climbing: its states; Runnable/Failure: exceptions, and the wait for the instances.
--   The Tests modules hold small runs.
--
-- The functions of the models have the names of the code's. A member function takes the object as its
-- last argument and gives back its outcome and the object after it: `ok` with the value, `throws` with
-- the exception (changes made before the throw are kept), `fatal` for a failed CHECK or LOG(FATAL).
-- Logging and the checks of debug builds (DCHECK) are left out: this is the release build. Texts are
-- lists of bytes. A call that holds its object's mutex throughout is one step.
-- So is a call of a Service, which releases its mutex before the hook: the calls of one service follow
-- one another, but for the joins of a segment in SegmentService, whose beginning and end are two events.
-- The fibers of a balancer share one thread, and give way to each other at a write. The tasks that a
-- Runner launches share their runner: they are steps, taken in the order of a schedule. A w-bit unsigned
-- operation has its wrap-around written out.
--
-- Bounds. Base/Decimal prints with 20 digits at most, enough for 64 bits. The outer loop of
-- find_ranges has one round for each number of the list, since a round takes at least one. A timed
-- read runs over the list of what the evaluations of its condition observe. parse_ints answers
-- `none` where the code does not return. RoundRobinCpuSet::next calls itself once at most on a set
-- that is not empty, so 2 calls are enough; the same holds of the do-while loop for the shared cpus.
-- The hwloc calls are taken to find memory, so they do not fail.
--
-- The index of a descriptor is written to 32 bits in the protocol: an object has fewer descriptors.
--
-- Parameters. How the hooks of a service end in Service and Instances, and how the construction of a
-- segment's builder ends there (both run the author's code; SegmentService and Builder have what they do),
-- how LaunchControl prepares a launcher, what hwloc says of the topology, whether a write to a channel
-- succeeds, the order of a shuffled pick list, the block that a memory resource gives, protobuf's
-- packing of messages, and the overlap of cpu sets are
-- arguments of the definitions that use them. The type of a port's data is a number. A call that is
-- enqueued on a task queue and awaited at once is a call.
--
-- Not modelled: the control plane, the data plane but for its tags, and ucx (gRPC and network calls), memory
-- resources, cuda, metrics, the Python bindings, and the templates that connect node types.
pub mod Base
pub mod Addresses
pub mod Names
pub mod Segment
pub mod Pipeline
pub mod Service
pub mod Channel
pub mod ParseInts
pub mod Ranges
pub mod Bitmap
pub mod SharedBits
pub mod EngineGroups
pub mod Engines
pub mod Runner
pub mod Blocks
pub mod Scheduler
pub mod Factories
pub mod Encoded
pub mod Manifold
pub mod Instances
pub mod Controller
pub mod Partitions
pub mod Edges
pub mod Runnable
pub mod Builder
pub mod SegmentService
pub mod Tags
