-- ===== src/Lib.antt =====
-- Axon moves camera and tensor frames between processes without copying them. A producer owns a pool of
-- shared buffers (src/pool.cpp) and a publisher (src/publisher.cpp). The publisher has two planes: the
-- sidecar (src/sidecar.cpp), a Unix socket on which the file descriptors of the buffers and of sync fences
-- travel, and the metadata channel (src/metadata_channel.cpp), one descriptor in shared memory behind a
-- seqlock, with a futex that wakes waiting consumers. A consumer has a subscriber (src/subscriber.cpp),
-- which maps the buffers and makes a view of the newest descriptor. Paths are from the repository's root.
--
-- Which file models what:
--   Types        include/axon/types.h: enumerations, element sizes, shapes
--   Descriptor   include/axon/tensor_descriptor.h and detail/descriptor_util.h: the descriptor and
--                descriptor_error, with exact unsigned 64-bit arithmetic
--   Os           the system as the code meets it: each call takes its reply from a function that is a
--                parameter of every theorem, so any call may fail at any point; descriptors that are
--                opened and closed, and the objects of the device libraries, are logged. Os/Ledger and
--                Os/Objects account for them
--   Pool         include/axon/pool.h and src/pool.cpp: the ring of slots; Pool/Alloc: allocation per
--                backend, free_all, create, retire_and_reallocate
--   Seqlock      publish and read_latest of SeqlockMetadataChannel, one shared access a step, as step
--                relations that interleave in any order
--   Notify       the wake-up protocol of publish and TensorSubscriber::wait_any, one atomic access or
--                futex call a step, with any number of consumers
--   Sidecar      SidecarServer: the cached bundle, the clients, what is sent; Sidecar/Client: SidecarClient,
--                with the messages that arrive as a parameter
--   Publisher    TensorPublisher; Publisher/Channel: how the metadata channel is created and attached to
--   Subscriber   TensorSubscriber: latest_view, has_update; Subscriber/Fences: the ring of sync fences;
--                Subscriber/Attach: detach and wait_handshake, and Subscriber/Devices: the same with CUDA and
--                Jetson support; Subscriber/Drain: poll_sync_fences and
--                drain_fences; Subscriber/Deadline and Subscriber/Wait: wait_any and wait_for_update as one
--                thread runs them
--   Rt           src/rt.cpp: the touching of pages; Rt/Latency: CpuLatencyHold; Rt/Setup:
--                rt_setup_memory_and_sched; Rt/Clock: rt_sleep_until_prewarmed;
--                Rt/Siblings: rt_core_siblings
--   Accel        src/accelerator_cuda.cpp: device buffers, and the pool's loops over them
--   NvBuffer     src/pool_nvbufsurface.cpp: surfaces, and the pool's loops over them (NvBuffer/Ring)
--   Iox          src/metadata_channel_iox2.cpp: the channel over iceoryx2, and the choice of a backend
--   Names        the names of sockets and of shared memory
--   Python       python/axon_py.cpp: Python/Publish: publish and publish_device; Python/Views: latest_view;
--                Python/Holds: what creates an object or raises, and CpuLatencyHold
--   Bridge       integrations/ros2_offload/.../axon_bridge.h: Producer and Consumer
--   Ros          integrations/: Ros/Images: the image transport of ros1_offload; Ros/Offload: the nodes that
--                count frames
--   Filter       examples/depth_filter: the frame filled in and checked
--   Bytes        bytes in the memory of a process
--   Delivery     a frame from publish to latest_view
--   Common       what the files share; Examples: theorems and runs at concrete inputs
--
-- The publisher calls the pool, the sidecar and the channel: its operations take the pool as it is at the
-- time of the call, hold the sidecar's state, and show a descriptor in the slot. Delivery takes what the
-- slot shows as the outcome of read_latest; Seqlock says when such an outcome is whole.
--
-- Bounds. Loops over buffers, clients and slots recurse on the list or the count. The blob of a handshake
-- has a round for each byte, which is enough as each send takes at least one; so have read_exact and
-- the discarding of a blob. poll_sync_fences meets as many messages as its fuel. accept_and_handshake goes
-- on while connections are pending; its fuel is the number of them that it meets, and a theorem that
-- mentions it holds for every number. The loops of wait_any, of rt_sleep_until_prewarmed and of
-- make_iceoryx2_subscriber run on fuel, and return none without it; theorems say how much is enough.
-- read_latest of the seqlock is a step relation with a budget.
--
-- Assumptions. Atomics are sequentially consistent. A call that the code repeats on EINTR stands for its
-- first other outcome. Page sizes are powers of two. Pools have fewer than 2^31 buffers. Builds of Pool have
-- neither CUDA nor Jetson support; Accel and NvBuffer are the parts that these add. An address that the
-- CUDA driver reserves is not null. A float is its bit pattern. Where bytes are followed, the memory that a
-- consumer has mapped shows what the producer's shows at its own mapping: a hypothesis of those theorems.
--
-- Not modelled: the glue of pybind11, such as the lifetimes that it keeps, and what the ROS nodes
-- only hand on to ROS; benchmarks, the other examples and instrumentation.
mod Common
pub mod Bytes
pub mod Types
pub mod Os
pub mod Descriptor
pub mod Pool
pub mod Seqlock
pub mod Notify
pub mod Sidecar
pub mod Publisher
pub mod Subscriber
pub mod Delivery
pub mod Rt
pub mod Accel
pub mod NvBuffer
pub mod Iox
pub mod Names
pub mod Bridge
pub mod Python
pub mod Ros
pub mod Filter
mod Examples
