-- ===== src/Examples/Bindings.antt =====
-- Arrays that Python publishes from the pool of three buffers, and frames in device memory.
use axon_sdk_for_physical_ai.Common.{◌+◌, ◌-◌, ◌≤◌, ◌≡◌, refl, [], ◌∷◌, none, some, arith}
use axon_sdk_for_physical_ai.Types.{dtype_size, u16, f32, f64, accelerator, mul_dims}
use axon_sdk_for_physical_ai.Descriptor.{TensorDescriptor, descriptor_error, clear_descriptor}
use axon_sdk_for_physical_ai.Publisher.{
  TensorPublisher, AcquiredDescriptor, publish, acquire_descriptor,
}
use axon_sdk_for_physical_ai.Subscriber.{Reading}
use axon_sdk_for_physical_ai.Delivery.{IsAttachedTo}
use axon_sdk_for_physical_ai.Python.{numpy_dtype, cai_typestr}
use axon_sdk_for_physical_ai.Bytes.{Memory}
use axon_sdk_for_physical_ai.Python.Publish.{
  BufferInfo, publish_array, publish_device, publish_staged, nbytes, set_dims, stage_array,
  stage_device, is_rank, outcome, writable,
}
use axon_sdk_for_physical_ai.Python.Views.{PyView, py_latest_view}
use axon_sdk_for_physical_ai.Python.Arrays.{IsArray, elements}
use axon_sdk_for_physical_ai.Python.Devices.{
  view_bytes, text_size, order_of, cai_typestr-numpy_dtype,
}
use axon_sdk_for_physical_ai.Python.Overrun.{publish_array-view_bytes}
use axon_sdk_for_physical_ai.Python.Frames.{IsShown, publish_device-IsShown}
use axon_sdk_for_physical_ai.Examples.Pools.{pool, willing}
use axon_sdk_for_physical_ai.Examples.Publishers.{publisher}
use axon_sdk_for_physical_ai.Examples.Subscribers.{subscriber}

cai_typestr-numpy_dtype_example :
    (text_size (numpy_dtype f32) ≡ dtype_size f32)
    × (cai_typestr f32 ≡ order_of (dtype_size f32) ∷ numpy_dtype f32)
unfolding dtype_size
cai_typestr-numpy_dtype_example = cai_typestr-numpy_dtype f32 (omega arith)

-- The next buffer is the first, which is mapped on both sides.
abbrev py_publisher : TensorPublisher
py_publisher = record publisher { next_index = 3 }

-- 240 by 316 numbers of two bytes.
abbrev image : BufferInfo
image = record { ptr = 1000; itemsize = 2; size = 75840; shape = 240 ∷ 316 ∷ [] }

abbrev py_memory : Memory
py_memory a = a + 7

py_subscriber-IsAttachedTo : IsAttachedTo pool py_publisher subscriber
py_subscriber-IsAttachedTo = record {
  up = refl;
  host = refl;
  generation = refl;
  size = refl;
  views = refl;
}

abbrev py_reading : Reading
py_reading = record {
  notify = some 3;
  result = (publish_array 2 pool 70 image u16 py_publisher py_memory willing).0.1.0.slot;
  retries = 0;
  now = 90;
}

-- The consumer's mapping at 65536 shows the producer's at 4096.
abbrev py_seen : Memory
py_seen a =
    (publish_array 2 pool 70 image u16 py_publisher py_memory willing).0.1.1 (4096 + (a - 65536))

-- A buffer full of bytes, published as numbers of eight bytes.
abbrev byte_array : BufferInfo
byte_array = record { ptr = 1000; itemsize = 1; size = 153600; shape = 153600 ∷ [] }

byte_array-IsArray : IsArray byte_array
unfolding elements
byte_array-IsArray = record { narrow = refl; sized = refl; addressable = omega arith }

byte_array-taken :
    (publish_array 2 pool 70 byte_array f64 py_publisher py_memory willing).0.0 ≡ none
unfolding publish_array acquire_descriptor writable nbytes is_rank publish_staged publish outcome
    stage_array set_dims descriptor_error clear_descriptor dtype_size
byte_array-taken = refl

abbrev wide_reading : Reading
wide_reading = record py_reading {
  result = (publish_array 2 pool 70 byte_array f64 py_publisher py_memory willing).0.1.0.slot;
}

-- The consumer has mapped 153600 bytes, and is shown 1228800 of them.
publish_array-view_bytes_example :
    (v : PyView) × ((py_latest_view subscriber wide_reading).0 ≡ some v)
    × (v.array.start ≡ some 65536)
    × (view_bytes v.array ≡ 1228800)
    × (153600 ≤ subscriber.buffer_size)
unfolding dtype_size
publish_array-view_bytes_example =
    publish_array-view_bytes 2 pool 70 byte_array f64 py_publisher py_memory willing subscriber
      wide_reading 4096 65536 byte_array-IsArray py_subscriber-IsAttachedTo byte_array-taken refl
      refl refl

abbrev device_frame : AcquiredDescriptor
device_frame = record {
  buffer_index = some 0;
  host_view = none;
  accel_handle = record { opaque = 0; backend = accelerator; size_bytes = 153600 };
}

abbrev device_publisher : TensorPublisher
unfolding clear_descriptor
device_publisher = record publisher { staging = clear_descriptor }

device_frame-taken :
    (publish_device 2 pool 70 device_frame (64 ∷ 64 ∷ 3 ∷ []) f32 device_publisher willing).0.0
    ≡ none
unfolding publish_device is_rank publish_staged publish outcome stage_device set_dims
    descriptor_error clear_descriptor dtype_size mul_dims
device_frame-taken = refl

publish_device-IsShown_example :
    (d : TensorDescriptor) × ((publish_device 2 pool 70 device_frame
        (64 ∷ 64 ∷ 3 ∷ [])
        f32
        device_publisher
        willing).0.1.slot
      ≡ some d)
    × IsShown (64 ∷ 64 ∷ 3 ∷ []) f32 153600 d
unfolding clear_descriptor
publish_device-IsShown_example =
    publish_device-IsShown 2 pool 70 device_frame (64 ∷ 64 ∷ 3 ∷ []) f32 device_publisher willing
      refl device_frame-taken
