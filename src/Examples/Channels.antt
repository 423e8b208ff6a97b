-- ===== src/Examples/Channels.antt =====
-- Channels over a queue of two samples, and a service's names.
use axon_sdk_for_physical_ai.Common.{
  ℕ, ◌≤◌, ◌≡◌, ◌↔◌, refl, List, [], ◌∷◌, ◌++◌, map, length, true, false, some,
}
use axon_sdk_for_physical_ai.Descriptor.{TensorDescriptor, clear_descriptor}
use axon_sdk_for_physical_ai.Iox.{
  Received, sample, nothing, broken, cached, read_latest, new_channel,
}
use axon_sdk_for_physical_ai.Iox.Newest.{IsDrained, newest, reads, read_latest-newest}
use axon_sdk_for_physical_ai.Iox.Delivered.{publish_all, publish_all-read_latest}
use axon_sdk_for_physical_ai.Names.{sidecar_socket_path, socket_address}
use axon_sdk_for_physical_ai.Names.Lengths.{socket_address_iff}

abbrev frame : ℕ → TensorDescriptor
frame n = record clear_descriptor { seqno = n }

abbrev arriving : List Received
arriving = sample (frame 1) ∷ sample (frame 2) ∷ nothing ∷ broken ∷ sample (frame 3) ∷ []

read_latest-newest_example :
    let r = reads 1 (new_channel false true) arriving in
    let last = read_latest (r.0) (r.1) in
    (front : List Received) × (arriving ≡ front ++ last.1.1)
    × (last.0 ≡ newest (cached (new_channel false true)) front)
    × IsDrained front last.1.1
read_latest-newest_example = read_latest-newest 1 (new_channel false true) arriving refl

-- A queue that holds two samples and drops the older ones.
keep_two : List TensorDescriptor → TensorDescriptor → List TensorDescriptor
keep_two [] d = d ∷ []
keep_two (x ∷ []) d = x ∷ d ∷ []
keep_two (x ∷ y ∷ q) d = keep_two (y ∷ q) d

keep_two-newest :
    (q : List TensorDescriptor) (d : TensorDescriptor)
    → (kept : List TensorDescriptor) × (keep_two q d ≡ kept ++ d ∷ [])
unfolding keep_two
keep_two-newest [] d = ([], refl)
keep_two-newest (x ∷ []) d = (x ∷ [], refl)
keep_two-newest (x ∷ y ∷ q) d = keep_two-newest (y ∷ q) d

publish_all-read_latest_example :
    (read_latest (new_channel false true) (
      map sample (
        publish_all keep_two keep_two-newest
          (new_channel true false)
          []
          ((frame 1 ∷ frame 2 ∷ []) ++ frame 3 ∷ [])))).0
    ≡ some (frame 3)
publish_all-read_latest_example =
    publish_all-read_latest keep_two keep_two-newest (new_channel true false)
      (new_channel false true) [] (frame 1 ∷ frame 2 ∷ []) (frame 3) refl refl

-- "cam/0".
abbrev camera : List ℕ
camera = 99 ∷ 97 ∷ 109 ∷ 47 ∷ 48 ∷ []

socket_address_iff_example :
    (socket_address camera ≡ sidecar_socket_path camera) ↔ (length camera ≤ 92)
socket_address_iff_example = socket_address_iff camera
