-- ===== src/Names.antt =====
-- src/sidecar.cpp and src/metadata_channel.cpp: the names made from that of a service. A text is a list of
-- bytes, none of them 0.
pub mod Lengths
use axon_sdk_for_physical_ai.Common.{
  ℕ, zero, suc, ◌+◌, List, [], ◌∷◌, ◌++◌, map, Bool, if◌then◌else◌, ◌==◌, ◌||◌,
}

-- '/', ' ' and ':' become '_'.
unfoldable pub sanitize_char : ℕ → ℕ
sanitize_char c = if (c == 47) || (c == 32) || (c == 58) then 95 else c

-- `sanitize`.
unfoldable pub sanitize : List ℕ → List ℕ
sanitize [] = []
sanitize (c ∷ s) = sanitize_char c ∷ sanitize s

-- "/tmp/axon." and ".sock".
abbrev pub socket_prefix : List ℕ
socket_prefix = 47 ∷ 116 ∷ 109 ∷ 112 ∷ 47 ∷ 97 ∷ 120 ∷ 111 ∷ 110 ∷ 46 ∷ []

abbrev pub socket_suffix : List ℕ
socket_suffix = 46 ∷ 115 ∷ 111 ∷ 99 ∷ 107 ∷ []

unfoldable pub sidecar_socket_path : List ℕ → List ℕ
sidecar_socket_path name = socket_prefix ++ sanitize name ++ socket_suffix

-- "/axon.".
abbrev pub shm_prefix : List ℕ
shm_prefix = 47 ∷ 97 ∷ 120 ∷ 111 ∷ 110 ∷ 46 ∷ []

unfoldable pub metadata_shm_name : List ℕ → List ℕ
metadata_shm_name name = shm_prefix ++ sanitize name

-- `snprintf` keeps what fits before the byte 0.
unfoldable pub truncate : ℕ → List ℕ → List ℕ
truncate zero s = []
truncate (suc n) [] = []
truncate (suc n) (c ∷ s) = c ∷ truncate n s

-- What `sun_path`, an array of 108 bytes, holds before the byte 0.
abbrev pub sun_path_room : ℕ
sun_path_room = 107

-- The name that the server binds and the client connects to.
unfoldable pub socket_address : List ℕ → List ℕ
socket_address name = truncate sun_path_room (sidecar_socket_path name)
