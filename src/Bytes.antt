-- ===== src/Bytes.antt =====
-- Bytes in the memory of a process.
use axon_sdk_for_physical_ai.Common.{
  ℕ, zero, suc, ◌+◌, ◌-◌, ◌*◌, ◌/◌, ◌%◌, ◌<◌, ◌^◌, ◌≡◌, refl, ap, ◌∙◌, List, [], ◌∷◌, length,
  get_or, if◌then◌else◌, ltb, leb, ◌&&◌, arith,
}

-- A byte for each address.
abbrev pub Memory : Type 0
Memory = ℕ → ℕ

-- `memcpy` of the bytes of a vector to an address.
unfoldable pub write_bytes : ℕ → List ℕ → Memory → Memory
write_bytes to bytes mem a =
    if leb to a && ltb a (to + length bytes) then get_or bytes (a - to) 0 else mem a

-- `memcpy` of `n` bytes at an address to a vector.
unfoldable pub read_bytes : Memory → ℕ → ℕ → List ℕ
read_bytes mem from zero = []
read_bytes mem from (suc n) = mem from ∷ read_bytes mem (from + 1) n

-- The first bytes of a vector.
unfoldable pub take : ℕ → List ℕ → List ℕ
take zero bytes = []
take (suc n) [] = []
take (suc n) (b ∷ bytes) = b ∷ take n bytes

-- The bytes of a number, the lowest first.
unfoldable pub number_bytes : ℕ → ℕ → List ℕ
number_bytes zero n = []
number_bytes (suc k) n = n % 256 ∷ number_bytes k (n / 256)

unfoldable pub bytes_number : List ℕ → ℕ
bytes_number [] = 0
bytes_number (b ∷ bytes) = b + 256 * bytes_number bytes

pub length-read_bytes : (mem : Memory) (from n : ℕ) → length (read_bytes mem from n) ≡ n
unfolding read_bytes
length-read_bytes mem from zero = refl
length-read_bytes mem from (suc n) = ap suc (length-read_bytes mem (from + 1) n)

pub take-all : (bytes : List ℕ) → take (length bytes) bytes ≡ bytes
unfolding take
take-all [] = refl
take-all (b ∷ bytes) = ap (◌∷◌ b) (take-all bytes)

pub write_bytes-at :
    (to j : ℕ) (bytes : List ℕ) (mem : Memory)
    → j < length bytes
    → write_bytes to bytes mem (to + j) ≡ get_or bytes j 0
unfolding write_bytes
write_bytes-at to j bytes mem lt =
    let back : to + j - to ≡ j = omega arith in ground (arith, lt, ap (λ x. get_or bytes x 0) back)

-- A memory that shows the bytes from an address on reads them back.
pub read_bytes-shown :
    (mem : Memory) (from : ℕ) (bytes : List ℕ)
    → ((j : ℕ) → j < length bytes → mem (from + j) ≡ get_or bytes j 0)
    → read_bytes mem from (length bytes) ≡ bytes
unfolding read_bytes
read_bytes-shown mem from [] same = refl
read_bytes-shown mem from (b ∷ bytes) same =
    let here : mem from ≡ b = ap mem (omega arith) ∙ same 0 (omega arith) in
    let rest : read_bytes mem (from + 1) (length bytes) ≡ bytes =
      read_bytes-shown mem (from + 1) bytes
        (λ j lt. ap mem (omega arith) ∙ same (suc j) (omega arith)) in
    rw (here, rest) refl

pub length-number_bytes : (k n : ℕ) → length (number_bytes k n) ≡ k
unfolding number_bytes
length-number_bytes zero n = refl
length-number_bytes (suc k) n = ap suc (length-number_bytes k (n / 256))

pub bytes_number-number_bytes : (k n : ℕ) → n < 256 ^ k → bytes_number (number_bytes k n) ≡ n
unfolding bytes_number number_bytes
bytes_number-number_bytes zero n lt = omega arith
bytes_number-number_bytes (suc k) n lt =
    omega (arith, bytes_number-number_bytes k (n / 256) (omega arith))
