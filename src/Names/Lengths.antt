-- ===== src/Names/Lengths.antt =====
-- Which names are usable whole.
use axon_sdk_for_physical_ai.Common.{
  ℕ, zero, suc, ◌+◌, ◌≤◌, ◌≡◌, ◌↔◌, refl, ap, List, [], ◌∷◌, length, length-append, arith,
}
use axon_sdk_for_physical_ai.Names.{
  sanitize, socket_suffix, sidecar_socket_path, truncate, sun_path_room, socket_address,
}

length-sanitize : (s : List ℕ) → length (sanitize s) ≡ length s
unfolding sanitize
length-sanitize [] = refl
length-sanitize (c ∷ s) = ap suc (length-sanitize s)

truncate-all : (n : ℕ) (s : List ℕ) → length s ≤ n → truncate n s ≡ s
unfolding truncate
truncate-all zero [] le = refl
truncate-all zero (c ∷ s) le = absurd (omega (arith, le))
truncate-all (suc n) [] le = refl
truncate-all (suc n) (c ∷ s) le = ap (λ r. c ∷ r) (truncate-all n s (omega (arith, le)))

length-truncate : (n : ℕ) (s : List ℕ) → length (truncate n s) ≤ n
unfolding truncate
length-truncate zero s = omega arith
length-truncate (suc n) [] = omega arith
length-truncate (suc n) (c ∷ s) = omega (arith, length-truncate n s)

length-sidecar_socket_path : (name : List ℕ) → length (sidecar_socket_path name) ≡ length name + 15
unfolding sidecar_socket_path
length-sidecar_socket_path name =
    omega (arith, length-append (sanitize name) socket_suffix, length-sanitize name)

-- The address of a service's socket is the path that the server unlinks at the start and at the end exactly
-- if the service's name has at most 92 bytes; a longer one is cut off.
pub socket_address_iff :
    (name : List ℕ) → (socket_address name ≡ sidecar_socket_path name) ↔ (length name ≤ 92)
unfolding socket_address
socket_address_iff name = (
  λ same. omega (
    arith,
    length-sidecar_socket_path name,
    ap length same,
    length-truncate sun_path_room (sidecar_socket_path name),
  ),
  λ le.
      truncate-all sun_path_room (sidecar_socket_path name)
        (omega (arith, length-sidecar_socket_path name, le)),
)
