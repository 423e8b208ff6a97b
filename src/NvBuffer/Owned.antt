-- ===== src/NvBuffer/Owned.antt =====
-- What a surface and its CUDA view hold, on every path.
use axon_sdk_for_physical_ai.Common.{
  ℕ, ◌+◌, ◌≡◌, subst, Bool, Option, none, some, arith, Option-cases, Bool-cases, inl, inr,
}
use axon_sdk_for_physical_ai.Os.{
  Os, Object, image, resource, device_query, device_take, device_return,
}
use axon_sdk_for_physical_ai.Os.Objects.{
  Settled, tally, given, one_if_same, device_take-Settled, device_return-Settled,
}
use axon_sdk_for_physical_ai.Accel.{accel_init}
use axon_sdk_for_physical_ai.Accel.Neutral.{accel_init-Neutral}
use axon_sdk_for_physical_ai.NvBuffer.{
  NvBuf, NvBufCuda, mapped_frame, register_image, nvbuf_cuda_map, return_image, nvbuf_cuda_unmap,
}

unfoldable pub image_option : Object → Option ℕ → ℕ
image_option o none = 0
image_option o (some surf) = one_if_same o (image surf)

-- The objects of a CUDA view of a buffer.
unfoldable pub view_owned : Object → NvBuf → NvBufCuda → ℕ
view_owned o b c = elim c.resource [
  | none ↦ 0
  | some res ↦ one_if_same o (resource res) + image_option o b.surf
]

unfoldable pub view_option : Object → NvBuf → Option NvBufCuda → ℕ
view_option o b none = 0
view_option o b (some c) = view_owned o b c

mapped_frame-Settled :
    (o : Object) (pitched : ℕ → Bool) (b : NvBuf) (surf res : ℕ) (s : Os) (h : ℕ)
    → b.surf ≡ some surf
    → Settled o s
        (h + one_if_same o (resource res) + one_if_same o (image surf))
        (mapped_frame pitched surf res s).1
        (h + view_option o b (mapped_frame pitched surf res s).0)
unfolding mapped_frame view_option view_owned image_option device_query device_return tally
mapped_frame-Settled o pitched b surf res s h e = ground (arith, e)

register_image-Settled :
    (o : Object) (pitched : ℕ → Bool) (b : NvBuf) (surf : ℕ) (s : Os) (h : ℕ)
    → b.surf ≡ some surf
    → Settled o s
        (h + one_if_same o (image surf))
        (register_image pitched surf s).1
        (h + view_option o b (register_image pitched surf s).0)
unfolding register_image view_option given
register_image-Settled o pitched b surf s h e =
    let r = device_take resource s in
    let took = device_take-Settled o resource s (h + one_if_same o (image surf)) in
    elim (Option-cases r.0) [
      | inl out ↦ ground (arith, out, took, device_return-Settled o (image surf) r.1 h)
      | inr (res, got) ↦
          ground (arith, got, took, mapped_frame-Settled o pitched b surf res r.1 h e)
    ]

image_taken : Object → ℕ → Option ℕ → ℕ
image_taken o surf none = 0
image_taken o surf (some n) = one_if_same o (image surf)

take_image-Settled :
    (o : Object) (surf : ℕ) (s : Os) (h : ℕ)
    → Settled o s h
        (device_take (λ n. image surf) s).1
        (h + image_taken o surf (device_take (λ n. image surf) s).0)
unfolding device_take tally image_taken
take_image-Settled o surf s h = ground arith

pub nvbuf_cuda_map-Settled :
    (o : Object) (pitched : ℕ → Bool) (b : NvBuf) (s : Os) (h : ℕ)
    → Settled o s h
        (nvbuf_cuda_map pitched b s).1
        (h + view_option o b (nvbuf_cuda_map pitched b s).0)
unfolding nvbuf_cuda_map view_option image_taken
nvbuf_cuda_map-Settled o pitched b s h =
    let i = accel_init s in
    let start = (accel_init-Neutral o 0 s).settled h in
    elim (Option-cases b.surf) [
      | inl e ↦ ground (arith, e)
      | inr (surf, e) ↦ elim (Bool-cases i.0) [
        | inr out ↦ ground (arith, e, out, start)
        | inl on ↦
            let t = device_take (λ n. image surf) i.1 in
            let took = take_image-Settled o surf i.1 h in
            elim (Option-cases t.0) [
              | inl none_left ↦ ground (arith, e, on, none_left, start, took)
              | inr (n, got) ↦
                  let step : register_image pitched surf t.1 ≡ nvbuf_cuda_map pitched b s =
                    ground (arith, e, on, got) in
                  subst (λ x. Settled o s h x.1 (h + view_option o b x.0)) step
                    (ground
                      (arith, got, start, took, register_image-Settled o pitched b surf t.1 h e))
            ]
      ]
    ]

return_image-Settled :
    (o : Object) (surf : Option ℕ) (s : Os) (h : ℕ)
    → Settled o s (h + image_option o surf) (return_image surf s).1 h
unfolding image_option
return_image-Settled o none s h = omega arith
return_image-Settled o (some surf) s h = device_return-Settled o (image surf) s h

pub nvbuf_cuda_unmap-Settled :
    (o : Object) (b : NvBuf) (c : NvBufCuda) (s : Os) (h : ℕ)
    → Settled o s (h + view_owned o b c) (nvbuf_cuda_unmap b c s).1 h
unfolding nvbuf_cuda_unmap view_owned
nvbuf_cuda_unmap-Settled o b c s h =
    let i = (accel_init s).1 in
    elim (Option-cases c.resource) [
      | inl e ↦ ground (arith, e)
      | inr (res, e) ↦
          let held = h + one_if_same o (resource res) + image_option o b.surf in
          let u = (device_return (resource res) i).1 in
          ground (
            arith,
            e,
            (accel_init-Neutral o 0 s).settled held,
            device_return-Settled o (resource res) i (h + image_option o b.surf),
            return_image-Settled o b.surf u h,
          )
    ]
