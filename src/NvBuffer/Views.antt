-- ===== src/NvBuffer/Views.antt =====
-- src/pool.cpp: the views of a pool of surfaces, as `device_ptr` maps them.
use axon_sdk_for_physical_ai.Common.{
  ℕ, zero, suc, ◌+◌, ◌<◌, ◌≡◌, refl, ap, ◌∙◌, subst, List, [], ◌∷◌, Bool, true, false, none, some,
  length, get_or, get_elem?, set, length-set, ◌==◌, ◌&&◌, not, arith, Bool-cases, Option-cases, inl,
  inr,
}
use axon_sdk_for_physical_ai.Os.{Os, Object, M, ◌>>=◌, pure, device_query, device_take}
use axon_sdk_for_physical_ai.Os.Ledger.{Balanced}
use axon_sdk_for_physical_ai.Os.Objects.{Settled}
use axon_sdk_for_physical_ai.NvBuffer.{
  NvBuf, NvBufCuda, no_cuda, nvbuf_cuda_map, register_image, mapped_frame,
}
use axon_sdk_for_physical_ai.NvBuffer.Owned.{view_owned, view_option, nvbuf_cuda_map-Settled}
use axon_sdk_for_physical_ai.NvBuffer.Imports.{nvbuf_cuda_map-Balanced}
use axon_sdk_for_physical_ai.NvBuffer.Ring.{NvRing, lazy_view, nv_device_ptr}

-- The views of buffers, as far as they have one.
unfoldable pub views_owned : Object → List NvBuf → List NvBufCuda → ℕ
views_owned o [] cs = 0
views_owned o (b ∷ bs) [] = 0
views_owned o (b ∷ bs) (c ∷ cs) = view_owned o b c + views_owned o bs cs

-- A view without a pointer has no resource.
unfoldable pub IsTight : NvBufCuda → Type 0
IsTight c = c.device_ptr ≡ 0 → c.resource ≡ none

nvbuf_cuda_map-IsTight :
    (pitched : ℕ → Bool) (b : NvBuf) (s : Os) (d : NvBufCuda)
    → pitched 0 ≡ false
    → (nvbuf_cuda_map pitched b s).0 ≡ some d
    → IsTight d
unfolding nvbuf_cuda_map register_image mapped_frame IsTight device_query device_take
nvbuf_cuda_map-IsTight pitched b s d null e z = absurd (ground (arith, null, e, z))

-- A view that is asked for holds what it held, or what has been taken for it.
record Asked (o : Object) (b : NvBuf) (c : NvBufCuda) (s : Os) (d : NvBufCuda) (t : Os)
    : Type 0 where
  settled : (h : ℕ) → Settled o s (h + view_owned o b c) t (h + view_owned o b d)
  balanced : (a h : ℕ) → Balanced a s h t h
  tight : IsTight d

lazy_view-Asked :
    (o : Object) (pitched : ℕ → Bool) (b : NvBuf) (c : NvBufCuda) (s : Os)
    → pitched 0 ≡ false
    → IsTight c
    → Asked o b c s (lazy_view pitched b c s).0 (lazy_view pitched b c s).1
unfolding lazy_view view_owned view_option IsTight
lazy_view-Asked o pitched b c s null tight =
    elim (Bool-cases ((c.device_ptr == 0) && not c.failed)) [
      | inr kept ↦
          let step : (c, s) ≡ lazy_view pitched b c s = ground (arith, kept) in
          subst (λ x. Asked o b c s x.0 x.1) step
            (record { settled = λ h. refl; balanced = λ a h. refl; tight = tight })
      | inl ask ↦
          let r = nvbuf_cuda_map pitched b s in
          let mapped = nvbuf_cuda_map-Settled o pitched b s in
          let without : c.resource ≡ none = tight (ground (arith, ask)) in
          let empty : view_owned o b c ≡ 0 = ground (arith, without) in
          elim (Option-cases r.0) [
            | inl e ↦
                let step : (record c { failed = true }, r.1) ≡ lazy_view pitched b c s =
                  ground (arith, ask, e) in
                subst (λ x. Asked o b c s x.0 x.1) step
                  (record {
                    settled = λ h. ground (arith, e, mapped h, empty, without);
                    balanced = λ a h. nvbuf_cuda_map-Balanced a pitched b s h;
                    tight = tight;
                  })
            | inr (d, e) ↦
                let step : (d, r.1) ≡ lazy_view pitched b c s = ground (arith, ask, e) in
                subst (λ x. Asked o b c s x.0 x.1) step
                  (record {
                    settled = λ h. ground (arith, e, mapped h, empty);
                    balanced = λ a h. nvbuf_cuda_map-Balanced a pitched b s h;
                    tight = nvbuf_cuda_map-IsTight pitched b s d null e;
                  })
          ]
    ]

views_owned-set :
    (o : Object) (bs : List NvBuf) (cs : List NvBufCuda) (i : ℕ) (b : NvBuf) (d : NvBufCuda)
    → get_elem? bs i ≡ some b
    → i < length cs
    → views_owned o bs (set cs i d) + view_owned o b (get_or cs i no_cuda)
      ≡ views_owned o bs cs + view_owned o b d
unfolding views_owned
views_owned-set o [] cs i b d e lt = absurd (ground (arith, e))
views_owned-set o (x ∷ bs) [] i b d e lt = elim lt [ ]
views_owned-set o (x ∷ bs) (c ∷ cs) zero b d e lt =
    let same : x ≡ b = ap (λ y. elim y [ none ↦ x | some z ↦ z ]) e in
    omega (arith, ap (λ y. view_owned o y c) same, ap (λ y. view_owned o y d) same)
views_owned-set o (x ∷ bs) (c ∷ cs) (suc i) b d e lt =
    omega (arith, views_owned-set o bs cs i b d e (omega arith))

get_elem?-lt : (bs : List NvBuf) (i : ℕ) (b : NvBuf) → get_elem? bs i ≡ some b → i < length bs
get_elem?-lt [] i b e = absurd (ground (arith, e))
get_elem?-lt (x ∷ bs) zero b e = omega arith
get_elem?-lt (x ∷ bs) (suc i) b e = omega (arith, get_elem?-lt bs i b e)

-- What a pool of surfaces keeps: a view for each buffer, each tight.
pub record IsRing (r : NvRing) : Type 0 where
  pub each : length r.views ≡ length r.buffers
  pub tight : (i : ℕ) → IsTight (get_or r.views i no_cuda)

set-IsTight :
    (cs : List NvBufCuda) (i j : ℕ) (d : NvBufCuda)
    → IsTight d
    → ((k : ℕ) → IsTight (get_or cs k no_cuda))
    → IsTight (get_or (set cs i d) j no_cuda)
set-IsTight [] i j d h all = all j
set-IsTight (c ∷ cs) zero zero d h all = h
set-IsTight (c ∷ cs) zero (suc j) d h all = all (suc j)
set-IsTight (c ∷ cs) (suc i) zero d h all = all 0
set-IsTight (c ∷ cs) (suc i) (suc j) d h all = set-IsTight cs i j d h (λ k. all (suc k))

-- The accounts of a use of the pool.
pub record IsUsed (o : Object) (r : NvRing) (s : Os) (r' : NvRing) (t : Os) : Type 0 where
  pub buffers : r'.buffers ≡ r.buffers
  pub ring : IsRing r'
  pub settled :
      (h : ℕ)
      → Settled o s (h + views_owned o r.buffers r.views) t (h + views_owned o r.buffers r'.views)
  pub balanced : (a h : ℕ) → Balanced a s h t h

nv_device_ptr-IsUsed :
    (o : Object) (pitched : ℕ → Bool) (i : ℕ) (r : NvRing) (s : Os)
    → pitched 0 ≡ false
    → IsRing r
    → IsUsed o r s (nv_device_ptr pitched i r s).0.1 (nv_device_ptr pitched i r s).1
unfolding nv_device_ptr
nv_device_ptr-IsUsed o pitched i r s null ok =
    let same : IsUsed o r s r s = record {
      buffers = refl;
      ring = ok;
      settled = λ h. refl;
      balanced = λ a h. refl;
    } in
    elim (Option-cases (get_elem? r.buffers i)) [
      | inl out ↦
          let step : ((0, r), s) ≡ nv_device_ptr pitched i r s = ground (arith, out) in
          subst (λ x. IsUsed o r s x.0.1 x.1) step same
      | inr (b, at) ↦ elim (Option-cases b.surf) [
        | inl out ↦
            let step : ((0, r), s) ≡ nv_device_ptr pitched i r s = ground (arith, at, out) in
            subst (λ x. IsUsed o r s x.0.1 x.1) step same
        | inr (surf, there) ↦
            let c = get_or r.views i no_cuda in
            let l = lazy_view pitched b c s in
            let asked = lazy_view-Asked o pitched b c s null (ok.tight i) in
            let q : NvRing = record r { views = set r.views i l.0 } in
            let step : ((l.0.device_ptr, q), l.1) ≡ nv_device_ptr pitched i r s =
              ground (arith, at, there) in
            let lt : i < length r.views = omega (arith, ok.each, get_elem?-lt r.buffers i b at) in
            let swap = views_owned-set o r.buffers r.views i b l.0 at lt in
            subst (λ x. IsUsed o r s x.0.1 x.1) step
              (record {
                buffers = refl;
                ring = record {
                  each = length-set r.views i l.0 ∙ ok.each;
                  tight = λ j. set-IsTight r.views i j l.0 asked.tight ok.tight;
                };
                settled = λ h. omega (arith, swap, asked.settled h);
                balanced = asked.balanced;
              })
      ]
    ]

-- Calls of `device_ptr`, one after the other.
unfoldable pub ask_each : (ℕ → Bool) → List ℕ → NvRing → M NvRing
ask_each pitched [] r = pure r
ask_each pitched (i ∷ indices) r = do
  asked ← nv_device_ptr pitched i r
  ask_each pitched indices asked.1

pub ask_each-IsUsed :
    (o : Object) (pitched : ℕ → Bool) (indices : List ℕ) (r : NvRing) (s : Os)
    → pitched 0 ≡ false
    → IsRing r
    → IsUsed o r s (ask_each pitched indices r s).0 (ask_each pitched indices r s).1
unfolding ask_each
ask_each-IsUsed o pitched [] r s null ok = record {
  buffers = refl;
  ring = ok;
  settled = λ h. refl;
  balanced = λ a h. refl;
}
ask_each-IsUsed o pitched (i ∷ indices) r s null ok =
    let one = nv_device_ptr-IsUsed o pitched i r s null ok in
    let q = nv_device_ptr pitched i r s in
    let rest = ask_each-IsUsed o pitched indices q.0.1 q.1 null one.ring in
    record {
      buffers = rest.buffers ∙ one.buffers;
      ring = rest.ring;
      settled = λ h.
          let after =
            subst
              (λ bs.
                Settled o q.1 (h + views_owned o bs q.0.1.views)
                  (ask_each pitched indices q.0.1 q.1).1
                  (h + views_owned o bs (ask_each pitched indices q.0.1 q.1).0.views))
              one.buffers (rest.settled h) in
          omega (arith, one.settled h, after);
      balanced = λ a h. omega (arith, one.balanced a h, rest.balanced a h);
    }
