-- ===== src/Publisher/Frames.antt =====
-- One call of `TensorPublisher::publish` (src/publisher.cpp).
use axon_sdk_for_physical_ai.Common.{
  subst, ap, sym, refl, ℕ, ◌+◌, ◌≡◌, true, false, Option, none, some, arith, inl, inr, wrap64,
  Errno,
}
use axon_sdk_for_physical_ai.Descriptor.{TensorDescriptor, descriptor_error}
use axon_sdk_for_physical_ai.Os.{Os, M, ◌>>=◌, pure, get_errno}
use axon_sdk_for_physical_ai.Pool.{TensorPool}
use axon_sdk_for_physical_ai.Publisher.{TensorPublisher, stamp, publish}
use axon_sdk_for_physical_ai.Publisher.Steps.{publish_total}

-- A frame that the caller stages and publishes: what it has filled in, and the arguments of `publish`.
pub record Frame : Type 0 where
  pub filled : TensorDescriptor
  pub pool : TensorPool
  pub now : ℕ
  pub index : Option ℕ
  pub sync_fd : Option ℕ

-- `publish` of a frame: `none`, or the `errno` of the error return.
unfoldable pub publish_frame : ℕ → Frame → TensorPublisher → M (Option Errno × TensorPublisher)
publish_frame fuel f p = do
  (done, q) ← publish fuel f.pool f.now f.index f.sync_fd (record p { staging = f.filled })
  err ← get_errno
  pure (elim done [ true ↦ none | false ↦ some err ], q)

abbrev pub index_or_zero : Option ℕ → ℕ
index_or_zero none = 0
index_or_zero (some i) = i

-- The descriptor of a frame, published with number `seqno`: but for the four fields that the publisher
-- stamps it is as the caller filled it in.
pub record IsStamped (f : Frame) (seqno : ℕ) (d : TensorDescriptor) : Type 0 where
  pub numbered : d.seqno ≡ seqno
  pub generation : d.pool_generation ≡ f.pool.gen
  pub buffer : d.bo_handle ≡ index_or_zero f.index
  pub timed : d.producer_publish_ts_ns ≡ f.now
  pub rest_filled :
      record d {
        seqno = f.filled.seqno;
        pool_generation = f.filled.pool_generation;
        bo_handle = f.filled.bo_handle;
        producer_publish_ts_ns = f.filled.producer_publish_ts_ns;
      }
      ≡ f.filled

-- One call of `publish` that refuses the frame.
pub record Refused (f : Frame) (e : Errno) (p : TensorPublisher)
    (r : Option Errno × TensorPublisher) : Type 0 where
  pub result : r.0 ≡ some e
  pub size : r.1.buffer_size ≡ p.buffer_size
  pub number : r.1.seqno ≡ p.seqno
  pub count : r.1.rejected ≡ wrap64 (p.rejected + 1)
  pub slot : r.1.slot ≡ p.slot

-- One that accepts it.
pub record Accepted (f : Frame) (p : TensorPublisher) (r : Option Errno × TensorPublisher)
    : Type 0 where
  pub result : r.0 ≡ none
  pub size : r.1.buffer_size ≡ p.buffer_size
  pub number : r.1.seqno ≡ wrap64 (p.seqno + 1)
  pub count : r.1.rejected ≡ p.rejected
  pub slot : (d : TensorDescriptor) × (r.1.slot ≡ some d) × IsStamped f r.1.seqno d

stamp-IsStamped :
    (f : Frame) (p : TensorPublisher)
    → IsStamped f
        (wrap64 (p.seqno + 1))
        (stamp f.pool f.now f.index (record p { staging = f.filled }))
unfolding stamp
stamp-IsStamped f p = record {
  numbered = refl;
  generation = refl;
  buffer = ground arith;
  timed = refl;
  rest_filled = refl;
}

pub publish_frame-Refused :
    (fuel : ℕ) (f : Frame) (e : Errno) (p : TensorPublisher) (s : Os)
    → descriptor_error f.filled p.buffer_size ≡ some e
    → Refused f e p (publish_frame fuel f p s).0
unfolding publish_frame
publish_frame-Refused fuel f e p s out =
    elim (publish_total fuel f.pool f.now f.index f.sync_fd (record p { staging = f.filled }) s) [
      | inr (ok, done, r) ↦ absurd (ground (arith, ok, out))
      | inl (e', out', denied, r) ↦ record {
        result = ground (arith, denied, r.reported, out, out');
        size = ap (λ x. x.buffer_size) r.counted;
        number = ap (λ x. x.seqno) r.counted;
        count = ap (λ x. x.rejected) r.counted;
        slot = ap (λ x. x.slot) r.counted;
      }
    ]

pub publish_frame-Accepted :
    (fuel : ℕ) (f : Frame) (p : TensorPublisher) (s : Os)
    → descriptor_error f.filled p.buffer_size ≡ none
    → Accepted f p (publish_frame fuel f p s).0
unfolding publish_frame
publish_frame-Accepted fuel f p s ok =
    elim (publish_total fuel f.pool f.now f.index f.sync_fd (record p { staging = f.filled }) s) [
      | inl (e, out, denied, r) ↦ absurd (ground (arith, ok, out))
      | inr (ok', done, r) ↦ record {
        result = ground (arith, done);
        size = r.sized;
        number = r.numbered;
        count = r.refused;
        slot = (
          stamp f.pool f.now f.index (record p { staging = f.filled }),
          r.shown,
          subst (λ n. IsStamped f n (stamp f.pool f.now f.index (record p { staging = f.filled })))
              (sym r.numbered) (stamp-IsStamped f p),
        );
      }
    ]
