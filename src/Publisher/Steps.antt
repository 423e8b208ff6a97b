-- ===== src/Publisher/Steps.antt =====
-- What `publish` does on each path, what stays true of the slot, and the count of frames.
use axon_sdk_for_physical_ai.Common.{
  ◌⊎◌, ℕ, ◌+◌, ◌≡◌, refl, sym, Bool, true, false, Option, none, some, arith, Option-cases, inl, inr,
  wrap64, Errno, subst,
}
use axon_sdk_for_physical_ai.Descriptor.{descriptor_error}
use axon_sdk_for_physical_ai.Os.{Os}
use axon_sdk_for_physical_ai.Pool.{TensorPool}
use axon_sdk_for_physical_ai.Publisher.{
  publish_accepted, TensorPublisher, cache_pool, stamp, publish,
}

-- A refused frame changes nothing but the count and `errno`, and makes no call.
pub record IsRefused (e : Errno) (p q : TensorPublisher) (s t : Os) : Type 0 where
  pub counted : q ≡ record p { rejected = wrap64 (p.rejected + 1) }
  pub reported : t ≡ record s { errno = e }

-- An accepted frame is in the slot with the fields that the caller staged and those that the publisher
-- stamps, and the number of refused ones stays.
pub record IsPublished (pool : TensorPool) (now : ℕ) (index : Option ℕ) (p q : TensorPublisher)
    : Type 0 where
  pub shown : q.slot ≡ some (stamp pool now index p)
  pub staged : q.staging ≡ stamp pool now index p
  pub numbered : q.seqno ≡ wrap64 (p.seqno + 1)
  pub refused : q.rejected ≡ p.rejected
  pub sized : q.buffer_size ≡ p.buffer_size
  pub next : q.next_index ≡ p.next_index
  pub cached : (q.pool_cached ≡ true) × (q.cached_gen ≡ pool.gen)

abbrev pub PublishSpec :
    TensorPool → ℕ → Option ℕ → TensorPublisher → Os → (Bool × TensorPublisher) × Os → Type 0
PublishSpec pool now index p s r =
    ((e : Errno) × (descriptor_error p.staging p.buffer_size ≡ some e)
      × (r.0.0 ≡ false)
      × IsRefused e p r.0.1 s r.1)
    ⊎ ((descriptor_error p.staging p.buffer_size ≡ none)
        × (r.0.0 ≡ true)
        × IsPublished pool now index p r.0.1)

record IsCached (pool : TensorPool) (p q : TensorPublisher) : Type 0 where
  slot : q.slot ≡ p.slot
  staging : q.staging ≡ p.staging
  seqno : q.seqno ≡ p.seqno
  rejected : q.rejected ≡ p.rejected
  size : q.buffer_size ≡ p.buffer_size
  next : q.next_index ≡ p.next_index
  marked : (q.pool_cached ≡ true) × (q.cached_gen ≡ pool.gen)

cache_pool-IsCached :
    (pool : TensorPool) (p : TensorPublisher) → IsCached pool p (cache_pool false pool p)
unfolding cache_pool
cache_pool-IsCached pool p = record {
  slot = ground arith;
  staging = ground arith;
  seqno = ground arith;
  rejected = ground arith;
  size = ground arith;
  next = ground arith;
  marked = ground arith;
}

publish_accepted-IsPublished :
    (fuel : ℕ) (pool : TensorPool) (now : ℕ) (index sync_fd : Option ℕ) (p : TensorPublisher)
    (s : Os)
    → IsPublished pool now index p (publish_accepted fuel pool now index sync_fd p s).0
unfolding publish_accepted stamp
publish_accepted-IsPublished fuel pool now index sync_fd p s =
    let d = stamp pool now index p in
    let is = cache_pool-IsCached pool (record p { staging = d; seqno = d.seqno; slot = some d }) in
    record {
      shown = is.slot;
      staged = is.staging;
      numbered = is.seqno;
      refused = is.rejected;
      sized = is.size;
      next = is.next;
      cached = is.marked;
    }

publish-refuse :
    (fuel : ℕ) (pool : TensorPool) (now : ℕ) (index sync_fd : Option ℕ) (p : TensorPublisher)
    (s : Os) (e : Errno)
    → descriptor_error p.staging p.buffer_size ≡ some e
    → publish fuel pool now index sync_fd p s
      ≡ ((false, record p { rejected = wrap64 (p.rejected + 1) }), record s { errno = e })
unfolding publish
publish-refuse fuel pool now index sync_fd p s e out = ground (arith, out)

publish-accept :
    (fuel : ℕ) (pool : TensorPool) (now : ℕ) (index sync_fd : Option ℕ) (p : TensorPublisher)
    (s : Os)
    → descriptor_error p.staging p.buffer_size ≡ none
    → publish fuel pool now index sync_fd p s ≡ (
      (true, (publish_accepted fuel pool now index sync_fd p s).0),
      (publish_accepted fuel pool now index sync_fd p s).1,
    )
unfolding publish
publish-accept fuel pool now index sync_fd p s ok = ground (arith, ok)

-- `publish` refuses a descriptor for which `descriptor_error` has an error, with that `errno`, no call,
-- and nothing changed but the count; any other is shown in the slot as staged and stamped, with the next
-- sequence number.
pub publish_total :
    (fuel : ℕ) (pool : TensorPool) (now : ℕ) (index sync_fd : Option ℕ) (p : TensorPublisher)
    (s : Os)
    → PublishSpec pool now index p s (publish fuel pool now index sync_fd p s)
publish_total fuel pool now index sync_fd p s =
    elim (Option-cases (descriptor_error p.staging p.buffer_size)) [
      | inr (e, out) ↦
          subst (PublishSpec pool now index p s)
            (sym (publish-refuse fuel pool now index sync_fd p s e out))
            (inl (e, out, refl, record { counted = refl; reported = refl }))
      | inl ok ↦
          subst (PublishSpec pool now index p s)
            (sym (publish-accept fuel pool now index sync_fd p s ok))
            (inr (ok, refl, publish_accepted-IsPublished fuel pool now index sync_fd p s))
    ]
