-- ===== src/Pool/Ring.antt =====
-- The slots of the pool: which one `acquire_next` takes, and what it leaves alone.
use native.Mathlib.Nat.{mod-lt}
use native.Mathlib.Decide.{dec_le, ℕ_discrete}
use axon_sdk_for_physical_ai.Common.{
  set-set_back, subst, ℕ, zero, suc, ◌+◌, ◌-◌, ◌%◌, ◌≤◌, ◌<◌, ◌≡◌, refl, sym, ◌≢◌, ◌⊎◌, inl, inr,
  List, Bool, true, false, Option, none, some, length, get_or, set, arith, Bool-cases, Option-cases,
  length-set, get_or-set_self, get_or-set_ne,
}
use axon_sdk_for_physical_ai.Pool.{TensorPool, scan, acquire_next, take_slot, release}

-- A slot for each buffer, and the head at one of them.
pub record IsValid (p : TensorPool) : Type 0 where
  pub slots : length p.in_use ≡ length p.buffers
  pub head_lt : p.ring_head < length p.buffers

abbrev pub used : TensorPool → ℕ → Bool
used p i = get_or p.in_use i false

-- What a scan that stops at `idx` has seen: round `m` met a free slot, the rounds before used ones.
abbrev Found : ℕ → ℕ → ℕ → ℕ → List Bool → ℕ → Type 0
Found fuel n head k u idx =
    (m : ℕ) × (k ≤ m)
    × (m < k + fuel)
    × (idx ≡ (head + m) % n)
    × (get_or u idx false ≡ false)
    × ((j : ℕ) → k ≤ j → j < m → get_or u ((head + j) % n) false ≡ true)

extend_busy :
    (n head k m : ℕ) (u : List Bool)
    → get_or u ((head + k) % n) false ≡ true
    → ((j : ℕ) → k + 1 ≤ j → j < m → get_or u ((head + j) % n) false ≡ true)
    → (j : ℕ) → k ≤ j
    → j < m
    → get_or u ((head + j) % n) false ≡ true
extend_busy n head k m u first more j lo hi = elim (ℕ_discrete k j) [
  | yes e ↦ subst (λ t. get_or u ((head + t) % n) false ≡ true) e first
  | no d ↦ more j (omega arith) hi
]

scan-Found :
    (fuel n head k : ℕ) (u : List Bool) (idx : ℕ)
    → scan fuel n head k u ≡ some idx
    → Found fuel n head k u idx
unfolding scan
scan-Found zero n head k u idx e = cc
scan-Found (suc fuel) n head k u idx e = elim (Bool-cases (get_or u ((head + k) % n) false)) [
  | inl busy ↦
      let (m, lo, hi, at, free, before) = scan-Found fuel n head (k + 1) u idx (rw busy at e) in
      (m, omega arith, omega arith, at, free, extend_busy n head k m u busy before)
  | inr free ↦
      let here : (head + k) % n ≡ idx = ground arith in
      (
        k,
        omega arith,
        omega arith,
        sym here,
        subst (λ t. get_or u t false ≡ false) here free,
        λ j lo hi. absurd (omega arith),
      )
]

scan-none :
    (fuel n head k : ℕ) (u : List Bool)
    → scan fuel n head k u ≡ none
    → (j : ℕ) → k ≤ j
    → j < k + fuel
    → get_or u ((head + j) % n) false ≡ true
unfolding scan
scan-none zero n head k u e j lo hi = absurd (omega arith)
scan-none (suc fuel) n head k u e j lo hi = elim (Bool-cases (get_or u ((head + k) % n) false)) [
  | inl busy ↦
      extend_busy n head k (k + suc fuel) u busy
        (λ i lo' hi'. scan-none fuel n head (k + 1) u (rw busy at e) i lo' (omega arith)) j lo hi
  | inr free ↦ ground arith
]

-- Every slot is the head plus a number of rounds below the pool's size.
reach_slot : (n head i : ℕ) → head < n → i < n → (j : ℕ) × (j < n) × ((head + j) % n ≡ i)
reach_slot n head i hh hi = elim (dec_le head i) [
  | yes le ↦ (i - head, omega arith, grind arith)
  | no lt ↦ (i + n - head, omega arith, grind arith)
]

-- What `acquire_next` does when it returns `idx`: the slot was free, it is the first free one from
-- the head on, it alone changes, and the head moves behind it.
pub record Acquired (p : TensorPool) (idx : ℕ) (q : TensorPool) : Type 0 where
  pub in_range : idx < length p.buffers
  pub was_free : used p idx ≡ false
  pub now_used : used q idx ≡ true
  pub others_kept : (j : ℕ) → idx ≢ j → used q j ≡ used p j
  pub rounds : ℕ
  pub at_round : idx ≡ (p.ring_head + rounds) % length p.buffers
  pub first_free : (j : ℕ) → j < rounds → used p ((p.ring_head + j) % length p.buffers) ≡ true
  pub head_moved : q.ring_head ≡ (idx + 1) % length p.buffers
  pub valid : IsValid q
  pub fds_kept : q.share_fds ≡ p.share_fds

acquired :
    (p : TensorPool) (idx : ℕ)
    → IsValid p
    → scan (length p.buffers) (length p.buffers) p.ring_head 0 p.in_use ≡ some idx
    → Acquired p idx (take_slot p idx)
unfolding take_slot
acquired p idx v e =
    let (m, lo, hi, at, free, before) = scan-Found _ _ _ 0 p.in_use idx e in
    let in_range : idx < length p.buffers =
      let positive : 0 < length p.buffers = omega (arith, v.head_lt) in
      subst (λ t. t < length p.buffers) (sym at) (mod-lt (p.ring_head + m) positive) in
    record {
      in_range = in_range;
      was_free = free;
      now_used = get_or-set_self p.in_use idx true false (omega (arith, v.slots));
      others_kept = λ j ne. get_or-set_ne p.in_use idx j true false ne;
      rounds = m;
      at_round = at;
      first_free = λ j h. before j (omega arith) h;
      head_moved = refl;
      valid = record {
        slots = omega (arith, length-set p.in_use idx true, v.slots);
        head_lt = mod-lt (idx + 1) (omega (arith, v.head_lt));
      };
      fds_kept = refl;
    }

-- The result of `acquire_next` on `p`.
abbrev pub AcquireSpec : TensorPool → Option ℕ × TensorPool → Type 0
AcquireSpec p r =
    ((idx : ℕ) × (q : TensorPool) × (r ≡ (some idx, q)) × Acquired p idx q)
    ⊎ ((r ≡ (none, p)) × ((i : ℕ) → i < length p.buffers → used p i ≡ true))

all_used :
    (p : TensorPool)
    → IsValid p
    → scan (length p.buffers) (length p.buffers) p.ring_head 0 p.in_use ≡ none
    → (i : ℕ) → i < length p.buffers
    → used p i ≡ true
all_used p v e i h =
    let (j, lt, at) = reach_slot (length p.buffers) p.ring_head i v.head_lt h in
    subst (λ t. used p t ≡ true) at
      (scan-none (length p.buffers) (length p.buffers) p.ring_head 0 p.in_use e j (omega arith)
        (omega arith))

-- On a valid pool `acquire_next` either takes the first free slot from the head on, changing nothing
-- else but the head, or returns -1 with the pool as it was, and then every slot is in use.
pub acquire_next_total : (p : TensorPool) → IsValid p → AcquireSpec p (acquire_next p)
unfolding acquire_next
acquire_next_total p v =
    elim (Option-cases (scan (length p.buffers) (length p.buffers) p.ring_head 0 p.in_use)) [
      | inl e ↦ rw (e, acquire_next) (inr (refl, all_used p v e))
      | inr (idx, e) ↦ rw (e, acquire_next) (inl (idx, take_slot p idx, refl, acquired p idx v e))
    ]

set_back :
    (u : List Bool) (i : ℕ)
    → i < length u
    → get_or u i false ≡ false
    → set (set u i true) i false ≡ u
set_back u i h e = subst (λ b. set (set u i true) i b ≡ u) e (set-set_back u i true false h)

-- On a valid pool, releasing the slot that `acquire_next` returned gives back the slots as they were
-- before the call.
pub release-acquire_next :
    (p : TensorPool) (idx : ℕ)
    → IsValid p
    → (acquire_next p).0 ≡ some idx
    → (release idx (acquire_next p).1).in_use ≡ p.in_use
unfolding acquire_next release take_slot
release-acquire_next p idx v e =
    elim (Option-cases (scan (length p.buffers) (length p.buffers) p.ring_head 0 p.in_use)) [
      | inl out ↦ ground arith
      | inr (i, found) ↦
          let a = acquired p i v found in
          let same : i ≡ idx = ground arith in
          ground (
            arith,
            set_back p.in_use i (omega (arith, v.slots, a.in_range)) a.was_free,
            length-set p.in_use i true,
            v.slots,
            a.in_range,
          )
    ]
