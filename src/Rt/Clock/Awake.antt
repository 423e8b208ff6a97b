-- ===== src/Rt/Clock/Awake.antt =====
-- When the wait ends, and what it has slept.
use axon_sdk_for_physical_ai.Common.{
  ◌≢◌, ℕ, zero, suc, ◌+◌, ◌-◌, ◌*◌, ◌≤◌, ◌<◌, ◌≡◌, refl, sym, ap, subst, [], ◌∷◌, ◌++◌, Option,
  some, arith,
}
use native.Mathlib.Decide.{dec_le}
use axon_sdk_for_physical_ai.Subscriber.Deadline.{Timespec}
use axon_sdk_for_physical_ai.Rt.Clock.{
  rt_now_ns, Waited, nap, sleep_loop, spin_loop, start, rt_sleep_until_prewarmed,
}

-- A loop at reading `k` of the clock.
record At (clock : ℕ → Timespec) (k : ℕ) (w : Waited) : Type 0 where
  shown : w.now ≡ rt_now_ns (clock k)
  next : w.readings ≡ suc k

-- From reading `k`, the first one that is not before `wake` is `m`.
record First (clock : ℕ → Timespec) (wake k m : ℕ) : Type 0 where
  from : k ≤ m
  late : wake ≤ rt_now_ns (clock m)
  early : (j : ℕ) → k ≤ j → j < m → rt_now_ns (clock j) < wake

here-First : (clock : ℕ → Timespec) (wake k : ℕ) → wake ≤ rt_now_ns (clock k) → First clock wake k k
here-First clock wake k late = record {
  from = omega arith;
  late = late;
  early = λ j a b. absurd (omega (arith, a, b));
}

later-First :
    (clock : ℕ → Timespec) (wake k m : ℕ)
    → rt_now_ns (clock k) < wake
    → First clock wake (suc k) m
    → First clock wake k m
later-First clock wake k m lt f = record {
  from = omega (arith, f.from);
  late = f.late;
  early = λ j a b. elim (dec_le (suc k) j) [
    | yes far ↦ f.early j far b
    | no near ↦
        let same : k ≡ j = omega (arith, a, near) in subst (λ i. rt_now_ns (clock i) < wake) same lt
  ];
}

-- A loop that ends, at the first reading that is not before `wake`.
abbrev Ends : (ℕ → Timespec) → ℕ → ℕ → ℕ → Option Waited → Type 0
Ends clock wake k n result =
    (m : ℕ) × (v : Waited) × (result ≡ some v) × At clock m v × First clock wake k m × (m ≤ n)

spin_loop-Ends :
    (fuel : ℕ) (clock : ℕ → Timespec) (wake k n : ℕ) (w : Waited)
    → At clock k w
    → k ≤ n
    → n < fuel + k
    → wake ≤ rt_now_ns (clock n)
    → Ends clock wake k n (spin_loop fuel clock wake w)
unfolding spin_loop
spin_loop-Ends zero clock wake k n w at le lt late = absurd (omega (arith, le, lt))
spin_loop-Ends (suc fuel) clock wake k n w at le lt late =
    elim (dec_le wake (rt_now_ns (clock k))) [
      | yes over ↦ (k, w, ground (arith, at.shown), at, here-First clock wake k over, le)
      | no early ↦
          let u : Waited = record w {
            now = rt_now_ns (clock w.readings);
            readings = w.readings + 1;
          } in
          let at' : At clock (suc k) u = record {
            shown = ap (λ i. rt_now_ns (clock i)) at.next;
            next = omega (arith, at.next);
          } in
          let before : k ≢ n =
            λ same. early (subst (λ i. wake ≤ rt_now_ns (clock i)) (sym same) late) in
          let (m, v, e, shown, first, top) =
            spin_loop-Ends fuel clock wake (suc k) n u at' (omega (arith, le, before))
              (omega (arith, lt)) late in
          (
            m,
            v,
            ground (arith, at.shown, e),
            shown,
            later-First clock wake k m (omega (arith, early)) first,
            top,
          )
    ]

sleep_loop-Ends :
    (fuel : ℕ) (clock : ℕ → Timespec) (wake k n : ℕ) (w : Waited)
    → At clock k w
    → k ≤ n
    → n < fuel + k
    → wake ≤ rt_now_ns (clock n)
    → Ends clock wake k n (sleep_loop fuel clock wake w)
unfolding sleep_loop
sleep_loop-Ends zero clock wake k n w at le lt late = absurd (omega (arith, le, lt))
sleep_loop-Ends (suc fuel) clock wake k n w at le lt late =
    elim (dec_le wake (rt_now_ns (clock k))) [
      | yes over ↦ (k, w, ground (arith, at.shown), at, here-First clock wake k over, le)
      | no early ↦
          let u : Waited = record {
            now = rt_now_ns (clock w.readings);
            readings = w.readings + 1;
            sleeps = w.sleeps ++ nap (wake - w.now) ∷ [];
          } in
          let at' : At clock (suc k) u = record {
            shown = ap (λ i. rt_now_ns (clock i)) at.next;
            next = omega (arith, at.next);
          } in
          let before : k ≢ n =
            λ same. early (subst (λ i. wake ≤ rt_now_ns (clock i)) (sym same) late) in
          let (m, v, e, shown, first, top) =
            sleep_loop-Ends fuel clock wake (suc k) n u at' (omega (arith, le, before))
              (omega (arith, lt)) late in
          (
            m,
            v,
            ground (arith, at.shown, e),
            shown,
            later-First clock wake k m (omega (arith, early)) first,
            top,
          )
    ]

join-First :
    (clock : ℕ → Timespec) (wake deadline m l : ℕ)
    → wake ≤ deadline
    → First clock wake 0 m
    → First clock deadline m l
    → First clock deadline 0 l
join-First clock wake deadline m l le a b = record {
  from = omega arith;
  late = b.late;
  early = λ j lo lt. elim (dec_le m j) [
    | yes far ↦ b.early j far lt
    | no near ↦ omega (arith, le, a.early j lo (omega (arith, near)))
  ];
}

-- If reading `n` of the clock is not before the deadline, then with fuel for `n + 1` rounds of each loop
-- `rt_sleep_until_prewarmed` returns; what it returns is the first reading of the clock that is not before
-- the deadline, and it takes no reading after that one, whatever the spin is and wherever a sleep ends.
pub rt_sleep_until_prewarmed-first :
    (fuel : ℕ) (clock : ℕ → Timespec) (deadline spin_us n : ℕ)
    → n < fuel
    → deadline ≤ rt_now_ns (clock n)
    → (m : ℕ) × (v : Waited) × (rt_sleep_until_prewarmed fuel clock deadline spin_us ≡ some v)
      × (v.now ≡ rt_now_ns (clock m))
      × (v.readings ≡ m + 1)
      × (deadline ≤ v.now)
      × ((j : ℕ) → j < m → rt_now_ns (clock j) < deadline)
unfolding rt_sleep_until_prewarmed start
rt_sleep_until_prewarmed-first fuel clock deadline spin_us n lt late =
    let spin = spin_us * 1000 in
    let at : At clock 0 (start clock) = record { shown = refl; next = refl } in
    elim (dec_le deadline spin) [
      | yes no_sleep ↦
          let (m, v, e, shown, first, top) =
            spin_loop-Ends fuel clock deadline 0 n (start clock) at (omega arith)
              (omega (arith, lt)) late in
          (
            m,
            v,
            ground (arith, no_sleep, e),
            shown.shown,
            omega (arith, shown.next),
            omega (arith, shown.shown, first.late),
            λ j below. first.early j (omega arith) below,
          )
      | no sleeps ↦
          let (k, w, slept, woken, begun, within) =
            sleep_loop-Ends fuel clock (deadline - spin) 0 n (start clock) at (omega arith)
              (omega (arith, lt)) (omega (arith, late)) in
          let (m, v, e, shown, first, top) =
            spin_loop-Ends fuel clock deadline k n w woken within (omega (arith, lt)) late in
          (
            m,
            v,
            ground (arith, sleeps, slept, e),
            shown.shown,
            omega (arith, shown.next),
            omega (arith, shown.shown, first.late),
            λ j below.
                (join-First clock (deadline - spin) deadline k m (omega arith) begun first).early j
                  (omega arith) below,
          )
    ]
