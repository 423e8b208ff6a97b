-- ===== src/Subscriber/Wait/Rounds.antt =====
-- In which round a wait ends, and with what.
use axon_sdk_for_physical_ai.Common.{
  ℕ, zero, suc, ◌+◌, ◌≤◌, ◌<◌, ◌≡◌, ◌≢◌, refl, subst, ℤ, List, [], ◌∷◌, length, get_elem?, Bool,
  true, false, Option, none, some, leb, ◌&&◌, Errno, e_timedout, arith, Option-cases, Bool-cases,
  inl, inr, ◌⊎◌,
}
use native.Mathlib.Decide.{dec_le}
use axon_sdk_for_physical_ai.Os.{Reply}
use axon_sdk_for_physical_ai.Subscriber.{Subscriber, has_update}
use axon_sdk_for_physical_ai.Subscriber.Deadline.{Timespec, deadline_after, past}
use axon_sdk_for_physical_ai.Subscriber.Wait.{
  WaitResult, ready, failed, WaitResult, Shown, Round, first_update, Next, again, give_up,
  after_wait, wait_loop, checked, all_words, is_timed, timeout_of, is_nil, wait_any,
}

-- Subscriber `i` has a new frame, in a list that starts at index `base`.
unfoldable pub has_new : ℕ → List Subscriber → (ℕ → Shown) → ℕ → Bool
has_new base ss shown i = elim (get_elem? ss i) [
  | none ↦ false
  | some s ↦ has_update s (shown (base + i)).word (shown (base + i)).read
]

-- Subscriber `i` is the first with a new frame.
pub record IsFirst (ss : List Subscriber) (shown : ℕ → Shown) (i : ℕ) : Type 0 where
  pub new : has_new 0 ss shown i ≡ true
  pub others : (j : ℕ) → j < i → has_new 0 ss shown j ≡ false

-- A round in which the wait neither finds a frame nor is out of time.
pub record IsQuiet (timed : Bool) (deadline : Timespec) (ss : List Subscriber) (r : Round)
    : Type 0 where
  pub nothing : (i : ℕ) → has_new 0 ss r.channels i ≡ false
  pub in_time : (timed && past r.clock deadline) ≡ false

-- How a wait ends in a round: with the first subscriber that has a frame; out of time; or by an error of
-- `futex_waitv` in a quiet round.
abbrev pub EndsWith : Bool → Timespec → List Subscriber → Round → WaitResult → Type 0
EndsWith timed deadline ss r (ready i) = IsFirst ss r.channels i
EndsWith timed deadline ss r (failed e) =
    ((e ≡ e_timedout)
      × ((i : ℕ) → has_new 0 ss r.channels i ≡ false)
      × ((timed && past r.clock deadline) ≡ true))
    ⊎ (IsQuiet timed deadline ss r × (after_wait true r.woken ≡ give_up e))

first_update-none :
    (base : ℕ) (ss : List Subscriber) (shown : ℕ → Shown)
    → first_update base ss shown ≡ none
    → (i : ℕ) → has_new base ss shown i ≡ false
unfolding first_update has_new
first_update-none base [] shown e i = ground arith
first_update-none base (s ∷ ss) shown e zero = ground (arith, e)
first_update-none base (s ∷ ss) shown e (suc i) =
    ground (arith, first_update-none (base + 1) ss shown (ground (arith, e)) i)

others-cons :
    (base : ℕ) (s : Subscriber) (ss : List Subscriber) (shown : ℕ → Shown) (d : ℕ)
    → has_update s (shown base).word (shown base).read ≡ false
    → ((j : ℕ) → j < d → has_new (base + 1) ss shown j ≡ false)
    → (j : ℕ) → j < suc d
    → has_new base (s ∷ ss) shown j ≡ false
unfolding has_new
others-cons base s ss shown d old others zero lt = ground (arith, old)
others-cons base s ss shown d old others (suc k) lt = ground (arith, others k (omega (arith, lt)))

first_update-some :
    (base : ℕ) (ss : List Subscriber) (shown : ℕ → Shown) (i : ℕ)
    → first_update base ss shown ≡ some i
    → (d : ℕ) × (i ≡ base + d)
      × (has_new base ss shown d ≡ true)
      × ((j : ℕ) → j < d → has_new base ss shown j ≡ false)
unfolding first_update has_new
first_update-some base [] shown i e = absurd (ground (arith, e))
first_update-some base (s ∷ ss) shown i e =
    elim (Bool-cases (has_update s (shown base).word (shown base).read)) [
      | inl new ↦
          (0, ground (arith, new, e), ground (arith, new), λ j lt. absurd (omega (arith, lt)))
      | inr old ↦
          let (d, at, new, others) =
            first_update-some (base + 1) ss shown i (ground (arith, old, e)) in
          (suc d, omega (arith, at), ground (arith, new), others-cons base s ss shown d old others)
    ]

first_update-IsFirst :
    (ss : List Subscriber) (shown : ℕ → Shown) (i : ℕ)
    → first_update 0 ss shown ≡ some i
    → IsFirst ss shown i
first_update-IsFirst ss shown i e =
    let (d, at, new, others) = first_update-some 0 ss shown i e in
    let same : d ≡ i = omega (arith, at) in
    subst (IsFirst ss shown) same (record { new = new; others = others })

abbrev pub Waits :
    Bool → Timespec → List Subscriber → (ℕ → Round) → ℕ → ℕ → Option WaitResult → Type 0
Waits timed deadline ss world k n result =
    (m : ℕ) × (r : WaitResult) × (result ≡ some r)
    × (m ≤ n)
    × EndsWith timed deadline ss (world m) r
    × ((j : ℕ) → k ≤ j → j < m → IsQuiet timed deadline ss (world j))

Next-cases : (n : Next) → ((f : Bool) × (n ≡ again f)) ⊎ ((e : Errno) × (n ≡ give_up e))
Next-cases (again f) = inl (f, refl)
Next-cases (give_up e) = inr (e, refl)

after_wait-give_up :
    (futexes : Bool) (r : Reply) (e : Errno)
    → after_wait futexes r ≡ give_up e
    → after_wait true r ≡ give_up e
unfolding after_wait
after_wait-give_up futexes r e given = ground (arith, given)

here-Waits :
    (timed : Bool) (deadline : Timespec) (ss : List Subscriber) (world : ℕ → Round) (k n : ℕ)
    (result : Option WaitResult) (r : WaitResult)
    → result ≡ some r
    → k ≤ n
    → EndsWith timed deadline ss (world k) r
    → Waits timed deadline ss world k n result
here-Waits timed deadline ss world k n result r e le ends =
    (k, r, e, le, ends, λ j lo hi. absurd (omega (arith, lo, hi)))

later-Waits :
    (timed : Bool) (deadline : Timespec) (ss : List Subscriber) (world : ℕ → Round) (k n : ℕ)
    (result : Option WaitResult)
    → IsQuiet timed deadline ss (world k)
    → Waits timed deadline ss world (suc k) n result
    → Waits timed deadline ss world k n result
later-Waits timed deadline ss world k n result quiet (m, r, e, le, ends, before) = (
  m,
  r,
  e,
  le,
  ends,
  λ j lo hi. elim (dec_le (suc k) j) [
    | yes far ↦ before j far hi
    | no near ↦
        let same : k ≡ j = omega (arith, lo, near) in
        subst (λ i. IsQuiet timed deadline ss (world i)) same quiet
  ],
)

wait_loop-Waits :
    (fuel : ℕ) (timed : Bool) (deadline : Timespec) (ss : List Subscriber) (world : ℕ → Round)
    (futexes : Bool) (k n : ℕ)
    → k ≤ n
    → n < fuel + k
    → ¬ IsQuiet timed deadline ss (world n)
    → Waits timed deadline ss world k n (wait_loop fuel timed deadline ss world futexes k)
unfolding wait_loop
wait_loop-Waits zero timed deadline ss world futexes k n le lt loud = absurd (omega (arith, le, lt))
wait_loop-Waits (suc fuel) timed deadline ss world futexes k n le lt loud =
    let result = wait_loop (suc fuel) timed deadline ss world futexes k in
    elim (Option-cases (first_update 0 ss (world k).channels)) [
      | inr (i, e) ↦
          here-Waits timed deadline ss world k n result (ready i) (ground (arith, e)) le
            (first_update-IsFirst ss (world k).channels i e)
      | inl e ↦ elim (Bool-cases (timed && past (world k).clock deadline)) [
        | inl late ↦
            here-Waits timed deadline ss world k n result (failed e_timedout)
              (ground (arith, e, late)) le
              (inl (refl, first_update-none 0 ss (world k).channels e, late))
        | inr in_time ↦
            let quiet : IsQuiet timed deadline ss (world k) = record {
              nothing = first_update-none 0 ss (world k).channels e;
              in_time = in_time;
            } in
            elim (Next-cases (after_wait futexes (world k).woken)) [
              | inr (x, g) ↦
                  here-Waits timed deadline ss world k n result (failed x)
                    (ground (arith, e, in_time, g)) le
                    (inr (quiet, after_wait-give_up futexes (world k).woken x g))
              | inl (f, g) ↦
                  let before : k ≢ n =
                    λ same. loud (subst (λ i. IsQuiet timed deadline ss (world i)) same quiet) in
                  let step : wait_loop fuel timed deadline ss world f (suc k) ≡ result =
                    ground (arith, e, in_time, g) in
                  later-Waits timed deadline ss world k n result quiet (
                    subst (Waits timed deadline ss world (suc k) n) step (
                      wait_loop-Waits fuel timed deadline ss world f (suc k) n
                        (omega (arith, le, before)) (omega (arith, lt)) loud))
            ]
      ]
    ]

-- For subscribers that are all attached, if in round `n` a subscriber has a new frame or a timeout that is
-- not negative is over, fuel for `n + 1` rounds is enough for `wait_any` to return, by round `n`: with the
-- first subscriber that has a new frame in the round that it returns from; with ETIMEDOUT if none has and
-- the time is over; or with an error of `futex_waitv` that is none of EAGAIN, EINTR, ETIMEDOUT and ENOSYS.
-- In each earlier round no subscriber has a new frame and the time is not over.
pub wait_any-ends :
    (max_waitv fuel n : ℕ) (subs : List (Option Subscriber)) (ss : List Subscriber) (timeout_ms : ℤ)
    (begun : Timespec) (world : ℕ → Round)
    → is_nil subs ≡ false
    → checked subs ≡ some ss
    → n < fuel
    → ¬ IsQuiet (is_timed timeout_ms) (deadline_after begun (timeout_of timeout_ms)) ss (world n)
    → Waits
        (is_timed timeout_ms)
        (deadline_after begun (timeout_of timeout_ms))
        ss
        world
        0
        n
        (wait_any max_waitv fuel subs timeout_ms begun world)
unfolding wait_any
wait_any-ends max_waitv fuel n subs ss timeout_ms begun world some_subs ok lt loud =
    let timed = is_timed timeout_ms in
    let deadline = deadline_after begun (timeout_of timeout_ms) in
    let futexes = leb (length ss) max_waitv && all_words 0 ss (world 0).channels in
    let step : wait_loop fuel timed deadline ss world futexes 0
        ≡ wait_any max_waitv fuel subs timeout_ms begun world =
      ground (arith, some_subs, ok) in
    subst (Waits timed deadline ss world 0 n) step (
      wait_loop-Waits fuel timed deadline ss world futexes 0 n (omega arith) (omega (arith, lt))
        loud)
