-- ===== src/Subscriber/Wait.antt =====
-- src/subscriber.cpp: `wait_any` and `wait_for_update`, as one thread runs them. What the thread meets in
-- each round is a parameter: what the channels show, the clock, and the outcome of `futex_waitv`. The
-- waiter flags, and the interleaving with a publisher, are those of Notify.
pub mod Rounds
use axon_sdk_for_physical_ai.Common.{
  ℕ, zero, suc, ◌+◌, ℤ, pos, negsuc, List, [], ◌∷◌, length, Bool, true, false, Option, none, some,
  if◌then◌else◌, leb, ◌==◌, ◌&&◌, not, Errno, e_inval, e_timedout, e_again, e_intr, e_nosys,
}
use axon_sdk_for_physical_ai.Os.{Reply, done, fails}
use axon_sdk_for_physical_ai.Descriptor.{TensorDescriptor}
use axon_sdk_for_physical_ai.Subscriber.{Subscriber, has_update}
use axon_sdk_for_physical_ai.Subscriber.Deadline.{Timespec, deadline_after, past}

-- What a channel shows: its notify word, if it has one, and what `read_latest` returns.
pub record Shown : Type 0 where
  pub word : Option ℕ
  pub read : Option TensorDescriptor

-- What a round meets. `channels` is by the index of the subscriber.
pub record Round : Type 0 where
  pub channels : ℕ → Shown
  pub clock : Timespec
  pub woken : Reply

-- The loop over the subscribers, from index `i`: the first one with a new frame.
unfoldable pub first_update : ℕ → List Subscriber → (ℕ → Shown) → Option ℕ
first_update i [] shown = none
first_update i (s ∷ ss) shown =
    let rest = first_update (i + 1) ss shown in
    if has_update s (shown i).word (shown i).read then some i else rest

-- How a round ends that finds nothing: another one, with the futexes or by polling, or an error.
pub data Next : Type 0 where
  again : Bool → Next
  give_up : Errno → Next

unfoldable pub after_failure : Errno → Next
after_failure e_again = again true
after_failure e_intr = again true
after_failure e_timedout = again true
after_failure e_nosys = again false
after_failure e = give_up e

-- `futex_waitv`, or `nanosleep` without the futexes.
unfoldable pub after_wait : Bool → Reply → Next
after_wait false r = again false
after_wait true (done n) = again true
after_wait true (fails e) = after_failure e

-- The result of `wait_any`: the index of a subscriber, or -1 with `errno`.
pub data WaitResult : Type 0 where
  ready : ℕ → WaitResult
  failed : Errno → WaitResult

-- The loop of `wait_any` from round `k`; with no fuel left it has not returned.
unfoldable pub wait_loop :
    ℕ → Bool → Timespec → List Subscriber → (ℕ → Round) → Bool → ℕ → Option WaitResult
wait_loop zero timed deadline subs world futexes k = none
wait_loop (suc fuel) timed deadline subs world futexes k =
    elim (first_update 0 subs (world k).channels) [
      | some i ↦ some (ready i)
      | none ↦ elim (timed && past (world k).clock deadline) [
        | true ↦ some (failed e_timedout)
        | false ↦ elim (after_wait futexes (world k).woken) [
          | again f ↦ wait_loop fuel timed deadline subs world f (k + 1)
          | give_up e ↦ some (failed e)
        ]
      ]
    ]

-- The checks at the start: no null pointer, and each subscriber has its channel.
unfoldable pub checked : List (Option Subscriber) → Option (List Subscriber)
checked [] = some []
checked (none ∷ rest) = none
checked (some s ∷ rest) = elim (checked rest) [
  | none ↦ none
  | some ss ↦ if s.attached then some (s ∷ ss) else none
]

-- Whether each channel has a notify word.
unfoldable pub all_words : ℕ → List Subscriber → (ℕ → Shown) → Bool
all_words i [] shown = true
all_words i (s ∷ ss) shown = elim ((shown i).word) [
  | none ↦ false
  | some w ↦ all_words (i + 1) ss shown
]

abbrev pub is_timed : ℤ → Bool
is_timed (pos n) = true
is_timed (negsuc n) = false

abbrev pub timeout_of : ℤ → ℕ
timeout_of (pos n) = n
timeout_of (negsuc n) = 0

abbrev pub is_nil : List (Option Subscriber) → Bool
is_nil [] = true
is_nil (s ∷ ss) = false

-- `wait_any`. `max_waitv` is the kernel's FUTEX_WAITV_MAX, and `begun` the clock at the start.
unfoldable pub wait_any :
    ℕ → ℕ → List (Option Subscriber) → ℤ → Timespec → (ℕ → Round) → Option WaitResult
wait_any max_waitv fuel subs timeout_ms begun world =
    if is_nil subs then some (failed e_inval) else elim (checked subs) [
      | none ↦ some (failed e_inval)
      | some ss ↦
          wait_loop fuel (is_timed timeout_ms) (deadline_after begun (timeout_of timeout_ms)) ss
            world (leb (length ss) max_waitv && all_words 0 ss (world 0).channels) 0
    ]

-- `wait_for_update`: 1 for a new frame, 0 for a timeout, -1 for an error.
unfoldable pub update_code : WaitResult → ℤ
update_code (ready i) = pos 1
update_code (failed e_timedout) = pos 0
update_code (failed e) = negsuc 0

unfoldable pub wait_for_update : ℕ → ℕ → Subscriber → ℤ → Timespec → (ℕ → Round) → Option ℤ
wait_for_update max_waitv fuel self timeout_ms begun world =
    elim (wait_any max_waitv fuel (some self ∷ []) timeout_ms begun world) [
      | none ↦ none
      | some r ↦ some (update_code r)
    ]
