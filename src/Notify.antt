-- ===== src/Notify.antt =====
-- The wake-up protocol between `SeqlockMetadataChannel::publish` (src/metadata_channel.cpp) and
-- `TensorSubscriber::wait_any` (src/subscriber.cpp), on one channel with any number of consumers. Each
-- access to `notify` and `waiters`, and each futex call, is one step; steps interleave in any order.
-- The descriptor is in the slot before the counter moves. A consumer waits on this channel alone.

pub mod Invariant
pub mod Wakeup
pub mod Lost
use axon_sdk_for_physical_ai.Common.{if◌then◌else◌, ℕ, ◌+◌, ◌≡◌, ◌≢◌, Bool, true, false, wrap32}
use axon_sdk_for_physical_ai.Common.Family.{update}

-- Where `publish` stands: before the counter moves, before the flag is taken, and with the flag taken.
pub data Publisher : Type 0 where
  idle : Publisher
  bumped : Publisher
  took : (flag : Bool) → Publisher

-- Where a consumer stands. `looking` is between the load of the counter in `latest_view` and its
-- commit to `seen_notify`; `raised`, `checked` and `asleep` are the rounds of `wait_any`.
pub data Place : Type 0 where
  active : Place
  looking : (value value_at : ℕ) → Place
  raised : Place
  checked : Place
  asleep : Place

-- `seen_at` is a ghost: the bumps that had been made when `seen` was loaded.
pub record Consumer : Type 0 where
  pub place : Place
  pub seen : ℕ
  pub seen_at : ℕ

-- `bumps` is a ghost that counts the additions to `notify`, which wraps.
pub record System : Type 0 where
  pub notify : ℕ
  pub waiters : Bool
  pub bumps : ℕ
  pub publisher : Publisher
  pub consumer : ℕ → Consumer

-- `FUTEX_WAKE` with `INT_MAX`.
abbrev pub awaken : Consumer → Consumer
awaken c = elim c.place [ asleep ↦ record c { place = active } | _ ↦ c ]

abbrev pub move : System → ℕ → Place → System
move s j p = record s { consumer = update s.consumer j (record (s.consumer j) { place = p }) }

abbrev pub see : System → ℕ → ℕ → ℕ → System
see s j v v_at = record s {
  consumer = update s.consumer j (record { place = active; seen = v; seen_at = v_at });
}

-- With `calm`, no consumer raises the flag while a publish stands between its two atomic operations.
pub data Step (calm : Bool) (s : System) : System → Type 0 where
  bump :
      s.publisher ≡ idle
      → Step calm s
          (record s { notify = wrap32 (s.notify + 1); bumps = s.bumps + 1; publisher = bumped })
  take_flag :
      s.publisher ≡ bumped → Step calm s (record s { waiters = false; publisher = took s.waiters })
  wake :
      s.publisher ≡ took true
      → Step calm s (record s { publisher = idle; consumer = λ j. awaken (s.consumer j) })
  no_wake : s.publisher ≡ took false → Step calm s (record s { publisher = idle })
  look : (j : ℕ) → (s.consumer j).place ≡ active → Step calm s (move s j (looking s.notify s.bumps))
  commit :
      (j : ℕ) {v v_at : ℕ} → (s.consumer j).place ≡ looking v v_at → Step calm s (see s j v v_at)
  skip :
      (j : ℕ) {v v_at : ℕ} → (s.consumer j).place ≡ looking v v_at → Step calm s (move s j active)
  raise :
      (j : ℕ)
      → (s.consumer j).place ≡ active
      → (calm ≡ true → s.publisher ≢ bumped)
      → Step calm s (record (move s j raised) { waiters = true })
  has_update :
      (j : ℕ)
      → (s.consumer j).place ≡ raised
      → s.notify ≢ (s.consumer j).seen
      → Step calm s (move s j active)
  no_update :
      (j : ℕ)
      → (s.consumer j).place ≡ raised
      → s.notify ≡ (s.consumer j).seen
      → Step calm s (move s j checked)
  timed_out : (j : ℕ) → (s.consumer j).place ≡ checked → Step calm s (move s j active)
  value_moved :
      (j : ℕ)
      → (s.consumer j).place ≡ checked
      → s.notify ≢ (s.consumer j).seen
      → Step calm s (move s j active)
  sleep :
      (j : ℕ)
      → (s.consumer j).place ≡ checked
      → s.notify ≡ (s.consumer j).seen
      → Step calm s (move s j asleep)
  interrupted : (j : ℕ) → (s.consumer j).place ≡ asleep → Step calm s (move s j active)

-- The end of `publish`, from `notify.fetch_add` on, with no step of a consumer in between.
unfoldable pub notify_waiters : System → System
notify_waiters s =
    if s.waiters
    then record s {
      notify = wrap32 (s.notify + 1);
      bumps = s.bumps + 1;
      waiters = false;
      consumer = λ j. awaken (s.consumer j);
    }
    else record s { notify = wrap32 (s.notify + 1); bumps = s.bumps + 1 }

abbrev pub init : System
init = record {
  notify = 0;
  waiters = false;
  bumps = 0;
  publisher = idle;
  consumer = λ j. record { place = active; seen = 0; seen_at = 0 };
}

pub data Reach (calm : Bool) : System → Type 0 where
  start : Reach calm init
  later : {s t : System} → Reach calm s → Step calm s t → Reach calm t
