-- ===== src/Seqlock.antt =====
-- src/metadata_channel.cpp: the seqlock of `SeqlockMetadataChannel`, one shared access at a time. A
-- writer runs `publish` up to `ready = 1`, a reader runs `read_latest`; they interleave in any order,
-- and a descriptor is copied word by word. Atomics are sequentially consistent. Other readers write
-- nothing that these two read, so one reader stands for each of them.
pub mod Invariant
pub mod Safety
pub mod Progress
use axon_sdk_for_physical_ai.Common.{
  ℕ, zero, suc, ◌+◌, ◌*◌, ◌%◌, ◌^◌, ◌<◌, ◌≡◌, ◌≢◌, Bool, true, false, if◌then◌else◌, ltb, wrap64,
  Option, none, some,
}
use axon_sdk_for_physical_ai.Common.Family.{update}

-- A descriptor, as the words that the copy moves.
abbrev pub Desc : Type 0
Desc = ℕ → ℕ

-- The fields of `MetadataSlot` that both sides use. `count` and `hist` are ghosts that no step reads:
-- the publishes that have ended, and the descriptor of each.
pub record Slot : Type 0 where
  pub guard : ℕ
  pub ready : Bool
  pub word : ℕ → ℕ
  pub count : ℕ
  pub hist : ℕ → Desc

-- Where `publish` stands, with its live locals.
pub data Writer : Type 0 where
  idle : Writer
  loaded : (g : ℕ) (d : Desc) → Writer
  storing : (g : ℕ) (d : Desc) (i : ℕ) → Writer
  stored : (d : Desc) → Writer

-- `n` is the number of words of a descriptor.
pub data WriterMove (n : ℕ) (m : Slot) : Writer → Slot → Writer → Type 0 where
  load_guard : (d : Desc) → WriterMove n m idle m (loaded m.guard d)
  lock :
      {g : ℕ} {d : Desc}
      → WriterMove n m
          (loaded g d)
          (record m { guard = wrap64 (g + 1); hist = update m.hist (m.count + 1) d })
          (storing g d 0)
  store_word :
      {g i : ℕ} {d : Desc}
      → i < n
      → WriterMove n m
          (storing g d i)
          (record m { word = update m.word i (d i) })
          (storing g d (suc i))
  unlock :
      {g i : ℕ} {d : Desc}
      → i ≡ n
      → WriterMove n m
          (storing g d i)
          (record m { guard = wrap64 (g + 2); count = m.count + 1 })
          (stored d)
  set_ready : {d : Desc} → WriterMove n m (stored d) (record m { ready = true }) idle

-- Where `read_latest` stands. `began`, `since` and `until` are ghosts: the publishes that had ended at
-- the call, at the first load of the guard in this attempt, and at the second.
pub data Reader : Type 0 where
  waiting : Reader
  trying : (retry began : ℕ) → Reader
  copying : (retry began before since i : ℕ) (tmp : Desc) → Reader
  returned : (retry began since until : ℕ) (tmp : Desc) → Reader
  failed : Reader

-- `for (retry = 0; retry <= max_retry; ++retry)`, after a round that did not return. `max_retry` is not
-- negative here: with a negative one the loop has no round.
abbrev pub next_round : ℕ → ℕ → ℕ → Reader
next_round max_retry retry began = if ltb retry max_retry then trying (retry + 1) began else failed

pub data ReaderMove (n max_retry : ℕ) (m : Slot) : Reader → Reader → Type 0 where
  no_data : m.ready ≡ false → ReaderMove n max_retry m waiting failed
  has_data : m.ready ≡ true → ReaderMove n max_retry m waiting (trying 0 m.count)
  odd :
      {k b : ℕ} → m.guard % 2 ≡ 1 → ReaderMove n max_retry m (trying k b) (next_round max_retry k b)
  even :
      {k b : ℕ}
      → m.guard % 2 ≡ 0
      → ReaderMove n max_retry m (trying k b) (copying k b m.guard m.count 0 (λ _. 0))
  copy_word :
      {k b g c i : ℕ} {t : Desc}
      → i < n
      → ReaderMove n max_retry m
          (copying k b g c i t)
          (copying k b g c (suc i) (update t i (m.word i)))
  accept :
      {k b g c i : ℕ} {t : Desc}
      → i ≡ n
      → m.guard ≡ g
      → ReaderMove n max_retry m (copying k b g c i t) (returned k b c m.count t)
  reject :
      {k b g c i : ℕ} {t : Desc}
      → i ≡ n
      → m.guard ≢ g
      → ReaderMove n max_retry m (copying k b g c i t) (next_round max_retry k b)
  call_again : {k b c u : ℕ} {t : Desc} → ReaderMove n max_retry m (returned k b c u t) waiting
  call_after_failure : ReaderMove n max_retry m failed waiting

pub record System : Type 0 where
  pub mem : Slot
  pub writer : Writer
  pub reader : Reader

pub data Step (n max_retry : ℕ) (s : System) : System → Type 0 where
  writes :
      {m : Slot} {w : Writer}
      → WriterMove n s.mem s.writer m w
      → Step n max_retry s (record s { mem = m; writer = w })
  reads :
      {r : Reader}
      → ReaderMove n max_retry s.mem s.reader r
      → Step n max_retry s (record s { reader = r })

-- The slot that `create_publisher` sets up.
abbrev pub init : System
init = record {
  mem = record { guard = 0; ready = false; word = λ _. 0; count = 0; hist = λ _ _. 0 };
  writer = idle;
  reader = waiting;
}

pub data Reach (n max_retry : ℕ) : System → Type 0 where
  start : Reach n max_retry init
  later : {s t : System} → Reach n max_retry s → Step n max_retry s t → Reach n max_retry t

-- `SeqlockMetadataChannel::has_data`, where a slot that is not mapped is `none`.
unfoldable pub slot_has_data : Option Slot → Bool
slot_has_data none = false
slot_has_data (some m) = m.ready
