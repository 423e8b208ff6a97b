-- ===== src/Seqlock/Invariant.antt =====
-- What holds between the steps of the seqlock, and that each step keeps it.
use axon_sdk_for_physical_ai.Common.{
  Bool-cases, ℕ, suc, ◌+◌, ◌*◌, ◌%◌, ◌^◌, ◌<◌, ◌≤◌, ◌≡◌, inl, inr, ◌∙◌, Bool-cases, refl, Bool,
  true, false, ltb, wrap64, arith,
}
use axon_sdk_for_physical_ai.Common.Family.{update}
use axon_sdk_for_physical_ai.Seqlock.{
  Desc, Slot, Writer, idle, loaded, storing, stored, WriterMove, load_guard, lock, store_word,
  unlock, set_ready, Reader, waiting, trying, copying, returned, failed, ReaderMove, no_data,
  has_data, odd, even, copy_word, accept, reject, call_again, call_after_failure, System, Step,
  writes, reads, Reach, start, later, next_round,
}

-- The slot holds the words of a descriptor.
abbrev pub Holds : ℕ → Slot → Desc → Type 0
Holds n m d = (j : ℕ) → j < n → m.word j ≡ d j

-- The slot while `publish` stands at `w`. The guard is twice the publishes that have ended, and one
-- more while words are stored.
abbrev pub WriterOk : ℕ → Slot → Writer → Type 0
WriterOk n m idle = (m.guard ≡ wrap64 (2 * m.count)) × Holds n m (m.hist m.count)
WriterOk n m (loaded g d) =
    (m.guard ≡ wrap64 (2 * m.count)) × Holds n m (m.hist m.count) × (g ≡ wrap64 (2 * m.count))
WriterOk n m (storing g d i) =
    (m.guard ≡ wrap64 (2 * m.count + 1))
    × ((j : ℕ) → j < i → m.word j ≡ d j)
    × (g ≡ wrap64 (2 * m.count))
    × (m.hist (m.count + 1) ≡ d)
    × (i ≤ n)
WriterOk n m (stored d) =
    (m.guard ≡ wrap64 (2 * m.count)) × Holds n m (m.hist m.count) × (0 < m.count)

-- No publish is storing words.
abbrev pub quiet : Writer → Bool
quiet (storing g d i) = false
quiet _ = true

abbrev pub ReaderOk : ℕ → Slot → Writer → Reader → Type 0
ReaderOk n m w (trying k b) = (0 < b) × (b ≤ m.count)
ReaderOk n m w (copying k b g c i t) =
    (0 < b)
    × (b ≤ c)
    × (c ≤ m.count)
    × (g ≡ wrap64 (2 * c))
    × (i ≤ n)
    × (m.count ≡ c → quiet w ≡ true → (j : ℕ) → j < i → t j ≡ m.hist c j)
ReaderOk n m w (returned k b c u t) =
    (0 < b)
    × (b ≤ c)
    × (c ≤ u)
    × (u ≤ m.count)
    × (u < c + 2 ^ 63 → (j : ℕ) → j < n → t j ≡ m.hist c j)
ReaderOk n m w _ = Unit {0}

pub record Inv (n : ℕ) (m : Slot) (w : Writer) (r : Reader) : Type 0 where
  pub published : m.ready ≡ true → 0 < m.count
  pub writer_ok : WriterOk n m w
  pub reader_ok : ReaderOk n m w r

WriterMove-published :
    {n : ℕ} {m m' : Slot} {w w' : Writer}
    → WriterMove n m w m' w'
    → (m.ready ≡ true → 0 < m.count)
    → WriterOk n m w
    → m'.ready ≡ true
    → 0 < m'.count
WriterMove-published (load_guard d) old v e = old e
WriterMove-published lock old v e = old e
WriterMove-published (store_word h) old v e = old e
WriterMove-published (unlock h) old v e = omega arith
WriterMove-published set_ready old v e = v.2

WriterMove-WriterOk :
    {n : ℕ} {m m' : Slot} {w w' : Writer}
    → WriterMove n m w m' w'
    → WriterOk n m w
    → WriterOk n m' w'
WriterMove-WriterOk (load_guard d) v = (v.0, v.1, v.0)
WriterMove-WriterOk lock v =
    (omega arith, λ j h. absurd (omega arith), omega arith, ground arith, omega arith)
WriterMove-WriterOk (store_word h) v =
    (v.0, λ j below. ground (arith, v.1 j), v.2, v.3, omega arith)
WriterMove-WriterOk (unlock e) v = (omega arith, λ j h. rw v.3 (v.1 j (omega arith)), omega arith)
WriterMove-WriterOk set_ready v = (v.0, v.1)

WriterMove-ReaderOk :
    {n : ℕ} {m m' : Slot} {w w' : Writer}
    → WriterMove n m w m' w'
    → (r : Reader) → ReaderOk n m w r
    → ReaderOk n m' w' r
WriterMove-ReaderOk mv waiting v = tt
WriterMove-ReaderOk mv failed v = tt
WriterMove-ReaderOk (load_guard d) (trying k b) v = v
WriterMove-ReaderOk (load_guard d) (copying k b g c i t) v = v
WriterMove-ReaderOk (load_guard d) (returned k b c u t) v = v
WriterMove-ReaderOk lock (trying k b) v = v
WriterMove-ReaderOk lock (copying k b g c i t) v = (v.0, v.1, v.2, v.3, v.4, λ e q. cc)
WriterMove-ReaderOk lock (returned k b c u t) v =
    (v.0, v.1, v.2, v.3, λ h j lt. ground (arith, v.4 h j lt))
WriterMove-ReaderOk (store_word h) (trying k b) v = v
WriterMove-ReaderOk (store_word h) (copying k b g c i t) v = (v.0, v.1, v.2, v.3, v.4, λ e q. cc)
WriterMove-ReaderOk (store_word h) (returned k b c u t) v = v
WriterMove-ReaderOk (unlock e) (trying k b) v = (v.0, omega arith)
WriterMove-ReaderOk (unlock e) (copying k b g c i t) v =
    (v.0, v.1, omega arith, v.3, v.4, λ e q. absurd (omega arith))
WriterMove-ReaderOk (unlock e) (returned k b c u t) v = (v.0, v.1, v.2, omega arith, v.4)
WriterMove-ReaderOk set_ready (trying k b) v = v
WriterMove-ReaderOk set_ready (copying k b g c i t) v = (v.0, v.1, v.2, v.3, v.4, λ e q. v.5 e refl)
WriterMove-ReaderOk set_ready (returned k b c u t) v = v

-- Between publishes the slot holds the last descriptor.
quiet-Holds :
    (n : ℕ) (m : Slot) (w : Writer) → WriterOk n m w → quiet w ≡ true → Holds n m (m.hist m.count)
quiet-Holds n m idle v q = v.1
quiet-Holds n m (loaded g d) v q = v.1
quiet-Holds n m (storing g d i) v q = cc
quiet-Holds n m (stored d) v q = v.1

even-quiet :
    (n : ℕ) (m : Slot) (w : Writer)
    → WriterOk n m w
    → m.guard % 2 ≡ 0
    → m.guard ≡ wrap64 (2 * m.count)
even-quiet n m idle v e = v.0
even-quiet n m (loaded g d) v e = v.0
even-quiet n m (storing g d i) v e = absurd (omega arith)
even-quiet n m (stored d) v e = v.0

-- A guard that has come back to its value, with fewer than 2 ^ 63 publishes between, has not moved.
unmoved :
    (n : ℕ) (m : Slot) (w : Writer) (c : ℕ)
    → WriterOk n m w
    → m.guard ≡ wrap64 (2 * c)
    → c ≤ m.count
    → m.count < c + 2 ^ 63
    → (m.count ≡ c) × (quiet w ≡ true)
unmoved n m idle c v e lo hi = (omega arith, refl)
unmoved n m (loaded g d) c v e lo hi = (omega arith, refl)
unmoved n m (storing g d i) c v e lo hi = absurd (omega arith)
unmoved n m (stored d) c v e lo hi = (omega arith, refl)

next_round-ReaderOk :
    (n : ℕ) (m : Slot) (w : Writer) (max_retry k b : ℕ)
    → 0 < b
    → b ≤ m.count
    → ReaderOk n m w (next_round max_retry k b)
next_round-ReaderOk n m w max_retry k b h le = elim (Bool-cases (ltb k max_retry)) [
  | inl more ↦ rw more (h, le)
  | inr last ↦ rw last tt
]

copied :
    (n : ℕ) (m : Slot) (c i : ℕ) (t : Desc)
    → m.count ≡ c
    → i < n
    → Holds n m (m.hist m.count)
    → ((j : ℕ) → j < i → t j ≡ m.hist c j)
    → (j : ℕ) → j < suc i
    → update t i (m.word i) j ≡ m.hist c j
copied n m c i t e h holds before j lt = ground (arith, holds i h, before j)

ReaderMove-ReaderOk :
    {n max_retry : ℕ} {m : Slot} {r r' : Reader} (w : Writer)
    → ReaderMove n max_retry m r r'
    → (m.ready ≡ true → 0 < m.count)
    → WriterOk n m w
    → ReaderOk n m w r
    → ReaderOk n m w r'
ReaderMove-ReaderOk w (no_data e) ready wv v = tt
ReaderMove-ReaderOk w (has_data e) ready wv v = (ready e, omega arith)
ReaderMove-ReaderOk {n = n} {max_retry = x} {m = m} w (odd {k = k} {b = b} e) ready wv v =
    next_round-ReaderOk n m w x k b v.0 v.1
ReaderMove-ReaderOk {n = n} {m = m} w (even e) ready wv v =
    (v.0, v.1, omega arith, even-quiet n m w wv e, omega arith, λ c q j h. absurd (omega arith))
ReaderMove-ReaderOk {n = n} {m = m} w (copy_word {c = c} {i = i} {t = t} h) ready wv v = (
  v.0,
  v.1,
  v.2,
  v.3,
  omega arith,
  λ e q. copied n m c i t e h (quiet-Holds n m w wv q) (v.5 e q),
)
ReaderMove-ReaderOk {n = n} {m = m} w (accept {c = c} at same) ready wv v = (
  v.0,
  v.1,
  v.2,
  omega arith,
  λ few j lt.
      let still = unmoved n m w c wv (same ∙ v.3) v.2 few in v.5 still.0 still.1 j (rw at lt),
)
ReaderMove-ReaderOk {n = n} {max_retry = x} {m = m} w (reject {k = k} {b = b} at moved) ready wv v =
    next_round-ReaderOk n m w x k b v.0 (omega arith)
ReaderMove-ReaderOk w call_again ready wv v = tt
ReaderMove-ReaderOk w call_after_failure ready wv v = tt

pub Step-Inv :
    {n max_retry : ℕ} {s t : System}
    → Step n max_retry s t
    → Inv n s.mem s.writer s.reader
    → Inv n t.mem t.writer t.reader
Step-Inv {s = s} (writes mv) v = record {
  published = WriterMove-published mv v.published v.writer_ok;
  writer_ok = WriterMove-WriterOk mv v.writer_ok;
  reader_ok = WriterMove-ReaderOk mv s.reader v.reader_ok;
}
Step-Inv {s = s} (reads mv) v = record {
  published = v.published;
  writer_ok = v.writer_ok;
  reader_ok = ReaderMove-ReaderOk s.writer mv v.published v.writer_ok v.reader_ok;
}

pub Reach-Inv : {n max_retry : ℕ} {s : System} → Reach n max_retry s → Inv n s.mem s.writer s.reader
Reach-Inv start = record {
  published = λ e. cc;
  writer_ok = (omega arith, λ j h. refl);
  reader_ok = tt;
}
Reach-Inv (later r st) = Step-Inv st (Reach-Inv r)
