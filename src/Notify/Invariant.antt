-- ===== src/Notify/Invariant.antt =====
-- What the counter, the flag and each consumer's place say of one another, if no consumer raises the
-- flag while a publish stands between its two atomic operations.
use native.Mathlib.Decide.{ℕ_discrete}
use mathlib.Core.Logic.{if_pos, if_neg}
use axon_sdk_for_physical_ai.Common.{
  subst, ℕ, ◌+◌, ◌^◌, ◌≤◌, ◌<◌, ◌≡◌, ◌≢◌, ◌⊎◌, inl, inr, refl, true, false, wrap32, arith,
}
use axon_sdk_for_physical_ai.Common.Family.{update}
use axon_sdk_for_physical_ai.Notify.{
  idle, bumped, took, Place, active, looking, raised, checked, asleep, Consumer, System, awaken,
  move, see, Step, bump, take_flag, wake, no_wake, look, commit, skip, raise, has_update, no_update,
  timed_out, value_moved, sleep, interrupted, Reach, start, later,
}

-- The counter moved on since `c` loaded it, or the flag is up and the next bump is still to come.
abbrev pub Alert : System → Consumer → Type 0
Alert s c = ((s.waiters ≡ true) × (s.publisher ≢ bumped)) ⊎ (c.seen_at < s.bumps)

-- A sleeper has nothing to miss, or will be woken, or the counter has come full circle.
abbrev pub Covered : System → Consumer → Type 0
Covered s c =
    ((s.waiters ≡ true) × (s.bumps ≡ c.seen_at))
    ⊎ ((s.waiters ≡ true) × (s.publisher ≡ bumped))
    ⊎ (s.publisher ≡ took true)
    ⊎ (c.seen_at + 2 ^ 32 ≤ s.bumps)

abbrev pub PlaceOk : System → Consumer → Place → Type 0
PlaceOk s c active = Unit {0}
PlaceOk s c (looking v v_at) = (v ≡ wrap32 v_at) × (v_at ≤ s.bumps)
PlaceOk s c raised = Alert s c
PlaceOk s c checked = Alert s c
PlaceOk s c asleep = Covered s c

pub record ConsumerOk (s : System) (c : Consumer) : Type 0 where
  pub loaded : c.seen ≡ wrap32 c.seen_at
  pub past : c.seen_at ≤ s.bumps
  pub place_ok : PlaceOk s c c.place

pub record Inv (s : System) : Type 0 where
  pub counted : s.notify ≡ wrap32 s.bumps
  pub consumers : (j : ℕ) → ConsumerOk s (s.consumer j)

-- A step of the publisher keeps what is said of a consumer that it leaves alone.
publisher-ConsumerOk :
    (s t : System) (c : Consumer)
    → ConsumerOk s c
    → s.bumps ≤ t.bumps
    → (Alert s c → Alert t c)
    → (Covered s c → Covered t c)
    → ConsumerOk t c
publisher-ConsumerOk s t c v le alert covered = record {
  loaded = v.loaded;
  past = omega (arith, v.past);
  place_ok = go c.place v.place_ok;
}
  where
    go : (p : Place) → PlaceOk s c p → PlaceOk t c p
    go active h = tt
    go (looking x x_at) h = (h.0, omega (arith, h.1))
    go raised h = alert h
    go checked h = alert h
    go asleep h = covered h

bump-ConsumerOk :
    (s : System) (c : Consumer)
    → s.publisher ≡ idle
    → ConsumerOk s c
    → ConsumerOk
        (record s { notify = wrap32 (s.notify + 1); bumps = s.bumps + 1; publisher = bumped })
        c
bump-ConsumerOk s c e v =
    publisher-ConsumerOk s _ c v (omega arith) (λ h. inr (omega (arith, v.past)))
      (λ h. ground arith)

take_flag-ConsumerOk :
    (s : System) (c : Consumer)
    → s.publisher ≡ bumped
    → ConsumerOk s c
    → ConsumerOk (record s { waiters = false; publisher = took s.waiters }) c
take_flag-ConsumerOk s c e v =
    publisher-ConsumerOk s _ c v (omega arith) (λ h. ground arith) (λ h. ground arith)

no_wake-ConsumerOk :
    (s : System) (c : Consumer)
    → s.publisher ≡ took false
    → ConsumerOk s c
    → ConsumerOk (record s { publisher = idle }) c
no_wake-ConsumerOk s c e v =
    publisher-ConsumerOk s _ c v (omega arith) (λ h. ground arith) (λ h. ground arith)

abbrev consumer_at : Place → ℕ → ℕ → Consumer
consumer_at p x x_at = record { place = p; seen = x; seen_at = x_at }

awaken-ConsumerOk :
    (s : System) (p : Place) (x x_at : ℕ)
    → s.publisher ≡ took true
    → ConsumerOk s (consumer_at p x x_at)
    → ConsumerOk
        (record s { publisher = idle; consumer = λ j. awaken (s.consumer j) })
        (awaken (consumer_at p x x_at))
awaken-ConsumerOk s active x x_at e v = record { loaded = v.loaded; past = v.past; place_ok = tt }
awaken-ConsumerOk s (looking y y_at) x x_at e v = record {
  loaded = v.loaded;
  past = v.past;
  place_ok = v.place_ok;
}
awaken-ConsumerOk s raised x x_at e v = record {
  loaded = v.loaded;
  past = v.past;
  place_ok = ground arith;
}
awaken-ConsumerOk s checked x x_at e v = record {
  loaded = v.loaded;
  past = v.past;
  place_ok = ground arith;
}
awaken-ConsumerOk s asleep x x_at e v = record { loaded = v.loaded; past = v.past; place_ok = tt }

-- The flag going up, outside the window, keeps what is said of each consumer.
flag_up-ConsumerOk :
    (s : System) (f : ℕ → Consumer) (c : Consumer)
    → s.publisher ≢ bumped
    → ConsumerOk s c
    → ConsumerOk (record s { consumer = f; waiters = true }) c
flag_up-ConsumerOk s f c h v =
    publisher-ConsumerOk s _ c v (omega arith) (λ a. ground arith) (λ a. ground arith)

-- A step of consumer `j` changes no shared field.
moved-ConsumerOk :
    (s : System) (f : ℕ → Consumer) (c : Consumer)
    → ConsumerOk s c
    → ConsumerOk (record s { consumer = f }) c
moved-ConsumerOk s f c v = publisher-ConsumerOk s _ c v (omega arith) (λ a. a) (λ a. a)

-- What `update` at `j` leaves to prove.
update-ConsumerOk :
    (t : System) (f : ℕ → Consumer) (j : ℕ) (c : Consumer)
    → ConsumerOk t c
    → ((i : ℕ) → ConsumerOk t (f i))
    → (i : ℕ) → ConsumerOk t (update f j c i)
update-ConsumerOk t f j c v others i = elim (ℕ_discrete j i) [
  | yes e ↦ rw (if_pos _ e) v
  | no d ↦ rw (if_neg _ d) (others i)
]

-- Consumer `j` goes to the place `p`.
move-Inv :
    (s : System) (j : ℕ) (p : Place)
    → Inv s
    → PlaceOk s (record (s.consumer j) { place = p }) p
    → Inv (move s j p)
move-Inv s j p v h = record {
  counted = v.counted;
  consumers =
      update-ConsumerOk _ s.consumer j _ (moved-ConsumerOk s _ _ here)
        λ i. moved-ConsumerOk s _ (s.consumer i) (v.consumers i);
}
  where
    here : ConsumerOk s (record (s.consumer j) { place = p })
    here = record { loaded = (v.consumers j).loaded; past = (v.consumers j).past; place_ok = h }

-- What is known of consumer `j`, once its place is.
pub at_place :
    (s : System) (j : ℕ) (p : Place) → Inv s → (s.consumer j).place ≡ p → PlaceOk s (s.consumer j) p
at_place s j p v e = subst (PlaceOk s (s.consumer j)) e (v.consumers j).place_ok

commit-Inv :
    (s : System) (j x x_at : ℕ)
    → Inv s
    → (s.consumer j).place ≡ looking x x_at
    → Inv (see s j x x_at)
commit-Inv s j x x_at v e = record {
  counted = v.counted;
  consumers =
      update-ConsumerOk _ s.consumer j _ (moved-ConsumerOk s _ _ here)
        λ i. moved-ConsumerOk s _ (s.consumer i) (v.consumers i);
}
  where
    known : PlaceOk s (s.consumer j) (looking x x_at)
    known = at_place s j _ v e

    here : ConsumerOk s (consumer_at active x x_at)
    here = record { loaded = known.0; past = known.1; place_ok = tt }

raise-Inv :
    (s : System) (j : ℕ)
    → Inv s
    → s.publisher ≢ bumped
    → Inv (record (move s j raised) { waiters = true })
raise-Inv s j v calm = record {
  counted = v.counted;
  consumers =
      update-ConsumerOk _ s.consumer j _ here
        λ i. flag_up-ConsumerOk s _ (s.consumer i) calm (v.consumers i);
}
  where
    here :
        ConsumerOk
          (record (move s j raised) { waiters = true })
          (record (s.consumer j) { place = raised })
    here = record {
      loaded = (v.consumers j).loaded;
      past = (v.consumers j).past;
      place_ok = inl (refl, calm);
    }

-- A consumer falls asleep at the counter's value that it has seen.
asleep-Covered :
    (s : System) (c : Consumer)
    → Inv s
    → ConsumerOk s c
    → Alert s c
    → s.notify ≡ c.seen
    → Covered s c
asleep-Covered s c v w a e = go a
  where
    came_round : (s.bumps ≡ c.seen_at) ⊎ (c.seen_at + 2 ^ 32 ≤ s.bumps)
    came_round = omega (arith, v.counted, w.loaded, w.past)

    go : Alert s c → Covered s c
    go (inl (up, calm)) = ground (arith, came_round)
    go (inr moved) = ground (arith, came_round)

pub Step-Inv : {s t : System} → Step true s t → Inv s → Inv t
Step-Inv {s = s} (bump e) v = record {
  counted = omega (arith, v.counted);
  consumers = λ j. bump-ConsumerOk s (s.consumer j) e (v.consumers j);
}
Step-Inv {s = s} (take_flag e) v = record {
  counted = v.counted;
  consumers = λ j. take_flag-ConsumerOk s (s.consumer j) e (v.consumers j);
}
Step-Inv {s = s} (wake e) v = record {
  counted = v.counted;
  consumers =
      λ j. let c = s.consumer j in awaken-ConsumerOk s c.place c.seen c.seen_at e (v.consumers j);
}
Step-Inv {s = s} (no_wake e) v = record {
  counted = v.counted;
  consumers = λ j. no_wake-ConsumerOk s (s.consumer j) e (v.consumers j);
}
Step-Inv {s = s} (look j e) v = move-Inv s j _ v (v.counted, omega arith)
Step-Inv {s = s} (commit j e) v = commit-Inv s j _ _ v e
Step-Inv {s = s} (skip j e) v = move-Inv s j _ v tt
Step-Inv {s = s} (raise j e calm) v = raise-Inv s j v (calm refl)
Step-Inv {s = s} (has_update j e moved) v = move-Inv s j _ v tt
Step-Inv {s = s} (no_update j e same) v = move-Inv s j _ v (at_place s j _ v e)
Step-Inv {s = s} (timed_out j e) v = move-Inv s j _ v tt
Step-Inv {s = s} (value_moved j e moved) v = move-Inv s j _ v tt
Step-Inv {s = s} (sleep j e same) v =
    move-Inv s j _ v (asleep-Covered s (s.consumer j) v (v.consumers j) (at_place s j _ v e) same)
Step-Inv {s = s} (interrupted j e) v = move-Inv s j _ v tt

pub Reach-Inv : {s : System} → Reach true s → Inv s
Reach-Inv start = record {
  counted = refl;
  consumers = λ j. record { loaded = refl; past = omega arith; place_ok = tt };
}
Reach-Inv (later r st) = Step-Inv st (Reach-Inv r)
