-- ===== src/Subscriber/Fences/Window.antt =====
-- Which fences the ring holds: the newest sixteen.
use axon_sdk_for_physical_ai.Common.{
  Bool-cases, ℕ, zero, suc, ◌+◌, ◌-◌, ◌%◌, ◌<◌, ◌≡◌, ◌≢◌, refl, sym, ap, subst, ◌∙◌, List, [], ◌∷◌,
  Option, none, some, arith, Option-cases, inl, inr, length, length-set, get_elem?, get_or,
  replicate, get_or-set_self, get_or-set_ne, if◌then◌else◌, ◌==◌,
}
use axon_sdk_for_physical_ai.Os.{Os}
use axon_sdk_for_physical_ai.Subscriber.Fences.{
  FenceSlot, FenceRing, fence_ring, empty_slot, empty_ring, full_slot, store_fence, find_slot,
  lookup_fence, store_all,
}

-- The slot that the `j`th newest fence is in.
abbrev place : FenceRing → ℕ → ℕ
place r j = (r.fence_next + 15 - j) % 16

-- What the slot of the `j`th newest fence holds, if there have been so many.
abbrev SlotIs : Option (ℕ × ℕ) → FenceSlot → Type 0
SlotIs none s = s.fd ≡ none
SlotIs (some (token, fd)) s = s ≡ full_slot token fd

SlotIs-full :
    (o : Option (ℕ × ℕ)) (s : FenceSlot) (t f : ℕ)
    → SlotIs o s
    → s ≡ full_slot t f
    → o ≡ some (t, f)
SlotIs-full none s t f h e = absurd (let fd = ap (λ x. x.fd) e in ground (arith, fd, h))
SlotIs-full (some (token, fd)) s t f h e =
    let tokens = ap (λ x. x.token) (sym h ∙ e) in
    let fds = ap (λ x. x.fd) (sym h ∙ e) in ground (arith, tokens, fds)

record Holds (recent : List (ℕ × ℕ)) (r : FenceRing) : Type 0 where
  size : length r.fences ≡ 16
  next_lt : r.fence_next < 16
  slot : (j : ℕ) → j < 16 → SlotIs (get_elem? recent j) (get_or r.fences (place r j) empty_slot)

get_empty : (n i : ℕ) → (get_or (replicate n empty_slot) i empty_slot).fd ≡ none
get_empty zero i = refl
get_empty (suc n) zero = refl
get_empty (suc n) (suc i) = get_empty n i

empty_ring-Holds : Holds [] empty_ring
empty_ring-Holds = record {
  size = refl;
  next_lt = omega arith;
  slot = λ j h. get_empty 16 (place empty_ring j);
}

store_fence-Holds :
    (t f : ℕ) (recent : List (ℕ × ℕ)) (r : FenceRing) (s : Os)
    → Holds recent r
    → Holds ((t, f) ∷ recent) (store_fence t f r s).0
unfolding store_fence
store_fence-Holds t f recent r s h = record {
  size = length-set r.fences r.fence_next _ ∙ h.size;
  next_lt = omega arith;
  slot = at;
}
  where
    q : FenceRing
    q = (store_fence t f r s).0

    at :
        (j : ℕ)
        → j < 16
        → SlotIs (get_elem? ((t, f) ∷ recent) j) (get_or q.fences (place q j) empty_slot)
    at zero lt =
        let here : place q 0 ≡ r.fence_next = omega (arith, h.next_lt) in
        let stored : get_or q.fences (place q 0) empty_slot ≡ full_slot t f = rw here (
          get_or-set_self r.fences r.fence_next (full_slot t f) empty_slot
            (omega (arith, h.size, h.next_lt))) in
        stored
    at (suc j) lt =
        let there : place q (suc j) ≡ place r j = omega (arith, h.next_lt) in
        let kept : get_or q.fences (place q (suc j)) empty_slot
            ≡ get_or r.fences (place r j) empty_slot =
          rw there (
            get_or-set_ne r.fences r.fence_next (place r j) (full_slot t f) empty_slot
              (λ e. omega (arith, h.next_lt))) in
        subst (SlotIs (get_elem? recent j)) (sym kept) (h.slot j (omega arith))

store_all-Holds : (fences : List (ℕ × ℕ)) (s : Os) → Holds fences (store_all fences empty_ring s).0
unfolding store_all
store_all-Holds [] s = empty_ring-Holds
store_all-Holds ((t, f) ∷ older) s =
    let before = store_all older empty_ring s in
    store_fence-Holds t f older before.0 before.1 (store_all-Holds older s)

-- A slot that holds a fence.
abbrev SlotAt : List FenceSlot → ℕ → ℕ → ℕ → Type 0
SlotAt slots i t f = (i < length slots) × (get_or slots i empty_slot ≡ full_slot t f)

slot_eq : (t f : ℕ) (s : FenceSlot) → s.token ≡ t → s.fd ≡ some f → s ≡ full_slot t f
slot_eq t f s a b = cc

next_slot :
    (s : FenceSlot) (slots : List FenceSlot) (t f : ℕ)
    → (i : ℕ) × SlotAt slots i t f
    → (i : ℕ) × SlotAt (s ∷ slots) i t f
next_slot s slots t f (i, (lt, e)) = (suc i, (omega arith, e))

find_slot_sound :
    (t f : ℕ) (slots : List FenceSlot) → find_slot t slots ≡ some f → (i : ℕ) × SlotAt slots i t f
unfolding find_slot
find_slot_sound t f [] e = absurd (ground (arith, e))
find_slot_sound t f (s ∷ rest) e = elim (Option-cases s.fd) [
  | inl out ↦ next_slot s rest t f (find_slot_sound t f rest (ground arith))
  | inr (fd, has) ↦ elim (Bool-cases (s.token == t)) [
    | inl hit ↦ (0, (omega arith, slot_eq t f s (ground arith) (ground arith)))
    | inr miss ↦ next_slot s rest t f (find_slot_sound t f rest (ground arith))
  ]
]

find_slot_complete :
    (t f i : ℕ) (slots : List FenceSlot) → SlotAt slots i t f → find_slot t slots ≢ none
unfolding find_slot
find_slot_complete t f i [] h = absurd (omega (arith, h.0))
find_slot_complete t f zero (s ∷ rest) h =
    let token = ap (λ x. x.token) h.1 in
    let fd = ap (λ x. x.fd) h.1 in λ e. ground (arith, token, fd, e)
find_slot_complete t f (suc i) (s ∷ rest) h =
    let later = find_slot_complete t f i rest (omega arith, h.1) in
    elim (Option-cases s.fd) [
      | inl out ↦ λ e. later (ground arith)
      | inr (fd, has) ↦ elim (Bool-cases (s.token == t)) [
        | inl hit ↦ λ e. ground arith
        | inr miss ↦ λ e. later (ground arith)
      ]
    ]

-- The fence of a token among the first `n` of a list.
unfoldable pub find_recent : ℕ → ℕ → List (ℕ × ℕ) → Option ℕ
find_recent zero t fences = none
find_recent (suc n) t [] = none
find_recent (suc n) t ((token, fd) ∷ older) =
    let later = find_recent n t older in if token == t then some fd else later

abbrev RecentAt : List (ℕ × ℕ) → ℕ → ℕ → ℕ → ℕ → Type 0
RecentAt fences n j t f = (j < n) × (get_elem? fences j ≡ some (t, f))

find_recent_sound :
    (n t f : ℕ) (fences : List (ℕ × ℕ))
    → find_recent n t fences ≡ some f
    → (j : ℕ) × RecentAt fences n j t f
unfolding find_recent
find_recent_sound zero t f fences e = absurd (ground (arith, e))
find_recent_sound (suc n) t f [] e = absurd (ground (arith, e))
find_recent_sound (suc n) t f ((token, fd) ∷ older) e = elim (Bool-cases (token == t)) [
  | inl hit ↦ (0, (omega arith, ground arith))
  | inr miss ↦
      let (j, (lt, at)) = find_recent_sound n t f older (ground arith) in (suc j, (omega arith, at))
]

find_recent_complete :
    (n t f j : ℕ) (fences : List (ℕ × ℕ)) → RecentAt fences n j t f → find_recent n t fences ≢ none
unfolding find_recent
find_recent_complete zero t f j fences h = absurd (omega (arith, h.0))
find_recent_complete (suc n) t f j [] h = λ e. ground (arith, h.1)
find_recent_complete (suc n) t f zero ((token, fd) ∷ older) h = λ e. ground (arith, h.1)
find_recent_complete (suc n) t f (suc j) ((token, fd) ∷ older) h =
    let later = find_recent_complete n t f j older (omega arith, h.1) in
    elim (Bool-cases (token == t)) [
      | inl hit ↦ λ e. ground arith
      | inr miss ↦ λ e. later (ground arith)
    ]

-- No token stands twice.
abbrev pub DistinctTokens : List (ℕ × ℕ) → Type 0
DistinctTokens fences =
    (i j t f g : ℕ) → get_elem? fences i ≡ some (t, f) → get_elem? fences j ≡ some (t, g) → i ≡ j

-- The fence that a slot holds is one of the newest sixteen.
slot-recent :
    (i t f : ℕ) (recent : List (ℕ × ℕ)) (r : FenceRing)
    → Holds recent r
    → SlotAt r.fences i t f
    → (j : ℕ) × RecentAt recent 16 j t f
slot-recent i t f recent r h at =
    let j = (r.fence_next + 15 - i) % 16 in
    let lt : j < 16 = omega arith in
    let back : place r j ≡ i = omega (arith, h.next_lt, h.size, at.0) in
    let here : get_or r.fences (place r j) empty_slot ≡ full_slot t f = rw back at.1 in
    (j, (lt, SlotIs-full (get_elem? recent j) _ t f (h.slot j lt) here))

recent-slot :
    (j t f : ℕ) (recent : List (ℕ × ℕ)) (r : FenceRing)
    → Holds recent r
    → RecentAt recent 16 j t f
    → (i : ℕ) × SlotAt r.fences i t f
recent-slot j t f recent r h at =
    let is : SlotIs (some (t, f)) (get_or r.fences (place r j) empty_slot) =
      subst (λ o. SlotIs o (get_or r.fences (place r j) empty_slot)) at.1 (h.slot j at.0) in
    (place r j, (omega (arith, h.size), is))

same_fence :
    (t f g i j : ℕ) (fences : List (ℕ × ℕ))
    → DistinctTokens fences
    → get_elem? fences i ≡ some (t, f)
    → get_elem? fences j ≡ some (t, g)
    → f ≡ g
same_fence t f g i j fences distinct a b =
    let same = distinct i j t f g a b in
    let both : ◌≡◌ {A = Option (ℕ × ℕ)} (some (t, f)) (some (t, g)) =
      sym a ∙ ap (get_elem? fences) same ∙ b in
    ground arith

lookup_fence-Holds :
    (t : ℕ) (recent : List (ℕ × ℕ)) (r : FenceRing)
    → Holds recent r
    → DistinctTokens recent
    → lookup_fence t r ≡ find_recent 16 t recent
unfolding lookup_fence
lookup_fence-Holds t recent r h distinct = elim (Option-cases (find_slot t r.fences)) [
  | inl out ↦ elim (Option-cases (find_recent 16 t recent)) [
    | inl out' ↦ out ∙ sym out'
    | inr (f, e) ↦
        let (j, at) = find_recent_sound 16 t f recent e in
        let (i, slot) = recent-slot j t f recent r h at in
        absurd (find_slot_complete t f i r.fences slot out)
  ]
  | inr (f, e) ↦
      let (i, slot) = find_slot_sound t f r.fences e in
      let (j, at) = slot-recent i t f recent r h slot in
      elim (Option-cases (find_recent 16 t recent)) [
        | inl out' ↦ absurd (find_recent_complete 16 t f j recent at out')
        | inr (g, e') ↦
            let (k, at') = find_recent_sound 16 t g recent e' in
            let same = same_fence t f g j k recent distinct at.1 at'.1 in e ∙ ap some same ∙ sym e'
      ]
]

-- When fences with distinct tokens, listed with the newest first, have been stored in an empty ring one
-- after the other, `lookup_fence` finds a token exactly if its fence is among the sixteen newest, and
-- returns the descriptor stored with it.
pub lookup_fence-store_all :
    (fences : List (ℕ × ℕ)) (t : ℕ) (s : Os)
    → DistinctTokens fences
    → lookup_fence t (store_all fences empty_ring s).0 ≡ find_recent fence_ring t fences
lookup_fence-store_all fences t s distinct =
    lookup_fence-Holds t fences (store_all fences empty_ring s).0 (store_all-Holds fences s)
      distinct
