-- ===== src/Query/Governor/Slots.antt =====
-- The semaphores of the governor hold exactly what the calls of `Admit` hold, and never more than
-- their size.
use pivot.Common.{
  ℕ, ◌+◌, ◌-◌, ◌≡◌, inl, inr, Bool, true, false, none, some, List, [], ◌∷◌, Text, text_eq, ◌==◌,
  lookup, arith, text_beq_iff, lookup-insert, Option-cases,
}
use pivot.Query.Governor.{
  Governor, slot, take, give, Stage, queued, holding_user, running, closing, over, Ticket, Event,
  got_slot, gave_up, ended, step_at,
}

-- The values in the channel of a key.
unfoldable pub held : Governor → Text → ℕ
held g k = elim (lookup k g.slots) [ none ↦ 0 | some s ↦ s.held ]

abbrev pub unit_if : Bool → ℕ
unit_if true = 1
unit_if false = 0

-- What a call holds of the channel of a key.
abbrev pub holds_at : Stage → Ticket → Text → ℕ
holds_at queued t k = 0
holds_at holding_user t k = unit_if (t.user == k)
holds_at running t k = unit_if (t.user == k) + unit_if (t.connection == k)
holds_at closing t k = unit_if (t.user == k)
holds_at over t k = 0

unfoldable pub holds : Ticket → Text → ℕ
holds t k = holds_at t.stage t k

unfoldable pub all_hold : List Ticket → Text → ℕ
all_hold [] k = 0
all_hold (t ∷ ts) k = holds t k + all_hold ts k

pub held-slot : (g : Governor) (j k : Text) (size : ℕ) → held (slot g j size) k ≡ held g k
unfolding held slot
held-slot g j k size =
    ground (arith, text_beq_iff j k, lookup-insert j k (record { size = size; held = 0 }) g.slots)

held-take :
    (g g' : Governor) (j k : Text) → take g j ≡ some g' → held g' k ≡ held g k + unit_if (j == k)
unfolding held take
held-take g g' j k e = elim (Option-cases (lookup j g.slots)) [
  | inl missing ↦ ground arith
  | inr (s, found) ↦
      ground (arith, text_beq_iff j k, lookup-insert j k (record s { held = s.held + 1 }) g.slots)
]

held-give :
    (g g' : Governor) (j k : Text) → give g j ≡ some g' → held g' k + unit_if (j == k) ≡ held g k
unfolding held give
held-give g g' j k e = elim (Option-cases (lookup j g.slots)) [
  | inl missing ↦ ground arith
  | inr (s, found) ↦
      ground (arith, text_beq_iff j k, lookup-insert j k (record s { held = s.held - 1 }) g.slots)
]

-- A step moves between the channels and the call exactly what it says.
pub step_at-balance :
    (s : Stage) (e : Event) (g g' : Governor) (t t' : Ticket) (k : Text)
    → t.stage ≡ s
    → step_at s e g t ≡ some (g', t')
    → held g' k + holds_at s t k ≡ held g k + holds_at t'.stage t' k
unfolding step_at
step_at-balance queued got_slot g g' t t' k at e = elim (Option-cases (take g t.user)) [
  | inl blocked ↦ ground arith
  | inr (h, taken) ↦
      ground (arith, held-take g h t.user k taken, held-slot h t.connection k h.per_connection)
]
step_at-balance holding_user got_slot g g' t t' k at e =
    ground (arith, held-take g g' t.connection k)
step_at-balance holding_user gave_up g g' t t' k at e = ground (arith, held-give g g' t.user k)
step_at-balance running ended g g' t t' k at e = ground (arith, held-give g g' t.connection k)
step_at-balance closing ended g g' t t' k at e = ground (arith, held-give g g' t.user k)
step_at-balance queued gave_up g g' t t' k at e = ground arith
step_at-balance over ended g g' t t' k at e = ground arith
step_at-balance _ _ g g' t t' k at e = ground arith
