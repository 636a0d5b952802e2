-- ===== src/Query/Governor/Sizes.antt =====
-- Each channel keeps the size of its kind, and is never overfull.
use pivot.Common.{
  ℕ, ◌+◌, ◌-◌, ◌≤◌, ◌≡◌, refl, subst, inl, inr, Option, none, some, ◌∷◌, Text, text_eq, lookup,
  insert, arith, text_beq_iff, lookup-insert, Option-cases,
}
use pivot.Query.Governor.{
  Slot, Governor, slot, take, give, Stage, queued, holding_user, running, closing, over, Ticket,
  Event, got_slot, gave_up, ended, at_stage, step_at,
}

-- Every channel was made for its kind of key, and holds no more than its size.
pub record IsSized (g : Governor) : Type 0 where
  pub within : (k : Text) (s : Slot) → lookup k g.slots ≡ some s → s.held ≤ s.size
  pub users : (k : Text) (s : Slot) → lookup (b'u' ∷ k) g.slots ≡ some s → s.size ≡ g.per_user
  pub connections :
      (k : Text) (s : Slot) → lookup (b'c' ∷ k) g.slots ≡ some s → s.size ≡ g.per_connection

-- The keys of a call are those of a user and of a connection.
pub record IsKeyed (t : Ticket) : Type 0 where
  pub user_tail : Text
  pub connection_tail : Text
  pub is_user : t.user ≡ b'u' ∷ user_tail
  pub is_connection : t.connection ≡ b'c' ∷ connection_tail

pub slot-IsSized :
    (g : Governor) (j : Text) (size : ℕ)
    → ((k : Text) → j ≡ b'u' ∷ k → size ≡ g.per_user)
    → ((k : Text) → j ≡ b'c' ∷ k → size ≡ g.per_connection)
    → IsSized g
    → IsSized (slot g j size)
unfolding slot
slot-IsSized g j size u c h = elim (Option-cases (lookup j g.slots)) [
  | inr (s, found) ↦ rw (found, slot) h
  | inl missing ↦
      let laws = λ (k : Text). lookup-insert j k (record { size = size; held = 0 }) g.slots in
      rw (missing, slot)
        (record {
          within = λ k s e. ground (arith, laws k, h.within k s);
          users =
              λ k s e. ground (arith, laws (b'u' ∷ k), text_beq_iff j (b'u' ∷ k), u k, h.users k s);
          connections = λ k s e.
              ground (arith, laws (b'c' ∷ k), text_beq_iff j (b'c' ∷ k), c k, h.connections k s);
        })
]

-- Writing back a channel of the same size, not overfull, keeps the channels sized.
write-IsSized :
    (g : Governor) (j : Text) (s s' : Slot)
    → lookup j g.slots ≡ some s
    → s'.size ≡ s.size
    → s'.held ≤ s'.size
    → IsSized g
    → IsSized (record g { slots = insert j s' g.slots })
write-IsSized g j s s' found same fits h =
    let laws = λ (k : Text). lookup-insert j k s' g.slots in
    record {
      within = λ k r e. ground (arith, laws k, h.within k r);
      users = λ k r e.
          ground (arith, laws (b'u' ∷ k), text_beq_iff j (b'u' ∷ k), h.users k r, h.users k s);
      connections = λ k r e.
          ground (
            arith,
            laws (b'c' ∷ k),
            text_beq_iff j (b'c' ∷ k),
            h.connections k r,
            h.connections k s,
          );
    }

take-IsSized : (g g' : Governor) (j : Text) → take g j ≡ some g' → IsSized g → IsSized g'
unfolding take
take-IsSized g g' j e h = elim (Option-cases (lookup j g.slots)) [
  | inl missing ↦ absurd (ground arith)
  | inr (s, found) ↦
      let same : g' ≡ record g { slots = insert j (record s { held = s.held + 1 }) g.slots } =
        ground arith in
      rw same (write-IsSized g j s (record s { held = s.held + 1 }) found refl (ground arith) h)
]

give-IsSized : (g g' : Governor) (j : Text) → give g j ≡ some g' → IsSized g → IsSized g'
unfolding give
give-IsSized g g' j e h = elim (Option-cases (lookup j g.slots)) [
  | inl missing ↦ absurd (ground arith)
  | inr (s, found) ↦
      let same : g' ≡ record g { slots = insert j (record s { held = s.held - 1 }) g.slots } =
        ground arith in
      rw same (
        write-IsSized g j s (record s { held = s.held - 1 }) found refl
          (ground (arith, h.within j s)) h)
]

-- What a call and the governor are after a step: the channels sized, the call's keys as before.
abbrev pub Kept : Governor → Ticket → Governor → Ticket → Type 0
Kept g t g' t' =
    IsSized g'
    × (t'.user ≡ t.user)
    × (t'.connection ≡ t.connection)
    × (g'.per_user ≡ g.per_user)
    × (g'.per_connection ≡ g.per_connection)

limits-take :
    (g g' : Governor) (j : Text)
    → take g j ≡ some g'
    → (g'.per_user ≡ g.per_user) × (g'.per_connection ≡ g.per_connection)
unfolding take
limits-take g g' j e = ground arith

limits-give :
    (g g' : Governor) (j : Text)
    → give g j ≡ some g'
    → (g'.per_user ≡ g.per_user) × (g'.per_connection ≡ g.per_connection)
unfolding give
limits-give g g' j e = ground arith

pub limits-slot :
    (g : Governor) (j : Text) (n : ℕ)
    → ((slot g j n).per_user ≡ g.per_user) × ((slot g j n).per_connection ≡ g.per_connection)
unfolding slot
limits-slot g j n = ground arith

move-Kept :
    (next : Stage) (t t' : Ticket) (g g' : Governor) (o : Option Governor)
    → ((h : Governor)
        → o ≡ some h
        → IsSized h × ((h.per_user ≡ g.per_user) × (h.per_connection ≡ g.per_connection)))
    → at_stage next t o ≡ some (g', t')
    → Kept g t g' t'
move-Kept next t t' g g' none f e = cc
move-Kept next t t' g g' (some h) f e =
    let (sized, same_limits) = f h refl in
    let same : h ≡ g' = ground arith in
    (subst IsSized same sized, ground arith, ground arith, ground arith, ground arith)

pub step_at-Kept :
    (s : Stage) (e : Event) (g g' : Governor) (t t' : Ticket)
    → IsKeyed t
    → IsSized g
    → step_at s e g t ≡ some (g', t')
    → Kept g t g' t'
unfolding step_at
step_at-Kept queued got_slot g g' t t' keyed h e = elim (Option-cases (take g t.user)) [
  | inl blocked ↦ absurd (ground arith)
  | inr (m, taken) ↦
      let made =
        slot-IsSized m t.connection m.per_connection
          (λ k same. absurd (ground (arith, keyed.is_connection))) (λ k same. refl)
          (take-IsSized g m t.user taken h) in
      let same : g' ≡ slot m t.connection m.per_connection = ground arith in
      (
        rw same made,
        ground arith,
        ground arith,
        ground (arith, limits-take g m t.user taken, limits-slot m t.connection m.per_connection),
        ground (arith, limits-take g m t.user taken, limits-slot m t.connection m.per_connection),
      )
]
step_at-Kept holding_user got_slot g g' t t' keyed h e =
    move-Kept running t t' g g' (take g t.connection)
      (λ m o. (take-IsSized g m t.connection o h, limits-take g m t.connection o)) e
step_at-Kept holding_user gave_up g g' t t' keyed h e =
    move-Kept over t t' g g' (give g t.user)
      (λ m o. (give-IsSized g m t.user o h, limits-give g m t.user o)) e
step_at-Kept running ended g g' t t' keyed h e =
    move-Kept closing t t' g g' (give g t.connection)
      (λ m o. (give-IsSized g m t.connection o h, limits-give g m t.connection o)) e
step_at-Kept closing ended g g' t t' keyed h e =
    move-Kept over t t' g g' (give g t.user)
      (λ m o. (give-IsSized g m t.user o h, limits-give g m t.user o)) e
step_at-Kept queued gave_up g g' t t' keyed h e =
    (subst IsSized (ground arith) h, ground arith, ground arith, ground arith, ground arith)
step_at-Kept over ended g g' t t' keyed h e =
    (subst IsSized (ground arith) h, ground arith, ground arith, ground arith, ground arith)
step_at-Kept _ _ g g' t t' keyed h e = absurd (ground arith)
