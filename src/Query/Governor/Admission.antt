-- ===== src/Query/Governor/Admission.antt =====
-- Every interleaving of calls of `Admit` and of their releases.
use pivot.Common.{
  ℕ, ◌+◌, ◌≤◌, ◌<◌, ◌≡◌, ◌≢◌, refl, ap, subst, ◌⊎◌, ◌∙◌, inl, inr, none, some, List, [], ◌∷◌, ◌++◌,
  Text, text_eq, ◌==◌, lookup, arith, text_beq_iff, All, All-append, All-append_left,
  All-append_right, Option-cases,
}
use pivot.Tenant.{Uuid}
use pivot.Query.Governor.{
  Slot, Governor, give, Stage, running, closing, over, Ticket, Event, ended, at_stage, arrive,
  advance, step_at, user_key, connection_key, new_governor, default_queue_wait, apply_options,
  with_per_user, with_per_connection,
}
use pivot.Query.Governor.Slots.{
  held, held-slot, unit_if, holds_at, holds, all_hold, step_at-balance,
}
use pivot.Query.Governor.Sizes.{IsSized, IsKeyed, slot-IsSized, limits-slot, step_at-Kept}

-- The governor, and the calls that were made.
pub record System : Type 0 where
  pub governor : Governor
  pub tickets : List Ticket

unfoldable pub start : ℕ → ℕ → System
start users connections = record {
  governor = new_governor (with_per_user users ∷ with_per_connection connections ∷ []);
  tickets = [];
}

module _ (uuid_string : Uuid → Text) where
  pub data Step (s : System) : System → Type 0 where
    -- a call of `Admit` begins
    arrives :
        (org user connection : Uuid)
        → Step s (record {
          governor = (arrive uuid_string s.governor org user connection).0;
          tickets = (arrive uuid_string s.governor org user connection).1 ∷ s.tickets;
        })
    -- a call takes a step
    moves :
        (before after : List Ticket) (t t' : Ticket) (e : Event) (g : Governor)
        → s.tickets ≡ before ++ (t ∷ after)
        → advance e s.governor t ≡ some (g, t')
        → Step s (record { governor = g; tickets = before ++ (t' ∷ after) })

  pub data Reach (s : System) : System → Type 0 where
    here : Reach s s
    next : {t u : System} → Reach s t → Step t u → Reach s u

pub record Inv (users connections : ℕ) (s : System) : Type 0 where
  pub sized : IsSized s.governor
  pub keyed : All IsKeyed s.tickets
  pub balanced : (k : Text) → held s.governor k ≡ all_hold s.tickets k
  pub users_limit : s.governor.per_user ≡ users
  pub connections_limit : s.governor.per_connection ≡ connections

all_hold-append :
    (ts us : List Ticket) (k : Text) → all_hold (ts ++ us) k ≡ all_hold ts k + all_hold us k
unfolding all_hold
all_hold-append [] us k = omega arith
all_hold-append (t ∷ ts) us k = omega (arith, all_hold-append ts us k)

module _ {users connections : ℕ} where
  arrives-Inv :
      (uuid_string : Uuid → Text) (s : System) (org user connection : Uuid)
      → Inv users connections s
      → Inv users connections (record {
        governor = (arrive uuid_string s.governor org user connection).0;
        tickets = (arrive uuid_string s.governor org user connection).1 ∷ s.tickets;
      })
  unfolding arrive all_hold holds user_key connection_key
  arrives-Inv uuid_string s org user connection inv =
      let key = user_key uuid_string org user connection in
      let made = limits-slot s.governor key s.governor.per_user in
      record {
        sized =
            slot-IsSized s.governor key s.governor.per_user (λ k same. refl)
              (λ k same. absurd (ground arith)) inv.sized;
        keyed = (
          record { user_tail = _; connection_tail = _; is_user = refl; is_connection = refl },
          inv.keyed,
        );
        balanced =
            λ k. omega (arith, held-slot s.governor key k s.governor.per_user, inv.balanced k);
        users_limit = made.0 ∙ inv.users_limit;
        connections_limit = made.1 ∙ inv.connections_limit;
      }

  moves-Inv :
      (s : System) (before after : List Ticket) (t t' : Ticket) (e : Event) (g : Governor)
      → s.tickets ≡ before ++ (t ∷ after)
      → advance e s.governor t ≡ some (g, t')
      → Inv users connections s
      → Inv users connections (record { governor = g; tickets = before ++ (t' ∷ after) })
  moves-Inv s before after t t' e g split step inv =
      let all : All IsKeyed (before ++ (t ∷ after)) = subst (All IsKeyed) split inv.keyed in
      let mine = (All-append_right IsKeyed before (t ∷ after) all).0 in
      let stepped : step_at t.stage e s.governor t ≡ some (g, t') = unfold advance in step in
      let kept = step_at-Kept t.stage e s.governor g t t' mine inv.sized stepped in
      record {
        sized = kept.0;
        keyed =
            All-append IsKeyed before (t' ∷ after) (All-append_left IsKeyed before (t ∷ after) all)
              (
                record {
                  user_tail = mine.user_tail;
                  connection_tail = mine.connection_tail;
                  is_user = kept.1 ∙ mine.is_user;
                  is_connection = kept.2 ∙ mine.is_connection;
                },
                (All-append_right IsKeyed before (t ∷ after) all).1,
              );
        balanced = λ k.
            unfold all_hold holds in
            omega (
              arith,
              step_at-balance t.stage e s.governor g t t' k refl stepped,
              inv.balanced k,
              ap (λ (ts : List Ticket). all_hold ts k) split,
              all_hold-append before (t ∷ after) k,
              all_hold-append before (t' ∷ after) k,
            );
        users_limit = kept.3 ∙ inv.users_limit;
        connections_limit = kept.4 ∙ inv.connections_limit;
      }

Step-Inv :
    {us : Uuid → Text} {users connections : ℕ} {s t : System}
    → Step us s t
    → Inv users connections s
    → Inv users connections t
Step-Inv {us} {s} (arrives org user connection) inv = arrives-Inv us s org user connection inv
Step-Inv {us} {s} (moves before after t t' e g split step) inv =
    moves-Inv s before after t t' e g split step inv

-- A governor of the given limits, with no channel made.
abbrev fresh_system : ℕ → ℕ → System
fresh_system users connections = record {
  governor = record {
    per_user = users;
    per_connection = connections;
    wait = default_queue_wait;
    slots = [];
  };
  tickets = [];
}

start-fresh_system :
    (users connections : ℕ)
    → 0 < users
    → 0 < connections
    → start users connections ≡ fresh_system users connections
unfolding start new_governor apply_options with_per_user with_per_connection
start-fresh_system users connections u c = ground arith

fresh_system-Inv : (users connections : ℕ) → Inv users connections (fresh_system users connections)
unfolding held all_hold lookup
fresh_system-Inv users connections = record {
  sized = record { within = λ k s e. cc; users = λ k s e. cc; connections = λ k s e. cc };
  keyed = tt;
  balanced = λ k. refl;
  users_limit = refl;
  connections_limit = refl;
}

start-Inv :
    (users connections : ℕ)
    → 0 < users
    → 0 < connections
    → Inv users connections (start users connections)
start-Inv users connections u c =
    rw (start-fresh_system users connections u c) (fresh_system-Inv users connections)

pub Reach-Inv :
    {us : Uuid → Text} {users connections : ℕ} {s t : System}
    → Reach us s t
    → Inv users connections s
    → Inv users connections t
Reach-Inv here inv = inv
Reach-Inv (next r step) inv = Step-Inv step (Reach-Inv r inv)

held-size :
    (g : Governor) (k : Text) (n : ℕ)
    → ((s : Slot) → lookup k g.slots ≡ some s → s.held ≤ n)
    → held g k ≤ n
unfolding held
held-size g k n h = elim (Option-cases (lookup k g.slots)) [
  | inl missing ↦ ground arith
  | inr (s, found) ↦ ground (arith, h s found)
]

all_hold_over :
    (ts : List Ticket) (k : Text) → All (λ (t : Ticket). t.stage ≡ over) ts → all_hold ts k ≡ 0
unfolding all_hold holds
all_hold_over [] k done = refl
all_hold_over (t ∷ ts) k done =
    omega (arith, ap (λ (st : Stage). holds_at st t k) done.0, all_hold_over ts k done.1)

-- A channel that holds something can be received from.
given :
    (g : Governor) (t : Ticket) (after : Stage) (k : Text)
    → 0 < held g k
    → at_stage after t (give g k) ≢ none
unfolding held give
given g t after k h = elim (Option-cases (lookup k g.slots)) [
  | inl missing ↦ absurd (ground arith)
  | inr (s, found) ↦ λ e. ground arith
]

holds_own : (k : Text) → unit_if (k == k) ≡ 1
holds_own k = ground (arith, text_beq_iff k k)

module _ (us : Uuid → Text) (users connections : ℕ) (some_user : 0 < users)
    (some_connection : 0 < connections) (s : System)
    (reach : Reach us (start users connections) s) where
  reached : Inv users connections s
  reached = Reach-Inv reach (start-Inv users connections some_user some_connection)

  -- However calls interleave, the calls that hold a slot for one user on one connection are never
  -- more than the per-user limit, and those that hold one for one connection never more than the
  -- per-connection limit, if both limits are above zero.
  pub admitted-within :
      (tail : Text)
      → (all_hold s.tickets (b'u' ∷ tail) ≤ users)
        × (all_hold s.tickets (b'c' ∷ tail) ≤ connections)
  admitted-within tail =
      let inv = reached in
      let sized = inv.sized in
      (
        omega (
          arith,
          inv.balanced (b'u' ∷ tail),
          held-size s.governor (b'u' ∷ tail) users
              (λ r e. omega (arith, sized.within _ r e, sized.users tail r e, inv.users_limit)),
        ),
        omega (
          arith,
          inv.balanced (b'c' ∷ tail),
          held-size s.governor (b'c' ∷ tail) connections (λ r e.
              omega (arith, sized.within _ r e, sized.connections tail r e, inv.connections_limit)),
        ),
      )

  -- When every call is over, no slot is held: none is leaked, however the calls ended.
  pub held_when_over :
      All (λ (t : Ticket). t.stage ≡ over) s.tickets → (k : Text) → held s.governor k ≡ 0
  held_when_over done k = reached.balanced k ∙ all_hold_over s.tickets k done

  -- A release never blocks: a call whose query runs gives both its slots back as soon as it asks
  -- to, whatever the other calls do.
  pub release-never_blocks :
      (before after : List Ticket) (t : Ticket)
      → s.tickets ≡ before ++ (t ∷ after)
      → (t.stage ≡ running) ⊎ (t.stage ≡ closing)
      → advance ended s.governor t ≢ none
  unfolding advance step_at give
  release-never_blocks before after t split stage =
      let inv = reached in
      let shared = λ (k : Text). ap (λ (ts : List Ticket). all_hold ts k) split in
      let parts = λ (k : Text). all_hold-append before (t ∷ after) k in
      unfold all_hold holds in
      elim stage [
        | inl is_running ↦
            rw (is_running, step_at)
              (given s.governor t closing t.connection (
                omega (
                  arith,
                  inv.balanced t.connection,
                  shared t.connection,
                  parts t.connection,
                  ap (λ (st : Stage). holds_at st t t.connection) is_running,
                  holds_own t.connection,
                )))
        | inr is_closing ↦
            rw (is_closing, step_at)
              (given s.governor t over t.user (
                omega (
                  arith,
                  inv.balanced t.user,
                  shared t.user,
                  parts t.user,
                  ap (λ (st : Stage). holds_at st t t.user) is_closing,
                  holds_own t.user,
                )))
      ]
