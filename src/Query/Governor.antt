-- ===== src/Query/Governor.antt =====
-- internal/query/governor.go: admission. A buffered channel that is used as a semaphore is its
-- capacity and the number of values in it; a channel is made once for its key and never removed,
-- so the key stands for it. `uuid_string` renders a uuid.
--
-- `Admit` and the release that it returns block and give way to other goroutines at each channel
-- operation. A call is a `Ticket`, whose stage is the operation that it has come to, and `advance`
-- is one step of it.
pub mod Slots
pub mod Sizes
pub mod Admission
use pivot.Common.{
  ℕ, ◌+◌, ◌-◌, Bool, true, false, Option, none, some, List, [], ◌∷◌, ◌++◌, Text, codes, text_eq,
  ltb, lookup, insert, if◌then◌else◌,
}
use pivot.Tenant.{Uuid}

abbrev pub default_max_per_user : ℕ
default_max_per_user = 4

abbrev pub default_max_per_connection : ℕ
default_max_per_connection = 16

-- Ten seconds, in nanoseconds.
abbrev pub default_queue_wait : ℕ
default_queue_wait = 10_000_000_000

-- A `chan struct{}`.
pub record Slot : Type 0 where
  pub size : ℕ
  pub held : ℕ

pub record Governor : Type 0 where
  pub per_user : ℕ
  pub per_connection : ℕ
  pub wait : ℕ
  pub slots : List (Text × Slot)

unfoldable pub with_per_user : ℕ → Governor → Governor
with_per_user n g = if ltb 0 n then record g { per_user = n } else g

unfoldable pub with_per_connection : ℕ → Governor → Governor
with_per_connection n g = if ltb 0 n then record g { per_connection = n } else g

unfoldable pub with_queue_wait : ℕ → Governor → Governor
with_queue_wait d g = if ltb 0 d then record g { wait = d } else g

unfoldable pub apply_options : List (Governor → Governor) → Governor → Governor
apply_options [] g = g
apply_options (opt ∷ opts) g = apply_options opts (opt g)

unfoldable pub new_governor : List (Governor → Governor) → Governor
new_governor opts = apply_options opts (record {
  per_user = default_max_per_user;
  per_connection = default_max_per_connection;
  wait = default_queue_wait;
  slots = [];
})

unfoldable pub limits : Governor → ℕ × ℕ × ℕ
limits g = (g.per_user, g.per_connection, g.wait)

-- `slot`: the channel of a key, made on first use.
unfoldable pub slot : Governor → Text → ℕ → Governor
slot g key size = elim (lookup key g.slots) [
  | some existing ↦ g
  | none ↦ record g { slots = insert key (record { size = size; held = 0 }) g.slots }
]

-- A send on the channel of a key; `none` while it would block.
unfoldable pub take : Governor → Text → Option Governor
take g key = elim (lookup key g.slots) [
  | none ↦ none
  | some s ↦
      if ltb s.held s.size
      then some (record g { slots = insert key (record s { held = s.held + 1 }) g.slots })
      else none
]

-- A receive from the channel of a key; `none` while it would block.
unfoldable pub give : Governor → Text → Option Governor
give g key = elim (lookup key g.slots) [
  | none ↦ none
  | some s ↦
      if ltb 0 s.held
      then some (record g { slots = insert key (record s { held = s.held - 1 }) g.slots })
      else none
]

unfoldable pub user_key : (Uuid → Text) → Uuid → Uuid → Uuid → Text
user_key uuid_string org user connection =
    codes "u|"
    ++ (uuid_string org
        ++ (codes "|" ++ (uuid_string user ++ (codes "|" ++ uuid_string connection))))

unfoldable pub connection_key : (Uuid → Text) → Uuid → Uuid → Text
connection_key uuid_string org connection =
    codes "c|" ++ (uuid_string org ++ (codes "|" ++ uuid_string connection))

-- How far a call of `Admit` and its release have come: waiting for the user's slot, waiting for
-- the connection's with the user's held, running, between the two receives of the release, over.
pub data Stage : Type 0 where
  queued holding_user running closing over : Stage

pub record Ticket : Type 0 where
  pub user : Text
  pub connection : Text
  pub stage : Stage

-- What happens to a call: the channel takes its send, it stops waiting (its context ends or the
-- timer fires), or its query ends and the release is called.
pub data Event : Type 0 where
  got_slot gave_up ended : Event

-- The start of `Admit`: the user's channel is looked up, and the wait begins.
unfoldable pub arrive : (Uuid → Text) → Governor → Uuid → Uuid → Uuid → Governor × Ticket
arrive uuid_string g org user connection =
    let key = user_key uuid_string org user connection in
    (
      slot g key g.per_user,
      record { user = key; connection = connection_key uuid_string org connection; stage = queued },
    )

abbrev pub at_stage : Stage → Ticket → Option Governor → Option (Governor × Ticket)
at_stage next t none = none
at_stage next t (some g) = some (g, record t { stage = next })

-- One step of a call at a stage. `sync.Once` makes a release after the first do nothing.
unfoldable pub step_at : Stage → Event → Governor → Ticket → Option (Governor × Ticket)
step_at queued got_slot g t = elim (take g t.user) [
  | none ↦ none
  | some g' ↦ some (slot g' t.connection g'.per_connection, record t { stage = holding_user })
]
step_at queued gave_up g t = some (g, record t { stage = over })
step_at holding_user got_slot g t = at_stage running t (take g t.connection)
step_at holding_user gave_up g t = at_stage over t (give g t.user)
step_at running ended g t = at_stage closing t (give g t.connection)
step_at closing ended g t = at_stage over t (give g t.user)
step_at over ended g t = some (g, t)
step_at _ _ g t = none

unfoldable pub advance : Event → Governor → Ticket → Option (Governor × Ticket)
advance e g t = step_at t.stage e g t

-- `InFlight`: the values in the connection's channel.
unfoldable pub in_flight : (Uuid → Text) → Governor → Uuid → Uuid → ℕ
in_flight uuid_string g org connection =
    elim (lookup (connection_key uuid_string org connection) g.slots) [ none ↦ 0 | some s ↦ s.held ]
