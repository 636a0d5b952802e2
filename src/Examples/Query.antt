-- ===== src/Examples/Query.antt =====
-- internal/query at small inputs.
use pivot.Common.{
  ℕ, ◌+◌, ◌≤◌, ◌≡◌, ◌≢◌, inl, refl, false, none, some, List, [], ◌∷◌, Text, Result, ok, true, codes,
  lookup, insert, delete, text_beq, ltb, if◌then◌else◌, arith,
}
use pivot.Authz.Model.{is_empty}
use pivot.Tenant.{Uuid, Scope, is_valid}
use pivot.Authz.Model.{Relation, Subject, Object}
use pivot.Authz.Check.{Failure}
use pivot.Policy.{Fingerprint, resolved, resolve, fingerprint, fingerprint_input, permissions_of}
use pivot.Query.Cache.{
  Cache, new_cache, apply_options, with_max_bytes, with_max_entry_bytes, with_ttl, get, put, evict,
  drop_key, push_front, remove_id, back, remove_locked, drop_oldest, expire, touch, invalidate,
  generation, key_input, key,
}
use pivot.Query.Cache.Bounds.{Op, put_op, get_op, run, IsValid, run-IsValid, new_cache-IsValid}
use pivot.Query.Cache.Reads.{entry_of}
use pivot.Query.Cache.Lasting.{after_gets, get-put}
use pivot.Query.Cache.Keys.{SameQuestion, key-SameQuestion, invalidate-unreachable}
use pivot.Query.Cache.Apart.{key-apart}
use pivot.Query.Governor.{
  apply_options as governor_options, Governor, Ticket, Stage, queued, holding_user, running, over,
  got_slot, gave_up, ended, arrive, advance, step_at, slot, take, give, new_governor, with_per_user,
  with_per_connection, user_key, connection_key,
}
use pivot.Query.Governor.Slots.{all_hold}
use pivot.Query.Governor.Admission.{
  System, start, arrives, moves, Reach, here, next, admitted-within, release-never_blocks,
}
use pivot.Examples.Policy.{strokes, strokes-IsInjective, mark, mark-IsInjective}

-- A cache of 10 bytes for results whose columns and cells are numbers.
abbrev small : Cache ℕ ℕ
small = new_cache (with_max_bytes 10 ∷ with_max_entry_bytes 6 ∷ with_ttl 100 ∷ [])

small-IsValid : IsValid small
small-IsValid = new_cache-IsValid 10 6 100

abbrev ops : List (Op ℕ ℕ)
ops =
    put_op 0 (codes "a") (1 ∷ []) ((7 ∷ []) ∷ []) false 4
    ∷ put_op 1 (codes "b") (1 ∷ []) ((8 ∷ []) ∷ []) false 4
    ∷ get_op 2 (codes "a")
    ∷ put_op 3 (codes "c") (1 ∷ []) ((9 ∷ []) ∷ []) false 4
    ∷ []

program : Unit {0}
unfolding lookup insert delete text_beq new_cache apply_options with_max_bytes with_max_entry_bytes
    with_ttl get put evict drop_key push_front remove_id back remove_locked drop_oldest expire touch
    run
program = tt

-- The least recently used of the three results is evicted.
b_is_evicted :
    ((get (run ops small) 4 (codes "a")).1 ≢ none) × ((get (run ops small) 4 (codes "b")).1 ≡ none)
unfolding program
b_is_evicted = (λ e. cc, refl)

run-IsValid_example : IsValid (run ops small)
run-IsValid_example = run-IsValid ops small small-IsValid

-- The result is read twice, and another key once, before.
abbrev gets : List (ℕ × Text)
gets = (1, codes "a") ∷ (5, codes "z") ∷ (8, codes "a") ∷ []

get-put_example :
    (get
      (after_gets (put small 0 (codes "a") (1 ∷ []) ((7 ∷ []) ∷ []) false 4).0 gets)
      9
      (codes "a")).1
    ≡ (if ltb (0 + small.ttl) 9
        then none
        else some (entry_of small 0 (codes "a") (1 ∷ []) ((7 ∷ []) ∷ []) false 4))
unfolding program
get-put_example =
    get-put small 0 (codes "a") (1 ∷ []) ((7 ∷ []) ∷ []) false 4 9 gets small-IsValid refl
      (omega arith, (omega arith, (omega arith, tt)))

abbrev filled : Cache ℕ ℕ
filled = run ops small

abbrev analyst : Fingerprint
analyst = record { sum = codes "9f" }

key-SameQuestion_example :
    SameQuestion analyst analyst 1 1 2 2
      (codes "select 1")
      (codes "select 1")
      10
      10
      (generation small 2)
      (generation small 2)
unfolding key resolved is_empty
key-SameQuestion_example =
    key-SameQuestion strokes mark strokes-IsInjective mark-IsInjective small small analyst analyst 1
      1 2 2 (codes "select 1") (codes "select 1") 10 10 _ refl refl

invalidate-unreachable_example :
    (key strokes mark (invalidate small 2) analyst 1 2 (codes "select 1") 10
      ≢ key strokes mark small analyst 1 2 (codes "select 1") 10)
    × ((other : Uuid) → other ≢ 2 → generation (invalidate small 2) other ≡ generation small other)
unfolding key resolved generation is_empty program
invalidate-unreachable_example =
    invalidate-unreachable strokes mark strokes-IsInjective mark-IsInjective small analyst analyst 1
      1 2 (codes "select 1") (codes "select 1") 10 10 _ (omega arith) refl

-- Ada's relations, and a refresh that nobody asked for.
abbrev ada : Scope
ada = record { org_id = 1; actor_id = record { uuid = 2; valid = true } }

abbrev nightly : Scope
nightly = record { org_id = 1; actor_id = record { uuid = 0; valid = false } }

abbrev granter : Subject → Object → Result Failure (List Relation)
granter subject object = ok (codes "analyst" ∷ [])

-- The fingerprint of a scope.
abbrev sum_of : List Text → Fingerprint
sum_of elements = record { sum = 35 ∷ fingerprint_input (strokes 1) elements }

abbrev key_of : List Text → Text
key_of elements =
    35 ∷ key_input strokes (sum_of elements) 1 4 (codes "select 1") 100 (generation small 4)

key-apart_example : key_of (codes "system" ∷ []) ≢ key_of (permissions_of (codes "analyst" ∷ []))
unfolding is_valid resolve fingerprint key resolved is_empty
key-apart_example =
    key-apart strokes mark strokes-IsInjective mark-IsInjective granter small small nightly ada
      (sum_of (codes "system" ∷ [])) (sum_of (permissions_of (codes "analyst" ∷ []))) 4 4
      (codes "select 1") (codes "select 1") 100 100 (key_of (codes "system" ∷ []))
      (key_of (permissions_of (codes "analyst" ∷ []))) refl refl refl refl refl refl

-- One call arrives, is admitted, and ends.
abbrev empty : System
empty = start 1 2

abbrev arrived : System
arrived = record {
  governor = (arrive strokes empty.governor 1 2 3).0;
  tickets = (arrive strokes empty.governor 1 2 3).1 ∷ [];
}

arrived_reached : Reach strokes empty arrived
unfolding start
arrived_reached = next here (arrives 1 2 3)

admitted-within_example :
    (all_hold arrived.tickets (b'u' ∷ []) ≤ 1) × (all_hold arrived.tickets (b'c' ∷ []) ≤ 2)
admitted-within_example =
    admitted-within strokes 1 2 (omega arith) (omega arith) arrived arrived_reached []

admission : Unit {0}
unfolding start new_governor with_per_user with_per_connection governor_options arrive slot take
    give user_key connection_key step_at advance lookup insert text_beq
admission = tt

abbrev governor_with : ℕ → ℕ → Governor
governor_with users connections = record empty.governor {
  slots =
      (user_key strokes 1 2 3, record { size = 1; held = users })
      ∷ (connection_key strokes 1 3, record { size = 2; held = connections })
      ∷ [];
}

abbrev ticket_at : Stage → Ticket
ticket_at stage = record {
  user = user_key strokes 1 2 3;
  connection = connection_key strokes 1 3;
  stage = stage;
}

abbrev waiting : System
waiting = record { governor = governor_with 1 0; tickets = ticket_at holding_user ∷ [] }

abbrev admitted : System
admitted = record { governor = governor_with 1 1; tickets = ticket_at running ∷ [] }

admitted_reached : Reach strokes empty admitted
unfolding admission
admitted_reached =
    next
      (next arrived_reached (
        moves [] [] (ticket_at queued) (ticket_at holding_user) got_slot waiting.governor refl
          refl))
      (moves [] [] (ticket_at holding_user) (ticket_at running) got_slot admitted.governor refl
        refl)

release-never_blocks_example : advance ended admitted.governor (ticket_at running) ≢ none
release-never_blocks_example =
    release-never_blocks strokes 1 2 (omega arith) (omega arith) admitted admitted_reached [] []
      (ticket_at running) refl (inl refl)

abbrev abandoned : System
abandoned = record { governor = governor_with 0 0; tickets = ticket_at over ∷ [] }

abandoned_reached : Reach strokes empty abandoned
unfolding admission
abandoned_reached =
    next
      (next arrived_reached (
        moves [] [] (ticket_at queued) (ticket_at holding_user) got_slot waiting.governor refl
          refl))
      (moves [] [] (ticket_at holding_user) (ticket_at over) gave_up abandoned.governor refl refl)
