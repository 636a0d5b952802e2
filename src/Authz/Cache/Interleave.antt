-- ===== src/Authz/Cache/Interleave.antt =====
-- The decision cache of internal/authz/cache.go under concurrent checks and writes.
--
-- A check reads its key and the generation, asks the inner checker, and stores the answer, and
-- other goroutines may act between these steps. A write to the relationships happens first, and
-- its call of `Invalidate` later.
use pivot.Common.{
  ℕ, ◌+◌, ◌-◌, ◌^◌, ◌≤◌, ◌<◌, ◌≡◌, ap, inl, inr, Option, none, some, List, [], ◌∷◌, ◌++◌, Text,
  text_eq, ◌⊎◌, subst, sym, arith, All, All-append, All-append_left, All-append_right, All-map,
  lookup, lookup-insert, text_beq_iff, Option-cases,
}
use pivot.Authz.Model.{Tuple, tuple_string}
use pivot.Authz.Model.Identifiers.{IsPlain, tuple_string-injective}
use pivot.Authz.Check.{Request, Decision, request_string}
use pivot.Authz.Cache.{
  Cache, CacheEntry, new_cache, key, lookup_decision, store_decision, invalidate, u64,
}

-- A check in flight: its question, the generation that it read, and the inner checker's answer,
-- once there is one.
pub record Flight : Type 0 where
  pub request : Request
  pub generation : ℕ
  pub answered : Option Decision

-- `answer` is what the inner checker answers at this moment, and `pending` counts the writes whose
-- `Invalidate` is still to come.
pub record System : Type 0 where
  pub cache : Cache
  pub answer : Request → Decision
  pub pending : ℕ
  pub flights : List Flight

unfoldable pub tuple_of : Request → Tuple
tuple_of r = record { subject = r.subject; relation = r.permission; object = r.object }

-- The kinds and ids of the question are not empty and hold no separator of its text form.
abbrev pub IsPlainRequest : Request → Type 0
IsPlainRequest r = IsPlain (tuple_of r)

unfoldable pub start : (Request → Decision) → System
start answer = record { cache = new_cache; answer = answer; pending = 0; flights = [] }

pub data Step (s : System) : System → Type 0 where
  -- a check finds no live entry, having read its key and the generation
  begin :
      (r : Request) (now : ℕ)
      → IsPlainRequest r
      → (lookup_decision s.cache now (key s.cache r).0).1 ≡ none
      → Step s (record s {
        cache = (lookup_decision s.cache now (key s.cache r).0).0;
        flights =
            record { request = r; generation = (key s.cache r).1; answered = none } ∷ s.flights;
      })
  -- a check is answered from the cache
  hit :
      (r : Request) (now : ℕ) (d : Decision)
      → (lookup_decision s.cache now (key s.cache r).0).1 ≡ some d
      → Step s (record s { cache = (lookup_decision s.cache now (key s.cache r).0).0 })
  -- the inner checker answers a check in flight
  ask :
      (before after : List Flight) (f : Flight)
      → s.flights ≡ before ++ (f ∷ after)
      → Step s (record s {
        flights = before ++ (record f { answered = some (s.answer f.request) } ∷ after);
      })
  -- a check stores its answer and returns
  finish :
      (before after : List Flight) (f : Flight) (d : Decision) (now : ℕ)
      → s.flights ≡ before ++ (f ∷ after)
      → f.answered ≡ some d
      → Step s (record s {
        cache = store_decision s.cache now (request_string f.request) f.generation d;
        flights = before ++ after;
      })
  -- a write changes the relationships, and with them any answers
  write :
      (answer : Request → Decision) → Step s (record s { answer = answer; pending = s.pending + 1 })
  -- a write's call of `Invalidate`, short of the counter's wrap
  drop_all :
      0 < s.pending
      → s.cache.generation + 1 < 2 ^ 64
      → Step s (record s { cache = invalidate s.cache; pending = s.pending - 1 })

pub data Reach (s : System) : System → Type 0 where
  here : Reach s s
  next : {t u : System} → Reach s t → Step t u → Reach s u

-- A flight never runs ahead of the generation, and one of the current generation, with no write
-- pending, holds the answer of this moment.
abbrev IsFresh : (Request → Decision) → ℕ → ℕ → Flight → Type 0
IsFresh answer pending generation f =
    IsPlainRequest f.request
    × (f.generation ≤ generation)
    × ((d : Decision)
        → pending ≡ 0
        → f.generation ≡ generation
        → f.answered ≡ some d
        → d ≡ answer f.request)

abbrev IsCurrent : System → Type 0
IsCurrent s =
    (r : Request) (e : CacheEntry)
    → s.pending ≡ 0
    → IsPlainRequest r
    → lookup (request_string r) s.cache.entries ≡ some e
    → e.decision ≡ s.answer r

pub record Inv (s : System) : Type 0 where
  pub current : IsCurrent s
  pub fresh : All (IsFresh s.answer s.pending s.cache.generation) s.flights

request_string-injective :
    (r q : Request)
    → IsPlainRequest r
    → IsPlainRequest q
    → request_string r ≡ request_string q
    → r ≡ q
unfolding request_string tuple_of
request_string-injective r q p o e =
    ap (λ (t : Tuple). record { subject = t.subject; permission = t.relation; object = t.object })
      (tuple_string-injective (tuple_of r) (tuple_of q) p o (unfold tuple_string in e))

-- A lookup touches the counters alone.
lookup_decision-keeps :
    (c : Cache) (now : ℕ) (k : Text)
    → ((lookup_decision c now k).0.entries ≡ c.entries)
      × ((lookup_decision c now k).0.generation ≡ c.generation)
unfolding lookup_decision
lookup_decision-keeps c now k = ground arith

store_decision-keeps :
    (c : Cache) (now : ℕ) (k : Text) (g : ℕ) (d : Decision)
    → (store_decision c now k g d).generation ≡ c.generation
unfolding store_decision
store_decision-keeps c now k g d = ground arith

-- An answer that is stored is either the old entry of its key or the new one, and the new one is
-- stored only in its own generation.
stored :
    (c : Cache) (now : ℕ) (f : Flight) (d : Decision) (r : Request) (e : CacheEntry)
    → IsPlainRequest f.request
    → IsPlainRequest r
    → lookup
        (request_string r)
        (store_decision c now (request_string f.request) f.generation d).entries
      ≡ some e
    → (lookup (request_string r) c.entries ≡ some e)
      ⊎ ((f.request ≡ r) × (f.generation ≡ c.generation) × (e.decision ≡ d))
unfolding store_decision
stored c now f d r e p q h = ground (
  arith,
  lookup-insert (request_string f.request) (request_string r)
      (record { decision = d; expires = now + c.ttl }) c.entries,
  text_beq_iff (request_string f.request) (request_string r),
  request_string-injective f.request r p q,
)

module _ (s : System) (inv : Inv s) where
  begin-Inv :
      (r : Request) (now : ℕ)
      → IsPlainRequest r
      → Inv (record s {
        cache = (lookup_decision s.cache now (key s.cache r).0).0;
        flights =
            record { request = r; generation = (key s.cache r).1; answered = none } ∷ s.flights;
      })
  unfolding key
  begin-Inv r now p =
      let (entries, generation) = lookup_decision-keeps s.cache now (request_string r) in
      record {
        current = λ q e idle plain found. inv.current q e idle plain (rw entries at found);
        fresh = (
          subst
              (λ n.
                IsFresh s.answer s.pending n
                  (record { request = r; generation = s.cache.generation; answered = none }))
              (sym generation) (p, omega arith, λ d idle same none_yet. cc),
          subst (λ n. All (IsFresh s.answer s.pending n) s.flights) (sym generation) inv.fresh,
        );
      }

  hit-Inv :
      (r : Request) (now : ℕ)
      → Inv (record s { cache = (lookup_decision s.cache now (key s.cache r).0).0 })
  unfolding key
  hit-Inv r now =
      let (entries, generation) = lookup_decision-keeps s.cache now (request_string r) in
      record {
        current = λ q e idle plain found. inv.current q e idle plain (rw entries at found);
        fresh = rw generation inv.fresh;
      }

  abbrev Fresh : Flight → Type 0
  Fresh = IsFresh s.answer s.pending s.cache.generation

  split_flights :
      (before after : List Flight) (f : Flight)
      → s.flights ≡ before ++ (f ∷ after)
      → All Fresh before × Fresh f × All Fresh after
  split_flights before after f e =
      let all : All Fresh (before ++ (f ∷ after)) = subst (All Fresh) e inv.fresh in
      let rest = All-append_right Fresh before (f ∷ after) all in
      (All-append_left Fresh before (f ∷ after) all, rest.0, rest.1)

  ask-Inv :
      (before after : List Flight) (f : Flight)
      → s.flights ≡ before ++ (f ∷ after)
      → Inv (record s {
        flights = before ++ (record f { answered = some (s.answer f.request) } ∷ after);
      })
  ask-Inv before after f e =
      let (left, mine, right) = split_flights before after f e in
      record {
        current = inv.current;
        fresh =
            All-append Fresh before (record f { answered = some (s.answer f.request) } ∷ after) left
              ((mine.0, mine.1, λ d idle same answer. ground arith), right);
      }

  finish-Inv :
      (before after : List Flight) (f : Flight) (d : Decision) (now : ℕ)
      → s.flights ≡ before ++ (f ∷ after)
      → f.answered ≡ some d
      → Inv (record s {
        cache = store_decision s.cache now (request_string f.request) f.generation d;
        flights = before ++ after;
      })
  finish-Inv before after f d now e answered =
      let (left, mine, right) = split_flights before after f e in
      record {
        current = λ r entry idle plain found.
            elim (stored s.cache now f d r entry mine.0 plain found) [
              | inl old ↦ inv.current r entry idle plain old
              | inr (same, generation, stored_d) ↦ ground (arith, mine.2 d idle generation answered)
            ];
        fresh =
            rw (store_decision-keeps s.cache now (request_string f.request) f.generation d)
              (All-append Fresh before after left right);
      }

  write-Inv :
      (answer : Request → Decision) → Inv (record s { answer = answer; pending = s.pending + 1 })
  write-Inv answer = record {
    current = λ r e idle plain found. absurd (omega arith);
    fresh =
        All-map Fresh (IsFresh answer (s.pending + 1) s.cache.generation) s.flights
          (λ f h. (h.0, h.1, λ d idle same a. absurd (omega arith))) inv.fresh;
  }

  drop_all-Inv :
      s.cache.generation + 1 < 2 ^ 64
      → Inv (record s { cache = invalidate s.cache; pending = s.pending - 1 })
  unfolding invalidate lookup
  drop_all-Inv room = record {
    current = λ r e idle plain found. cc;
    fresh =
        All-map Fresh (IsFresh s.answer (s.pending - 1) (u64 (s.cache.generation + 1))) s.flights
          (λ f h. (h.0, omega arith, λ d idle same a. absurd (omega arith))) inv.fresh;
  }

Step-Inv : {s t : System} → Step s t → Inv s → Inv t
Step-Inv {s} (begin r now p missed) inv = begin-Inv s inv r now p
Step-Inv {s} (hit r now d found) inv = hit-Inv s inv r now
Step-Inv {s} (ask before after f e) inv = ask-Inv s inv before after f e
Step-Inv {s} (finish before after f d now e a) inv = finish-Inv s inv before after f d now e a
Step-Inv {s} (write answer) inv = write-Inv s inv answer
Step-Inv {s} (drop_all due room) inv = drop_all-Inv s inv room

start-Inv : (answer : Request → Decision) → Inv (start answer)
unfolding start new_cache lookup
start-Inv answer = record { current = λ r e idle plain found. cc; fresh = tt }

Reach-Inv : {s t : System} → Inv s → Reach s t → Inv t
Reach-Inv inv here = inv
Reach-Inv inv (next r step) = Step-Inv step (Reach-Inv inv r)

-- However checks and writes interleave from an empty cache, short of 2 ^ 64 invalidations: while no
-- write awaits its `Invalidate`, a question whose kinds and ids are not empty and hold no
-- separator is answered from the cache only as the inner checker would answer it now.
pub cached-is_current :
    (answer : Request → Decision) (s : System) (r : Request) (now : ℕ) (d : Decision)
    → Reach (start answer) s
    → s.pending ≡ 0
    → IsPlainRequest r
    → (lookup_decision s.cache now (key s.cache r).0).1 ≡ some d
    → d ≡ s.answer r
unfolding lookup_decision key
cached-is_current answer s r now d reach idle plain found =
    let inv = Reach-Inv (start-Inv answer) reach in
    elim (Option-cases (lookup (request_string r) s.cache.entries)) [
      | inl missing ↦ absurd (ground arith)
      | inr (e, entry) ↦ ground (arith, inv.current r e idle plain entry)
    ]
