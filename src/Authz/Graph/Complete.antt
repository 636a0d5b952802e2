-- ===== src/Authz/Graph/Complete.antt =====
-- What `expand` finds, it keeps: the found subjects are closed under the hierarchy.
use pivot.Common.{
  ℕ, zero, suc, ◌≡◌, ap, inl, inr, true, false, ◌&&◌, ◌||◌, not, List, [], ◌∷◌, ◌++◌, Text, text_eq,
  contains, arith, ok, Result-cases, contains-append, text_beq_iff, if◌then◌else◌,
}
use pivot.Authz.Model.{Subject, subject_eq, subject_beq_iff, group_members, is_empty}
use pivot.Authz.Graph.{Store, level, walk}

group_members-injective : (g h : Text) → group_members g ≡ group_members h → g ≡ h
unfolding group_members
group_members-injective g h e = ap (λ (s : Subject). s.id) e

module _ (store : Store) where
  -- Nothing that is found is lost: what was seen is queued, or speaks already, and the parents of
  -- what speaks were seen.
  pub record IsComplete (seen queue : List Text) (subjects : List Subject) (next : List Text)
      : Type 0 where
    pub covered :
        (g : Text)
        → contains seen g ≡ true
        → (contains queue g || (contains next g || contains subjects (group_members g))) ≡ true
    pub closed :
        (g p : Text)
        → contains subjects (group_members g) ≡ true
        → store.parent_group g ≡ ok p
        → is_empty p ≡ false
        → contains seen p ≡ true

  -- What was found before is found after.
  pub record Grows (seen seen' : List Text) (subjects subjects' : List Subject) : Type 0 where
    pub more_seen : (g : Text) → contains seen g ≡ true → contains seen' g ≡ true
    pub more_subjects : (x : Subject) → contains subjects x ≡ true → contains subjects' x ≡ true

  visit-IsComplete :
      (g p : Text) (queue seen : List Text) (subjects : List Subject) (next : List Text)
      → store.parent_group g ≡ ok p
      → IsComplete seen (g ∷ queue) subjects next
      → let fresh = not (is_empty p) && not (contains seen p) in
        IsComplete
          (if fresh then p ∷ seen else seen)
          queue
          (subjects ++ (group_members g ∷ []))
          (if fresh then next ++ (p ∷ []) else next)
  unfolding contains
  visit-IsComplete g p queue seen subjects next found s = record {
    covered = λ h m. ground (
      arith,
      s.covered h,
      contains-append h next (p ∷ []),
      contains-append (group_members h) subjects (group_members g ∷ []),
      text_beq_iff h g,
      text_beq_iff h p,
      subject_beq_iff (group_members h) (group_members g),
    );
    closed = λ h q m up some. ground (
      arith,
      s.closed h q,
      contains-append (group_members h) subjects (group_members g ∷ []),
      subject_beq_iff (group_members h) (group_members g),
      group_members-injective h g,
      text_beq_iff q p,
    );
  }

  level-IsComplete :
      (queue seen : List Text) (subjects : List Subject) (next : List Text) (seen' : List Text)
      (subjects' : List Subject) (next' : List Text)
      → level store queue seen subjects next ≡ ok (seen', subjects', next')
      → IsComplete seen queue subjects next
      → IsComplete seen' next' subjects' [] × Grows seen seen' subjects subjects'
  unfolding level contains
  level-IsComplete [] seen subjects next seen' subjects' next' e s = (
    record {
      covered = λ g h. ground (arith, s.covered g);
      closed = λ g p h up some. ground (arith, s.closed g p);
    },
    record { more_seen = λ g h. ground arith; more_subjects = λ x h. ground arith },
  )
  level-IsComplete (g ∷ queue) seen subjects next seen' subjects' next' e s =
      elim (Result-cases (store.parent_group g)) [
        | inl (p, found) ↦
            let fresh = not (is_empty p) && not (contains seen p) in
            let (done, grown) =
              level-IsComplete queue (if fresh then p ∷ seen else seen)
                (subjects ++ (group_members g ∷ [])) (if fresh then next ++ (p ∷ []) else next)
                seen' subjects' next' (ground arith)
                (visit-IsComplete g p queue seen subjects next found s) in
            (
              done,
              record {
                more_seen = λ h m. grown.more_seen h (ground (arith, text_beq_iff h p));
                more_subjects = λ x m.
                    grown.more_subjects x
                      (ground (arith, contains-append x subjects (group_members g ∷ [])));
              },
            )
        | inr (bad, failed) ↦ cc (rw (failed, level) at e)
      ]

  -- A walk that ends leaves a set of subjects that holds all that it had, the groups that were
  -- seen, and with a group its parent.
  pub walk-IsComplete :
      (left : ℕ) (seen queue : List Text) (subjects out : List Subject)
      → walk store left seen queue subjects ≡ ok out
      → IsComplete seen queue subjects []
      → ((g : Text) → contains seen g ≡ true → contains out (group_members g) ≡ true)
        × ((x : Subject) → contains subjects x ≡ true → contains out x ≡ true)
        × ((g p : Text)
            → contains out (group_members g) ≡ true
            → store.parent_group g ≡ ok p
            → is_empty p ≡ false
            → contains out (group_members p) ≡ true)
  unfolding walk contains
  walk-IsComplete left seen [] subjects out e s = (
    λ g h. ground (arith, s.covered g),
    λ x h. ground arith,
    λ g p h up some. ground (arith, s.closed g p, s.covered p),
  )
  walk-IsComplete zero seen (g ∷ queue) subjects out e s = cc
  walk-IsComplete (suc left) seen (g ∷ queue) subjects out e s =
      elim (Result-cases (level store (g ∷ queue) seen subjects [])) [
        | inl ((seen', subjects', next), stepped) ↦
            let (done, grown) =
              level-IsComplete (g ∷ queue) seen subjects [] seen' subjects' next stepped s in
            let (all_seen, kept, up) =
              walk-IsComplete left seen' next subjects' out (ground arith) done in
            (λ h m. all_seen h (grown.more_seen h m), λ x m. kept x (grown.more_subjects x m), up)
        | inr (bad, failed) ↦ cc (rw (failed, walk) at e)
      ]
