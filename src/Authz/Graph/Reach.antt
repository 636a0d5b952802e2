-- ===== src/Authz/Graph/Reach.antt =====
-- What `expand` returns, against the groups that a user reaches in the hierarchy.
use pivot.Common.{
  subst, ℕ, zero, suc, ◌≡◌, inl, inr, true, false, ◌&&◌, ◌||◌, not, List, [], ◌∷◌, ◌++◌, Text,
  text_eq, contains, arith, ok, Result-cases, Bool-cases, contains-append, text_beq_iff, beq_refl,
  if◌then◌else◌,
}
use pivot.Authz.Model.{Subject, subject_eq, subject_beq_iff, group_members, is_empty}
use pivot.Authz.Graph.{Store, seed, level, walk}

-- Seeding neither adds nor drops a group.
pub contains-seed :
    (seen queue firsts : List Text) (g : Text)
    → ((h : Text) → contains queue h ≡ contains seen h)
    → (contains (seed seen queue firsts).0 g ≡ (contains seen g || contains firsts g))
      × (contains (seed seen queue firsts).1 g ≡ (contains seen g || contains firsts g))
unfolding seed contains
contains-seed seen queue [] g same = ground (arith, same g)
contains-seed seen queue (d ∷ firsts) g same =
    let fresh = not (contains seen d) in
    let next =
      contains-seed (if fresh then d ∷ seen else seen) (if fresh then queue ++ (d ∷ []) else queue)
        firsts g
        (λ h. ground (arith, same h, same d, contains-append h queue (d ∷ []), text_beq_iff h d)) in
    ground (arith, next, text_beq_iff g d)

module _ (store : Store) (subject : Subject) where
  -- The groups of a user: those it is in directly, and the parents of those, as far up as they go.
  pub data Reaches : Text → Type 0 where
    direct :
        (groups : List Text) (g : Text)
        → store.groups_for_user subject.id ≡ ok groups
        → contains groups g ≡ true
        → Reaches g
    parent : (g p : Text) → Reaches g → store.parent_group g ≡ ok p → is_empty p ≡ false → Reaches p

  -- The identities that speak for a user.
  pub data Speaks : Subject → Type 0 where
    itself : Speaks subject
    member : (g : Text) → Reaches g → Speaks (group_members g)

  pub record IsSound (queue : List Text) (subjects : List Subject) (next : List Text) : Type 0 where
    pub queued : (g : Text) → contains queue g ≡ true → Reaches g
    pub later : (g : Text) → contains next g ≡ true → Reaches g
    pub speaking : (x : Subject) → contains subjects x ≡ true → Speaks x

  speaking_more :
      (x : Subject) (g : Text) (subjects : List Subject)
      → ((y : Subject) → contains subjects y ≡ true → Speaks y)
      → Reaches g
      → contains (subjects ++ (group_members g ∷ [])) x ≡ true
      → Speaks x
  unfolding contains
  speaking_more x g subjects old r h = elim (Bool-cases (contains subjects x)) [
    | inl seen ↦ old x seen
    | inr fresh ↦
        subst Speaks
          (ground (
            arith,
            contains-append x subjects (group_members g ∷ []),
            subject_beq_iff x (group_members g),
          ))
          (member g r)
  ]

  later_more :
      (next seen : List Text) (g p h : Text)
      → Reaches g
      → store.parent_group g ≡ ok p
      → ((k : Text) → contains next k ≡ true → Reaches k)
      → contains (if not (is_empty p) && not (contains seen p) then next ++ (p ∷ []) else next) h
        ≡ true
      → Reaches h
  unfolding contains
  later_more next seen g p h r found old m = elim (Bool-cases (contains next h)) [
    | inl queued ↦ old h queued
    | inr fresh ↦
        subst Reaches (ground (arith, contains-append h next (p ∷ []), text_beq_iff h p))
          (parent g p r found (ground (arith, contains-append h next (p ∷ []))))
  ]

  level-IsSound :
      (queue seen : List Text) (subjects : List Subject) (next : List Text) (seen' : List Text)
      (subjects' : List Subject) (next' : List Text)
      → level store queue seen subjects next ≡ ok (seen', subjects', next')
      → IsSound queue subjects next
      → IsSound next' subjects' []
  unfolding level contains
  level-IsSound [] seen subjects next seen' subjects' next' e s = record {
    queued = λ g h. s.later g (ground arith);
    later = λ g h. cc;
    speaking = λ x h. s.speaking x (ground arith);
  }
  level-IsSound (g ∷ queue) seen subjects next seen' subjects' next' e s =
      elim (Result-cases (store.parent_group g)) [
        | inl (p, found) ↦
            let r = s.queued g (ground (arith, beq_refl g)) in
            level-IsSound queue
              (if not (is_empty p) && not (contains seen p) then p ∷ seen else seen)
              (subjects ++ (group_members g ∷ []))
              (if not (is_empty p) && not (contains seen p) then next ++ (p ∷ []) else next) seen'
              subjects' next' (ground arith)
              (record {
                queued = λ h m. s.queued h (ground arith);
                later = λ h m. later_more next seen g p h r found s.later m;
                speaking = λ x h. speaking_more x g subjects s.speaking r h;
              })
        | inr (bad, failed) ↦ cc (rw (failed, level) at e)
      ]

  pub walk-Speaks :
      (left : ℕ) (seen queue : List Text) (subjects out : List Subject)
      → walk store left seen queue subjects ≡ ok out
      → IsSound queue subjects []
      → (x : Subject) → contains out x ≡ true
      → Speaks x
  unfolding walk
  walk-Speaks left seen [] subjects out e s x h = s.speaking x (ground arith)
  walk-Speaks zero seen (g ∷ queue) subjects out e s x h = cc
  walk-Speaks (suc left) seen (g ∷ queue) subjects out e s x h =
      elim (Result-cases (level store (g ∷ queue) seen subjects [])) [
        | inl ((seen', subjects', next), stepped) ↦
            walk-Speaks left seen' next subjects' out (ground arith)
              (level-IsSound (g ∷ queue) seen subjects [] seen' subjects' next stepped s) x h
        | inr (bad, failed) ↦ cc (rw (failed, walk) at e)
      ]
