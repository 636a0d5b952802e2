-- ===== src/Authz/Graph/Expand.antt =====
-- `expand` as a whole: the identities that speak for a user, cycles in the hierarchy, and
-- hierarchies that are too deep.
use pivot.Common.{
  ◌≡◌, refl, subst, ◌↔◌, inl, inr, true, false, List, [], ◌∷◌, Text, text_eq, ◌==◌, contains, arith,
  ok, Result-cases, contains-nil, text_beq_iff, beq_refl, text_beq,
}
use pivot.Authz.Model.{Subject, subject_user, subject_eq, subject_beq_iff, group_members, is_empty}
use pivot.Authz.Graph.{Store, seed, walk, expand, max_group_depth}
use pivot.Authz.Graph.Reach.{Reaches, Speaks, IsSound, walk-Speaks, contains-seed}
use pivot.Authz.Graph.Complete.{IsComplete, walk-IsComplete}

group_is_no_user :
    (g : Text) (s : Subject) → (s.kind == subject_user) ≡ true → (group_members g == s) ≡ false
unfolding group_members text_beq
group_is_no_user g s h =
    ground (arith, text_beq_iff s.kind subject_user, subject_beq_iff (group_members g) s)

module _ (store : Store) (s : Subject) (is_user : (s.kind == subject_user) ≡ true) where
  -- What `expand` does for a user whose direct groups could be read.
  expand-walk :
      (groups : List Text)
      → store.groups_for_user s.id ≡ ok groups
      → expand store s
        ≡ walk store max_group_depth (seed [] [] groups).0 (seed [] [] groups).1 (s ∷ [])
  unfolding expand
  expand-walk groups e = ground arith

  start-IsSound :
      (groups : List Text)
      → store.groups_for_user s.id ≡ ok groups
      → IsSound store s (seed [] [] groups).1 (s ∷ []) []
  unfolding contains
  start-IsSound groups e = record {
    queued =
        λ g h. Reaches.direct groups g e (ground (arith, contains-seed [] [] groups g (λ _. refl)));
    later = λ g h. cc;
    speaking = λ x h. subst (Speaks store s) (ground (arith, subject_beq_iff x s)) Speaks.itself;
  }

  start-IsComplete :
      (groups : List Text)
      → IsComplete store (seed [] [] groups).0 (seed [] [] groups).1 (s ∷ []) []
  unfolding contains
  start-IsComplete groups = record {
    covered = λ g h. ground (arith, contains-seed [] [] groups g (λ _. refl));
    closed = λ g p h up some. ground (arith, group_is_no_user g s is_user);
  }

  module _ (out : List Subject) (groups : List Text) (read : store.groups_for_user s.id ≡ ok groups)
      (all_seen : (g : Text)
        → contains (seed [] [] groups).0 g ≡ true
        → contains out (group_members g) ≡ true)
      (up : (g p : Text)
        → contains out (group_members g) ≡ true
        → store.parent_group g ≡ ok p
        → is_empty p ≡ false
        → contains out (group_members p) ≡ true) where
    reached_found : (g : Text) → Reaches store s g → contains out (group_members g) ≡ true
    reached_found _ (Reaches.direct groups' g e c) =
        all_seen g (ground (arith, contains-seed [] [] groups g (λ _. refl), contains-nil g))
    reached_found _ (Reaches.parent g p r e some) = up g p (reached_found g r) e some

    Speaks-found : (x : Subject) → contains out s ≡ true → Speaks store s x → contains out x ≡ true
    Speaks-found x kept Speaks.itself = kept
    Speaks-found x kept (Speaks.member g r) = reached_found g r

  module _ (out : List Subject) (expanded : expand store s ≡ ok out) where
    expand_sound : (x : Subject) → contains out x ≡ true → Speaks store s x
    expand_sound x h = elim (Result-cases (store.groups_for_user s.id)) [
      | inl (groups, read) ↦
          walk-Speaks store s max_group_depth (seed [] [] groups).0 (seed [] [] groups).1 (s ∷ [])
            out (ground (arith, expand-walk groups read)) (start-IsSound groups read) x h
      | inr (bad, failed) ↦ unfold expand in absurd (ground arith)
    ]

    expand_complete : (x : Subject) → Speaks store s x → contains out x ≡ true
    expand_complete x h = elim (Result-cases (store.groups_for_user s.id)) [
      | inl (groups, read) ↦
          let (all_seen, kept, up) =
            walk-IsComplete store max_group_depth (seed [] [] groups).0 (seed [] [] groups).1
              (s ∷ []) out (ground (arith, expand-walk groups read)) (start-IsComplete groups) in
          Speaks-found out groups read all_seen up x
            (kept s (unfold contains in ground (arith, beq_refl s))) h
      | inr (bad, failed) ↦ unfold expand in absurd (ground arith)
    ]

-- If `expand` returns for a user, the subjects that it returns are exactly those that speak for the
-- user: the user itself, and the members of each group that it is in, directly or through the
-- parents of a group, however far up.
pub expand_exact :
    (store : Store) (s : Subject) (out : List Subject)
    → (s.kind == subject_user) ≡ true
    → expand store s ≡ ok out
    → (x : Subject) → (contains out x ≡ true) ↔ Speaks store s x
expand_exact store s out is_user e x =
    (expand_sound store s is_user out e x, expand_complete store s is_user out e x)
