-- ===== src/Authz/Graph/Depth.antt =====
-- The bound on nesting: a hierarchy that is too deep is refused, and a cycle is walked once.
use pivot.Common.{
  ℕ, zero, suc, ◌≤◌, ◌≡◌, ◌≢◌, refl, true, false, List, [], ◌∷◌, ◌++◌, Text, text_eq, ◌==◌,
  contains, arith, ok, err, length, text_beq_iff,
}
use pivot.Authz.Model.{Subject, subject_user, group_members, is_empty}
use pivot.Authz.Check.{unavailable}
use pivot.Authz.Graph.{Store, seed, level, walk, expand, max_group_depth}

-- Each group of the list is the parent of the one before it.
abbrev pub IsChain : Store → Text → List Text → Type 0
IsChain store g [] = Unit
IsChain store g (h ∷ rest) =
    (store.parent_group g ≡ ok h) × (is_empty h ≡ false) × IsChain store h rest

-- No group of the list is seen, or comes twice.
abbrev pub IsNew : List Text → List Text → Type 0
IsNew seen [] = Unit
IsNew seen (h ∷ rest) = (contains seen h ≡ false) × IsNew (h ∷ seen) rest

walk_too_deep :
    (store : Store) (left : ℕ) (seen : List Text) (g : Text) (rest : List Text)
    (subjects : List Subject)
    → IsChain store g rest
    → IsNew seen rest
    → left ≤ length rest
    → walk store left seen (g ∷ []) subjects ≡ err unavailable
unfolding walk
walk_too_deep store zero seen g rest subjects c n l = refl
walk_too_deep store (suc left) seen g [] subjects c n l = absurd (omega arith)
walk_too_deep store (suc left) seen g (h ∷ rest) subjects c n l =
    let step : level store (g ∷ []) seen subjects []
        ≡ ok (h ∷ seen, subjects ++ (group_members g ∷ []), h ∷ []) =
      unfold level in ground arith in
    rw (step, walk)
      (walk_too_deep store left (h ∷ seen) h rest (subjects ++ (group_members g ∷ [])) c.2 n.1
        (omega arith))

-- A user in one group, above which stand at least ten more, each the parent of the one before and
-- none of them twice, is refused as undecidable: no permission is derived from the part of the
-- hierarchy that was walked.
pub expand_too_deep :
    (store : Store) (s : Subject) (g : Text) (above : List Text)
    → (s.kind == subject_user) ≡ true
    → store.groups_for_user s.id ≡ ok (g ∷ [])
    → IsChain store g above
    → IsNew (g ∷ []) above
    → max_group_depth ≤ length above
    → expand store s ≡ err unavailable
unfolding expand seed contains
expand_too_deep store s g above u e c n l =
    ground (arith, walk_too_deep store max_group_depth (g ∷ []) g above (s ∷ []) c n l)

-- Two groups that are each the parent of the other are no reason to refuse: a user in one of them
-- speaks for both, and for nothing else, and the walk ends.
pub expand_cycle :
    (store : Store) (s : Subject) (g h : Text)
    → (s.kind == subject_user) ≡ true
    → store.groups_for_user s.id ≡ ok (g ∷ [])
    → store.parent_group g ≡ ok h
    → store.parent_group h ≡ ok g
    → is_empty g ≡ false
    → is_empty h ≡ false
    → g ≢ h
    → expand store s ≡ ok (s ∷ group_members g ∷ group_members h ∷ [])
unfolding expand seed contains walk level
expand_cycle store s g h u e up down g_some h_some differ =
    ground (arith, text_beq_iff g h, text_beq_iff h g, text_beq_iff g g, text_beq_iff h h)
