-- ===== src/Authz/Graph/Decide.antt =====
-- Check and Enforce over the graph: a request passes exactly when a role that carries the permission is held.
use pivot.Common.{
  ◌≡◌, ◌≢◌, ◌∙◌, sym, refl, ap, ◌↔◌, inl, inr, true, Option, none, some, List, [], ◌∷◌, text_eq,
  contains, arith, ok, err, Result-cases, Bool-cases, Option-cases, text_beq_iff,
}
use pivot.Authz.Model.{Relation, Role, Permission, Subject, role_grants, roles_granting}
use pivot.Authz.Model.Roles.{contains-roles_granting, role_grants-known, known_iff_granted}
use pivot.Authz.Check.{Request, Decision, Failure, enforce}
use pivot.Authz.Graph.{Store, expand, first_held, decide, explain, check}

first_held_sound :
    (granting : List Role) (relations : List Relation) (r : Role)
    → first_held granting relations ≡ some r
    → (contains granting r ≡ true) × (contains relations r ≡ true)
unfolding first_held contains
first_held_sound [] relations r h = cc
first_held_sound (q ∷ granting) relations r h = elim (Bool-cases (contains relations q)) [
  | inl held ↦ ground (arith, text_beq_iff r q)
  | inr other ↦ ground (arith, first_held_sound granting relations r)
]

first_held_complete :
    (granting : List Role) (relations : List Relation) (r : Role)
    → contains granting r ≡ true
    → contains relations r ≡ true
    → first_held granting relations ≢ none
unfolding first_held contains
first_held_complete [] relations r g h = cc
first_held_complete (q ∷ granting) relations r g h =
    λ e. ground (arith, text_beq_iff r q, first_held_complete granting relations r)

-- What a check has read, and what it found there.
pub record Held (store : Store) (req : Request) (r : Role) : Type 0 where
  pub subjects : List Subject
  pub relations : List Relation
  pub expanded : expand store req.subject ≡ ok subjects
  pub read : store.relations_on subjects req.object ≡ ok relations
  pub holds : contains relations r ≡ true
  pub grants : role_grants r req.permission ≡ true

-- The check, where there is a role that carries the permission.
check-decide :
    (store : Store) (req : Request) (subjects : List Subject) (relations : List Relation)
    → roles_granting req.permission ≢ []
    → expand store req.subject ≡ ok subjects
    → store.relations_on subjects req.object ≡ ok relations
    → check store req ≡ ok (decide (first_held (roles_granting req.permission) relations))
unfolding check explain
check-decide store req subjects relations k e r = ground arith

granted-ne-nil : (r : Role) (p : Permission) → role_grants r p ≡ true → roles_granting p ≢ []
granted-ne-nil r p g = (known_iff_granted p).0 (role_grants-known r p g).1

-- A check that answers yes went past the registry of permissions, and past both queries.
check-granting :
    (store : Store) (req : Request) (d : Decision)
    → check store req ≡ ok d
    → d.allowed ≡ true
    → roles_granting req.permission ≢ []
unfolding check explain
check-granting store req d e a = λ h. ground arith

check_unexpanded :
    (store : Store) (req : Request) (bad : Failure)
    → roles_granting req.permission ≢ []
    → expand store req.subject ≡ err bad
    → check store req ≡ err bad
unfolding check explain
check_unexpanded store req bad k e = ground arith

check_unread :
    (store : Store) (req : Request) (subjects : List Subject) (bad : Failure)
    → roles_granting req.permission ≢ []
    → expand store req.subject ≡ ok subjects
    → store.relations_on subjects req.object ≡ err bad
    → check store req ≡ err bad
unfolding check explain
check_unread store req subjects bad k e r = ground arith

-- A check that allows names a role by which it does.
pub check-Held :
    (store : Store) (req : Request) (d : Decision)
    → check store req ≡ ok d
    → d.allowed ≡ true
    → Held store req d.via
check-Held store req d e a =
    let some_role = check-granting store req d e a in
    elim (Result-cases (expand store req.subject)) [
      | inl (subjects, expanded) ↦ elim (Result-cases (store.relations_on subjects req.object)) [
        | inl (relations, read) ↦
            let decided = check-decide store req subjects relations some_role expanded read in
            elim (Option-cases (first_held (roles_granting req.permission) relations)) [
              | inl nothing ↦ unfold decide in absurd (ground arith)
              | inr (r, found) ↦
                  let (carries, holds) =
                    first_held_sound (roles_granting req.permission) relations r found in
                  let same : d.via ≡ r = unfold decide in ground arith in
                  record {
                    subjects = subjects;
                    relations = relations;
                    expanded = expanded;
                    read = read;
                    holds = rw same holds;
                    grants = rw same (sym (contains-roles_granting r req.permission) ∙ carries);
                  }
            ]
        | inr (bad, failed) ↦ cc (check_unread store req subjects bad some_role expanded failed)
      ]
      | inr (bad, failed) ↦ cc (check_unexpanded store req bad some_role failed)
    ]

-- A held role that carries the permission is enough for the check to allow.
pub check-allows :
    (store : Store) (req : Request) (r : Role)
    → Held store req r
    → (d : Decision) × (check store req ≡ ok d) × (d.allowed ≡ true)
check-allows store req r h =
    elim (Option-cases (first_held (roles_granting req.permission) h.relations)) [
      | inl nothing ↦ absurd (
          first_held_complete (roles_granting req.permission) h.relations r
            (contains-roles_granting r req.permission ∙ h.grants) h.holds nothing)
      | inr (q, found) ↦ (
        decide (some q),
        check-decide store req h.subjects h.relations (granted-ne-nil r req.permission h.grants)
              h.expanded h.read
            ∙ ap (λ (o : Option Role). ok (decide o)) found,
        unfold decide in refl,
      )
    ]

-- `Enforce` over the resolver lets a request pass exactly when a role that carries the permission
-- is held on the object by a subject that the walk found, every query having succeeded; any
-- failure, and an unregistered permission, is an error.
pub enforce_iff_Held :
    (store : Store) (req : Request)
    → (enforce (some (check store)) req ≡ ok tt) ↔ ((r : Role) × Held store req r)
enforce_iff_Held store req = (
  λ e. elim (Result-cases (check store req)) [
    | inl (d, checked) ↦ (d.via, check-Held store req d checked (unfold enforce in ground arith))
    | inr (bad, failed) ↦ unfold enforce in absurd (ground arith)
  ],
  λ (r, h).
      let (d, checked, allowed) = check-allows store req r h in unfold enforce in ground arith,
)
