-- ===== src/Authz/Graph.antt =====
-- internal/authz/graph.go: the walk up the group hierarchy, and the checks built on it. The store
-- is a record of its three queries, each of which may fail; a failing query, like every other
-- failure, is an `err`.
pub mod Reach
pub mod Complete
pub mod Expand
pub mod Depth
pub mod Decide
pub mod Grants
use pivot.Common.{
  ℕ, zero, suc, Bool, true, false, ◌&&◌, not, Option, none, some, List, [], ◌∷◌, ◌++◌, Text, codes,
  text_eq, ◌==◌, contains, if◌then◌else◌, Result, ok, err, ◌>>=◌, sort_texts, dedup,
}
use pivot.Authz.Model.{
  Relation, Role, Permission, Object, Subject, subject_user, user, group_members, is_empty,
  roles_granting, known_permission,
}
use pivot.Authz.Check.{
  Request, Decision, Explanation, Failure, unavailable, unknown_permission, no_decision,
}

pub record Store : Type 0 where
  pub relations_on : List Subject → Object → Result Failure (List Relation)
  pub groups_for_user : Text → Result Failure (List Text)
  pub parent_group : Text → Result Failure Text

abbrev pub max_group_depth : ℕ
max_group_depth = 10

-- The loop that seeds `seen` and `queue` from the direct groups, each group once.
unfoldable pub seed : List Text → List Text → List Text → List Text × List Text
seed seen queue [] = (seen, queue)
seed seen queue (id ∷ direct) =
    let fresh = not (contains seen id) in
    seed (if fresh then id ∷ seen else seen) (if fresh then queue ++ (id ∷ []) else queue) direct

-- The inner loop of `expand`, over one level of the hierarchy: `seen`, the subjects found so far
-- and the next level.
unfoldable pub level :
    Store
    → List Text
    → List Text
    → List Subject
    → List Text
    → Result Failure (List Text × List Subject × List Text)
level store [] seen subjects next = ok (seen, subjects, next)
level store (group ∷ queue) seen subjects next = elim (store.parent_group group) [
  | err e ↦ err e
  | ok parent ↦
      let fresh = not (is_empty parent) && not (contains seen parent) in
      level store queue (if fresh then parent ∷ seen else seen)
        (subjects ++ (group_members group ∷ [])) (if fresh then next ++ (parent ∷ []) else next)
]

-- The outer loop of `expand`, with the levels left before `maxGroupDepth`.
unfoldable pub walk :
    Store → ℕ → List Text → List Text → List Subject → Result Failure (List Subject)
walk store left seen [] subjects = ok subjects
walk store zero seen (group ∷ queue) subjects = err unavailable
walk store (suc left) seen (group ∷ queue) subjects =
    elim (level store (group ∷ queue) seen subjects []) [
      | err e ↦ err e
      | ok (seen', subjects', next) ↦ walk store left seen' next subjects'
    ]

unfoldable pub expand : Store → Subject → Result Failure (List Subject)
expand store subject =
    if subject.kind == subject_user
    then (do
      direct ← store.groups_for_user subject.id
      let seeded = seed [] [] direct
      walk store max_group_depth seeded.0 seeded.1 (subject ∷ []))
    else ok (subject ∷ [])

-- The loop over `granting`: the first role that is held.
unfoldable pub first_held : List Role → List Relation → Option Role
first_held [] relations = none
first_held (role ∷ granting) relations =
    let rest = first_held granting relations in if contains relations role then some role else rest

unfoldable pub decide : Option Role → Decision
decide none = no_decision
decide (some role) = record { allowed = true; via = role; through = [] }

-- `Explain`: the explanation as far as it got, beside the error.
unfoldable pub explain : Store → Request → Explanation × Option Failure
explain store req =
    let granting = roles_granting req.permission in
    let blank : Explanation = record {
      decision = no_decision;
      request = req;
      subjects = [];
      relations = [];
      granting = granting;
    } in
    elim granting [
      | [] ↦
          if known_permission req.permission
          then (blank, none)
          else (blank, some (unknown_permission req.permission))
      | role ∷ roles ↦ elim (expand store req.subject) [
        | err e ↦ (blank, some e)
        | ok subjects ↦ elim (store.relations_on subjects req.object) [
          | err e ↦ (record blank { subjects = subjects }, some e)
          | ok relations ↦ (
            record blank {
              subjects = subjects;
              relations = relations;
              decision = decide (first_held (role ∷ roles) relations);
            },
            none,
          )
        ]
      ]
    ]

unfoldable pub check : Store → Request → Result Failure Decision
check store req =
    let out = explain store req in elim out.1 [ some e ↦ err e | none ↦ ok out.0.decision ]

-- `Grants`: the relations held, each once, sorted.
unfoldable pub grants : Store → Subject → Object → Result Failure (List Relation)
grants store subject object = do
  subjects ← expand store subject
  relations ← store.relations_on subjects object
  ok (sort_texts (dedup relations))
