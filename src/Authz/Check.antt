-- ===== src/Authz/Check.antt =====
-- internal/authz/authz.go: the question, the answer with its reasoning, and `Enforce`.
use pivot.Common.{
  Bool, false, Option, none, some, List, [], ◌++◌, Text, codes, if◌then◌else◌, Result, ok, err,
}
use pivot.Authz.Model.{
  Relation, Role, Permission, Object, Subject, object_string, subject_string, is_empty,
}

pub record Request : Type 0 where
  pub subject : Subject
  pub permission : Permission
  pub object : Object

unfoldable pub request_string : Request → Text
request_string r =
    object_string r.object
    ++ (codes "#" ++ (r.permission ++ (codes "@" ++ subject_string r.subject)))

-- `via` is empty on a denial.
pub record Decision : Type 0 where
  pub allowed : Bool
  pub via : Relation
  pub through : Text

unfoldable pub reason : Decision → Text
reason d =
    if d.allowed
    then (if is_empty d.through
        then d.via ++ codes " held directly"
        else d.via ++ (codes " via group " ++ d.through))
    else codes "no relation grants it"

pub record Explanation : Type 0 where
  pub decision : Decision
  pub request : Request
  pub subjects : List Subject
  pub relations : List Relation
  pub granting : List Role

abbrev pub no_decision : Decision
no_decision = record { allowed = false; via = []; through = [] }

-- Why no answer was reached: the errors that a check returns.
pub data Failure : Type 0 where
  unavailable : Failure
  unknown_permission : Permission → Failure
  store_failed : Text → Failure

-- The errors of `Enforce`: a denial, or a decision that was not made.
pub data EnforceError : Type 0 where
  denied : Request → EnforceError
  no_checker : EnforceError
  undecided : Request → Failure → EnforceError

-- A nil checker is `none`.
unfoldable pub enforce :
    Option (Request → Result Failure Decision) → Request → Result EnforceError (Unit {0})
enforce none req = err no_checker
enforce (some check) req = elim (check req) [
  | err e ↦ err (undecided req e)
  | ok decision ↦ if decision.allowed then ok tt else err (denied req)
]
