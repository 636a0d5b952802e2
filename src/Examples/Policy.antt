-- ===== src/Examples/Policy.antt =====
-- internal/policy at small inputs. The uuid package is stood in for by strokes, and the digest by a
-- mark in front: neither has collisions.
use pivot.Common.{
  zero, suc, ◌≡◌, ◌↔◌, refl, ap, true, false, some, List, [], ◌∷◌, Text, Result, ok, arith,
}
use pivot.Authz.Model.{Relation, Permission, Subject, Object, relation_analyst, relation_editor}
use pivot.Authz.Check.{Failure}
use pivot.Tenant.{Uuid, Scope, is_valid}
use pivot.Policy.{resolve}
use pivot.Policy.Sharing.{IsInjective, any_grants, same_fingerprint_iff}

abbrev pub strokes : Uuid → Text
strokes zero = []
strokes (suc n) = 1 ∷ strokes n

pub strokes-IsInjective : IsInjective strokes
strokes-IsInjective zero zero e = refl
strokes-IsInjective zero (suc n) e = cc
strokes-IsInjective (suc m) zero e = cc
strokes-IsInjective (suc m) (suc n) e = ap suc (strokes-IsInjective m n (ground arith))

abbrev pub mark : Text → Text
mark t = 35 ∷ t

pub mark-IsInjective : IsInjective mark
mark-IsInjective a b e = ground arith

abbrev granter : Subject → Object → Result Failure (List Relation)
granter s o = ok (relation_analyst ∷ relation_editor ∷ [])

abbrev ada : Scope
ada = record { org_id = 1; actor_id = record { uuid = 2; valid = true } }

abbrev dana : Scope
dana = record { org_id = 1; actor_id = record { uuid = 3; valid = true } }

abbrev nightly : Scope
nightly = record { org_id = 1; actor_id = record { uuid = 0; valid = false } }

abbrev both : List Relation
both = relation_analyst ∷ relation_editor ∷ []

same_fingerprint_iff_example :
    (resolve strokes mark (some granter) ada ≡ resolve strokes mark (some granter) dana)
    ↔ ((ada.org_id ≡ dana.org_id) × ((p : Permission) → any_grants both p ≡ any_grants both p))
unfolding is_valid
same_fingerprint_iff_example =
    same_fingerprint_iff strokes mark strokes-IsInjective mark-IsInjective granter ada dana both
      both refl refl refl refl refl refl
