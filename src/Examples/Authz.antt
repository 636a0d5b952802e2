-- ===== src/Examples/Authz.antt =====
-- internal/authz on one small organization: Ada is in the group "eu", whose parent is "analysts",
-- which holds the analyst role.
use pivot.Common.{
  ℕ, zero, suc, ◌≡◌, refl, ◌↔◌, true, none, some, List, [], ◌∷◌, Text, codes, text_eq, text_beq,
  ◌==◌, contains, lookup, insert, keep_if, IsAscending, if◌then◌else◌, ok, err, arith,
}
use pivot.Authz.Model.{
  Relation, Role, Object, Subject, Tuple, subject_eq, subject_beq, user, group_members,
  type_organization, subject_user, relation_analyst, perm_native_query, perm_manage_roles,
  role_permissions, builtin_roles, all_permissions, role_grants, roles_granting, known_permission,
  is_empty, is_userset, object_string, subject_string,
}
use pivot.Authz.Model.Identifiers.{IsName, IsPlain}
use pivot.Authz.Check.{Request, Decision, unavailable, enforce, denied, request_string}
use pivot.Authz.Graph.{Store, seed, level, walk, expand, first_held, decide, explain, check, grants}
use pivot.Authz.Graph.Grants.{grants_exact}
use pivot.Authz.Graph.Reach.{Speaks}
use pivot.Authz.Graph.Expand.{expand_exact}
use pivot.Authz.Graph.Depth.{expand_too_deep, expand_cycle}
use pivot.Authz.Graph.Decide.{Held, enforce_iff_Held}
use pivot.Authz.Cache.{new_cache, key, lookup_decision, store_decision}
use pivot.Authz.Cache.Interleave.{
  System, start, begin, ask, finish, Reach, here, next, tuple_of, cached-is_current,
}

abbrev small : Store
small = record {
  relations_on = λ subjects object.
      ok (
        if contains subjects (group_members (codes "analysts")) then relation_analyst ∷ [] else []);
  groups_for_user = λ id. ok (if id == codes "ada" then codes "eu" ∷ [] else []);
  parent_group = λ id. ok (if id == codes "eu" then codes "analysts" else []);
}

abbrev acme : Object
acme = record { kind = type_organization; id = codes "acme" }

abbrev ada : Subject
ada = record { kind = subject_user; id = codes "ada"; relation = [] }

abbrev raw_sql : Request
raw_sql = record { subject = ada; permission = perm_native_query; object = acme }

abbrev grant_roles : Request
grant_roles = record raw_sql { permission = perm_manage_roles }

program : Unit {0}
unfolding contains lookup insert keep_if text_beq subject_beq user group_members is_empty
    role_permissions builtin_roles all_permissions role_grants roles_granting known_permission seed
    level walk expand first_held decide explain check enforce
program = tt

raw_sql_passes : enforce (some (check small)) raw_sql ≡ ok tt
unfolding program
raw_sql_passes = refl

grant_roles_denied : enforce (some (check small)) grant_roles ≡ err (denied grant_roles)
unfolding program
grant_roles_denied = refl

enforce_iff_Held_example :
    (enforce (some (check small)) raw_sql ≡ ok tt) ↔ ((r : Role) × Held small raw_sql r)
enforce_iff_Held_example = enforce_iff_Held small raw_sql

abbrev found : List Subject
found = ada ∷ group_members (codes "eu") ∷ group_members (codes "analysts") ∷ []

expand_exact_example :
    (contains found (group_members (codes "analysts")) ≡ true)
    ↔ Speaks small ada (group_members (codes "analysts"))
unfolding program
expand_exact_example = expand_exact small ada found refl refl (group_members (codes "analysts"))

grants_exact_example :
    (rs : List Relation) × (grants small ada raw_sql.object ≡ ok rs)
    × IsAscending rs
    × ((r : Relation) → contains rs r ≡ contains (relation_analyst ∷ []) r)
unfolding program
grants_exact_example = grants_exact small ada raw_sql.object found (relation_analyst ∷ []) refl refl

-- A hierarchy in which each group is named by a number of strokes, and has the next as its parent.
abbrev tower : Store
tower = record small {
  groups_for_user = λ id. ok ((1 ∷ []) ∷ []);
  parent_group = λ id. ok (1 ∷ id);
}

-- The ten groups above one.
abbrev strokes : ℕ → Text → List Text
strokes zero g = []
strokes (suc n) g = (1 ∷ g) ∷ strokes n (1 ∷ g)

expand_too_deep_example : expand tower ada ≡ err unavailable
unfolding program
expand_too_deep_example =
    expand_too_deep tower ada (1 ∷ []) (strokes 10 (1 ∷ [])) refl refl (ground arith) (ground arith)
      (omega arith)

-- Two groups, each the parent of the other.
abbrev ring : Store
ring = record small {
  parent_group = λ id. ok (if id == codes "eu" then codes "analysts" else codes "eu");
}

expand_cycle_example : expand ring ada ≡ ok found
unfolding program
expand_cycle_example =
    expand_cycle ring ada (codes "eu") (codes "analysts") refl refl refl refl refl refl (λ e. cc)

acme_named : IsName type_organization (codes "acme")
unfolding program
acme_named = record {
  kind_colon = refl;
  kind_hash = refl;
  id_hash = refl;
  kind_some = refl;
  id_some = refl;
}

ada_named : IsName subject_user (codes "ada")
unfolding program
ada_named = record {
  kind_colon = refl;
  kind_hash = refl;
  id_hash = refl;
  kind_some = refl;
  id_some = refl;
}

raw_sql-IsPlain : IsPlain (tuple_of raw_sql)
unfolding tuple_of program
raw_sql-IsPlain = record {
  object_named = acme_named;
  subject_named = ada_named;
  relation_at = refl;
}

abbrev one_tuple : Tuple
one_tuple = record { subject = ada; relation = perm_native_query; object = acme }

-- One check runs through, and a second is answered from the cache.
abbrev yes_to_all : Request → Decision
yes_to_all r = record { allowed = true; via = relation_analyst; through = [] }

abbrev begun : System
begun = record {
  cache = (lookup_decision new_cache 0 (key new_cache raw_sql).0).0;
  answer = yes_to_all;
  pending = 0;
  flights = record { request = raw_sql; generation = 0; answered = none } ∷ [];
}

abbrev asked : System
asked = record begun {
  flights = record { request = raw_sql; generation = 0; answered = some (yes_to_all raw_sql) } ∷ [];
}

abbrev finished : System
finished = record {
  cache = store_decision asked.cache 5 (request_string raw_sql) 0 (yes_to_all raw_sql);
  answer = yes_to_all;
  pending = 0;
  flights = [];
}

finished_reached : Reach (start yes_to_all) finished
unfolding start new_cache key lookup_decision lookup
finished_reached =
    next
      (next (next here (begin raw_sql 0 raw_sql-IsPlain refl))
        (ask [] [] (record { request = raw_sql; generation = 0; answered = none }) refl))
      (finish [] []
        (record { request = raw_sql; generation = 0; answered = some (yes_to_all raw_sql) })
        (yes_to_all raw_sql) 5 refl refl)

cached-is_current_example : yes_to_all raw_sql ≡ finished.answer raw_sql
unfolding program key lookup_decision store_decision new_cache request_string object_string
    subject_string is_userset
cached-is_current_example =
    cached-is_current yes_to_all finished raw_sql 7 (yes_to_all raw_sql) finished_reached refl
      raw_sql-IsPlain refl
