-- ===== src/Authz/Model/Roles.antt =====
-- The role table of internal/authz/model.go: what the three readings of it agree on, and how the
-- built-in roles compare.
use pivot.Common.{
  ◌≡◌, refl, ◌↔◌, ◌≢◌, Bool, true, false, ◌&&◌, List, [], ◌∷◌, arith, text_eq, contains, all,
  lookup, lookup_or, lookup-all, contains-keep_if, contains-all, Option-cases, text_beq, inl, inr,
  Bool-cases, contains-nil, contains-head, ap,
}
use pivot.Authz.Model.{
  Role, Permission, relation_admin, relation_editor, relation_analyst, relation_viewer,
  builtin_roles, is_builtin_role, all_permissions, role_permissions, role_grants, permissions_for,
  roles_granting, known_permission,
}

-- Every entry of the table is a built-in role whose permissions are registered.
abbrev entry_known : Role × List (Permission × Bool) → Bool
entry_known (r, m) = contains builtin_roles r && all (λ (p, b). contains all_permissions p) m

table_known : all entry_known role_permissions ≡ true
unfolding all contains role_permissions builtin_roles all_permissions text_beq
table_known = refl

inner_known :
    (r : Role) (m : List (Permission × Bool)) (p : Permission)
    → entry_known (r, m) ≡ true
    → lookup_or false p m ≡ true
    → contains all_permissions p ≡ true
inner_known r m p h g = ground (arith, lookup-all (λ (q, b). contains all_permissions q) p true m)

-- A role that grants something is built in, and what it grants is registered.
pub role_grants-known :
    (r : Role) (p : Permission)
    → role_grants r p ≡ true
    → (is_builtin_role r ≡ true) × (known_permission p ≡ true)
unfolding role_grants is_builtin_role known_permission lookup role_permissions text_beq
role_grants-known r p h = elim (Option-cases (lookup r role_permissions)) [
  | inl missing ↦ cc (rw missing at h)
  | inr (m, found) ↦
      let known = lookup-all entry_known r m role_permissions table_known found in
      (ground (arith, known), inner_known r m p known (rw found at h))
]

-- The list of the roles that carry a permission holds exactly the roles that grant it.
pub contains-roles_granting :
    (r : Role) (p : Permission) → contains (roles_granting p) r ≡ role_grants r p
unfolding roles_granting is_builtin_role
contains-roles_granting r p =
    ground (
      arith,
      contains-keep_if (λ (q : Role). role_grants q p) r builtin_roles,
      role_grants-known r p,
    )

-- The list of the permissions of a role holds exactly the permissions that it grants.
pub contains-permissions_for :
    (r : Role) (p : Permission) → contains (permissions_for r) p ≡ role_grants r p
unfolding permissions_for known_permission role_grants
contains-permissions_for r p = ground (
  arith,
  contains-keep_if (λ (q : Permission). lookup_or false q (lookup_or [] r role_permissions)) p
      all_permissions,
  role_grants-known r p,
)

-- Everything that the first role grants is granted by the second.
abbrev pub Below : Role → Role → Type 0
Below r s = (p : Permission) → role_grants r p ≡ true → role_grants s p ≡ true

-- The same, checked on the table.
below : Role → Role → Bool
below r s = all (λ (p, b). role_grants s p) (lookup_or [] r role_permissions)

Below-of_below : (r s : Role) → below r s ≡ true → Below r s
unfolding below role_grants
Below-of_below r s h p g =
    ground (arith, lookup-all (λ (q, b). role_grants s q) p true (lookup_or [] r role_permissions))

-- The built-in roles form a chain: viewer, editor, analyst, admin, each granting all that the one
-- before it grants.
pub roles_chain :
    Below relation_viewer relation_editor
    × Below relation_editor relation_analyst
    × Below relation_analyst relation_admin
roles_chain = (
  Below-of_below relation_viewer relation_editor
      (unfold below all role_grants lookup role_permissions text_beq in refl),
  Below-of_below relation_editor relation_analyst
      (unfold below all role_grants lookup role_permissions text_beq in refl),
  Below-of_below relation_analyst relation_admin
      (unfold below all role_grants lookup role_permissions text_beq in refl),
)

admin_grants : (p : Permission) → known_permission p ≡ true → role_grants relation_admin p ≡ true
unfolding known_permission
admin_grants p h =
    contains-all (role_grants relation_admin) p all_permissions
      (unfold all all_permissions role_grants lookup role_permissions text_beq in refl) h

-- An administrator holds exactly the registered permissions.
pub role_grants-admin : (p : Permission) → role_grants relation_admin p ≡ known_permission p
role_grants-admin p = elim (Bool-cases (known_permission p)) [
  | inl known ↦ rw (admin_grants p known, known)
  | inr unknown ↦ elim (Bool-cases (role_grants relation_admin p)) [
    | inl granted ↦ absurd (ground (arith, role_grants-known relation_admin p))
    | inr denied ↦ rw (denied, unknown)
  ]
]

first_known :
    (p : Permission) (rs : List Role) → roles_granting p ≡ rs → rs ≢ [] → known_permission p ≡ true
first_known p [] e h = absurd (h refl)
first_known p (r ∷ rs) e h = ground (
  arith,
  contains-head r rs,
  contains-roles_granting r p,
  ap (λ (qs : List Role). contains qs r) e,
  role_grants-known r p,
)

-- A permission is registered exactly when some role grants it, so the checker's branch for a
-- registered permission that no role carries is never taken.
pub known_iff_granted : (p : Permission) → (known_permission p ≡ true) ↔ (roles_granting p ≢ [])
known_iff_granted p = (
  λ known none_grants. ground (
    arith,
    role_grants-admin p,
    contains-roles_granting relation_admin p,
    ap (λ (rs : List Role). contains rs relation_admin) none_grants,
    contains-nil relation_admin,
  ),
  λ some_grants. first_known p (roles_granting p) refl some_grants,
)
