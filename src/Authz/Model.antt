-- ===== src/Authz/Model.antt =====
-- internal/authz/model.go: relations, roles and permissions, the role table, and the identifiers
-- with their text forms. Go's string types are `Text`, so an unregistered name is representable.
pub mod Roles
pub mod Identifiers
use pivot.Common.{
  cut, ◌↔◌, arith, Eq, text_beq_iff, ◌≡◌, Bool, true, false, ◌&&◌, ◌||◌, Option, none, some, List,
  [], ◌∷◌, ◌++◌, Text, codes, ◌==◌, ℕ, not, text_eq, nat_eq, contains, keep_if, lookup, lookup_or,
  if◌then◌else◌, Result, ok, err,
}

abbrev pub ObjectType : Type 0
ObjectType = Text

abbrev pub SubjectType : Type 0
SubjectType = Text

abbrev pub Relation : Type 0
Relation = Text

abbrev pub Role : Type 0
Role = Relation

abbrev pub Permission : Type 0
Permission = Text

abbrev pub type_organization : ObjectType
type_organization = codes "organization"

abbrev pub subject_user : SubjectType
subject_user = codes "user"

abbrev pub subject_group : SubjectType
subject_group = codes "group"

abbrev pub relation_member : Relation
relation_member = codes "member"

abbrev pub relation_admin : Relation
relation_admin = codes "admin"

abbrev pub relation_editor : Relation
relation_editor = codes "editor"

abbrev pub relation_analyst : Relation
relation_analyst = codes "analyst"

abbrev pub relation_viewer : Relation
relation_viewer = codes "viewer"

abbrev pub perm_manage_organization : Permission
perm_manage_organization = codes "manage_organization"

abbrev pub perm_manage_users : Permission
perm_manage_users = codes "manage_users"

abbrev pub perm_manage_groups : Permission
perm_manage_groups = codes "manage_groups"

abbrev pub perm_manage_roles : Permission
perm_manage_roles = codes "manage_roles"

abbrev pub perm_manage_sessions : Permission
perm_manage_sessions = codes "manage_sessions"

abbrev pub perm_manage_connections : Permission
perm_manage_connections = codes "manage_connections"

abbrev pub perm_create_content : Permission
perm_create_content = codes "create_content"

abbrev pub perm_view_content : Permission
perm_view_content = codes "view_content"

abbrev pub perm_query : Permission
perm_query = codes "query"

abbrev pub perm_native_query : Permission
perm_native_query = codes "native_query"

unfoldable pub builtin_roles : List Role
builtin_roles = relation_admin ∷ relation_editor ∷ relation_analyst ∷ relation_viewer ∷ []

-- The loop of `IsBuiltinRole`.
unfoldable pub is_builtin_role : Relation → Bool
is_builtin_role r = contains builtin_roles r

unfoldable pub all_permissions : List Permission
all_permissions =
    perm_manage_organization ∷ perm_manage_users ∷ perm_manage_groups ∷ perm_manage_roles
    ∷ perm_manage_sessions ∷ perm_manage_connections ∷ perm_create_content ∷ perm_view_content
    ∷ perm_query ∷ perm_native_query ∷ []

-- The map of maps; each inner map has the permissions that the role holds.
unfoldable pub role_permissions : List (Role × List (Permission × Bool))
role_permissions =
    (
      relation_admin,
      (perm_manage_organization, true)
          ∷ (perm_manage_users, true)
          ∷ (perm_manage_groups, true)
          ∷ (perm_manage_roles, true)
          ∷ (perm_manage_sessions, true)
          ∷ (perm_manage_connections, true)
          ∷ (perm_create_content, true)
          ∷ (perm_view_content, true)
          ∷ (perm_query, true)
          ∷ (perm_native_query, true)
          ∷ [],
    )
    ∷ (
      relation_editor,
      (perm_create_content, true) ∷ (perm_view_content, true) ∷ (perm_query, true) ∷ [],
    )
    ∷ (
      relation_analyst,
      (perm_create_content, true)
          ∷ (perm_view_content, true)
          ∷ (perm_query, true)
          ∷ (perm_native_query, true)
          ∷ [],
    )
    ∷ (relation_viewer, (perm_view_content, true) ∷ (perm_query, true) ∷ [])
    ∷ []

-- A missing role reads as a nil map, and a missing permission as `false`.
unfoldable pub role_grants : Role → Permission → Bool
role_grants role perm = lookup_or false perm (lookup_or [] role role_permissions)

unfoldable pub permissions_for : Role → List Permission
permissions_for role =
    let granted = lookup_or [] role role_permissions in
    keep_if (λ p. lookup_or false p granted) all_permissions

unfoldable pub roles_granting : Permission → List Role
roles_granting perm = keep_if (λ role. role_grants role perm) builtin_roles

-- `knownPermission` of internal/authz/graph.go.
unfoldable pub known_permission : Permission → Bool
known_permission p = contains all_permissions p

pub record Object : Type 0 where
  pub kind : ObjectType
  pub id : Text

-- A subject with an empty relation is direct; with another it is a userset.
pub record Subject : Type 0 where
  pub kind : SubjectType
  pub id : Text
  pub relation : Relation

unfoldable pub subject_beq : Subject → Subject → Bool
subject_beq s t = (s.kind == t.kind && s.id == t.id) && s.relation == t.relation

pub subject_beq_iff : (s t : Subject) → (subject_beq s t ≡ true) ↔ (s ≡ t)
unfolding subject_beq
subject_beq_iff s t =
    ground (
      arith,
      text_beq_iff s.kind t.kind,
      text_beq_iff s.id t.id,
      text_beq_iff s.relation t.relation,
    )

instance abbrev pub subject_eq : Eq Subject
subject_eq = record { beq = subject_beq; beq_iff = subject_beq_iff }

unfoldable pub user : Text → Subject
user id = record { kind = subject_user; id = id; relation = [] }

unfoldable pub group_members : Text → Subject
group_members id = record { kind = subject_group; id = id; relation = relation_member }

unfoldable pub is_userset : Subject → Bool
is_userset s = elim s.relation [ [] ↦ false | x ∷ xs ↦ true ]

unfoldable pub object_string : Object → Text
object_string o = o.kind ++ (codes ":" ++ o.id)

unfoldable pub subject_string : Subject → Text
subject_string s =
    if is_userset s
    then s.kind ++ (codes ":" ++ (s.id ++ (codes "#" ++ s.relation)))
    else s.kind ++ (codes ":" ++ s.id)

-- A stored relationship. (internal/authz/model.go)
pub record Tuple : Type 0 where
  pub subject : Subject
  pub relation : Relation
  pub object : Object

unfoldable pub tuple_string : Tuple → Text
tuple_string t =
    object_string t.object ++ (codes "#" ++ (t.relation ++ (codes "@" ++ subject_string t.subject)))

pub data ParseError : Type 0 where
  bad_object : ParseError
  bad_subject : ParseError
  empty_relation : ParseError

unfoldable pub is_empty : Text → Bool
is_empty [] = true
is_empty (c ∷ s) = false

unfoldable pub parse_object : Text → Result ParseError Object
parse_object s =
    let parts = cut b':' s in
    if not parts.2 || is_empty parts.0 || is_empty parts.1
    then err bad_object
    else ok (record { kind = parts.0; id = parts.1 })

unfoldable pub parse_subject : Text → Result ParseError Subject
parse_subject s =
    let outer = cut b'#' s in
    let parts = cut b':' outer.0 in
    if not parts.2 || is_empty parts.0 || is_empty parts.1
    then err bad_subject
    else if outer.2
    then (if is_empty outer.1
        then err empty_relation
        else ok (record { kind = parts.0; id = parts.1; relation = outer.1 }))
    else ok (record { kind = parts.0; id = parts.1; relation = [] })
