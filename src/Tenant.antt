-- ===== src/Tenant.antt =====
-- internal/tenant/tenant.go: the organization and actor that a request runs as. A `uuid.UUID` is
-- the number that its sixteen bytes spell, so `uuid.Nil` is 0. A context is what it carries.
use pivot.Common.{
  ℕ, Bool, true, false, not, Option, none, some, Text, codes, ◌++◌, nat_eq, ◌==◌, if◌then◌else◌,
  Result, ok, err,
}

abbrev pub Uuid : Type 0
Uuid = ℕ

abbrev pub uuid_nil : Uuid
uuid_nil = 0

pub record NullUuid : Type 0 where
  pub uuid : Uuid
  pub valid : Bool

pub data ScopeError : Type 0 where
  no_scope invalid_scope : ScopeError

pub record Scope : Type 0 where
  pub org_id : Uuid
  pub actor_id : NullUuid

unfoldable pub new_scope : Uuid → NullUuid → Result ScopeError Scope
new_scope org_id actor_id =
    if org_id == uuid_nil
    then err invalid_scope
    else ok (record { org_id = org_id; actor_id = actor_id })

unfoldable pub new_system_scope : Uuid → Result ScopeError Scope
new_system_scope org_id = new_scope org_id (record { uuid = uuid_nil; valid = false })

unfoldable pub is_valid : Scope → Bool
is_valid s = not (s.org_id == uuid_nil)

-- `String`, over the package uuid's rendering.
unfoldable pub scope_string : (Uuid → Text) → Scope → Text
scope_string uuid_string s =
    if s.actor_id.valid
    then codes "org=" ++ (uuid_string s.org_id ++ (codes " actor=" ++ uuid_string s.actor_id.uuid))
    else codes "org=" ++ (uuid_string s.org_id ++ codes " actor=system")

unfoldable pub with_actor : Scope → NullUuid → Scope
with_actor s actor_id = record { org_id = s.org_id; actor_id = actor_id }

-- What a context carries under the package's key.
pub record Context : Type 0 where
  pub scope : Option Scope

unfoldable pub with_scope : Context → Scope → Context
with_scope ctx s = record ctx { scope = some s }

unfoldable pub from_context : Context → Result ScopeError Scope
from_context ctx = elim ctx.scope [
  | none ↦ err no_scope
  | some s ↦ if is_valid s then ok s else err invalid_scope
]

unfoldable pub has : Context → Bool
has ctx = elim (from_context ctx) [ ok s ↦ true | err e ↦ false ]
