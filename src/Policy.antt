-- ===== src/Policy.antt =====
-- internal/policy/policy.go: the fingerprint of a caller, which keys the result cache.
--
-- The packages that are not of this repository enter as parameters: `uuid_string` for
-- `uuid.UUID.String`, and `digest` for the hexadecimal SHA-256 of a text.
pub mod Sharing
use pivot.Common.{
  ℕ, Bool, true, false, ◌&&◌, not, Option, none, some, List, [], ◌∷◌, ◌++◌, Text, codes, text_eq,
  ◌==◌, contains, if◌then◌else◌, length, Result, ok, err, decimal, sort_texts, dedup,
}
use pivot.Authz.Model.{
  Relation, Permission, Subject, Object, type_organization, user, is_builtin_role, permissions_for,
  is_empty,
}
use pivot.Authz.Check.{Failure}
use pivot.Tenant.{Uuid, Scope, is_valid}

-- The zero value has no sum, and is unresolved.
pub record Fingerprint : Type 0 where
  pub sum : Text

unfoldable pub fingerprint_string : Fingerprint → Text
fingerprint_string f = if is_empty f.sum then codes "unresolved" else f.sum

unfoldable pub resolved : Fingerprint → Bool
resolved f = not (is_empty f.sum)

unfoldable pub equal : Fingerprint → Fingerprint → Bool
equal f other = (resolved f && resolved other) && f.sum == other.sum

abbrev pub version : Text
version = codes "policy/v1"

-- `|`, the length, `:` and the element.
unfoldable pub write_element : Text → Text
write_element element = codes "|" ++ (decimal (length element) ++ (codes ":" ++ element))

-- The loop over the elements.
unfoldable pub write_elements : List Text → Text
write_elements [] = []
write_elements (element ∷ elements) = write_element element ++ write_elements elements

-- What `fingerprint` hashes.
unfoldable pub fingerprint_input : Text → List Text → Text
fingerprint_input org elements = version ++ (write_element org ++ write_elements elements)

unfoldable pub fingerprint : (Text → Text) → Text → List Text → Fingerprint
fingerprint digest org elements = record { sum = digest (fingerprint_input org elements) }

-- The permissions that the relations carry, in the order in which the loops meet them.
unfoldable pub carried : List Relation → List Permission
carried [] = []
carried (relation ∷ relations) =
    let rest = carried relations in
    if is_builtin_role relation then permissions_for relation ++ rest else rest

-- `held` is a map, so each permission is there once; the range over it has no order of its own, and
-- the sort gives it one.
unfoldable pub permissions_of : List Relation → List Text
permissions_of relations = sort_texts (dedup (carried relations))

pub data ResolveError : Type 0 where
  no_tenant_scope no_resolver : ResolveError
  not_granted : Failure → ResolveError

-- A nil granter is `none`.
unfoldable pub resolve :
    (Uuid → Text)
    → (Text → Text)
    → Option (Subject → Object → Result Failure (List Relation))
    → Scope
    → Result ResolveError Fingerprint
resolve uuid_string digest granter scope =
    if not (is_valid scope)
    then err no_tenant_scope
    else if not scope.actor_id.valid
    then ok (fingerprint digest (uuid_string scope.org_id) (codes "system" ∷ []))
    else elim granter [
      | none ↦ err no_resolver
      | some grants ↦
          elim (grants (user (uuid_string scope.actor_id.uuid))
            (record { kind = type_organization; id = uuid_string scope.org_id })) [
              | err e ↦ err (not_granted e)
              | ok relations ↦
                  ok (fingerprint digest (uuid_string scope.org_id) (permissions_of relations))
            ]
    ]
