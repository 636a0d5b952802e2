-- ===== src/Policy/Sharing.antt =====
-- Who shares a fingerprint with whom: callers with the same permissions in the same organization,
-- and nobody else.
use pivot.Common.{
  ◌≡◌, ◌≢◌, refl, ap, sym, ◌∙◌, ◌↔◌, Bool, true, false, some, List, [], ◌∷◌, ◌++◌, Text, codes,
  text_eq, contains, any, drop, contains-head, text_beq, length, Result, ok, decimal, arith,
  append-injective, append-same_length, decimal-injective, decimal-lacks, contains-append,
  contains-sort-dedup, sort-dedup_unique,
}
use mathlib.Core.List.{append_assoc}
use pivot.Authz.Model.{
  Relation, Permission, Subject, Object, type_organization, user, role_grants, permissions_for,
  known_permission, all_permissions,
}
use pivot.Authz.Model.Roles.{contains-permissions_for, role_grants-known}
use pivot.Authz.Check.{Failure}
use pivot.Tenant.{Uuid, Scope, is_valid}
use pivot.Policy.{
  Fingerprint, version, write_element, write_elements, fingerprint_input, fingerprint, carried,
  permissions_of, resolve, ResolveError,
}

-- An element can be told from what follows it.
pub write_element-injective :
    (a b s t : Text) → write_element a ++ s ≡ write_element b ++ t → (a ≡ b) × (s ≡ t)
unfolding write_element
write_element-injective a b s t e =
    let regroup = λ (x y : Text). append_assoc (decimal (length x)) (b':' ∷ x) y in
    let joined : decimal (length a) ++ (b':' ∷ (a ++ s)) ≡ decimal (length b) ++ (b':' ∷ (b ++ t)) =
      sym (regroup a s) ∙ ap (drop 1) e ∙ regroup b t in
    let (lengths, bodies) =
      append-injective b':' (decimal (length a)) (decimal (length b)) (a ++ s) (b ++ t)
        (decimal-lacks (length a) b':' (omega arith)) (decimal-lacks (length b) b':' (omega arith))
        joined in
    append-same_length a b s t (decimal-injective (length a) (length b) lengths) bodies

write_elements-injective : (xs ys : List Text) → write_elements xs ≡ write_elements ys → xs ≡ ys
unfolding write_elements
write_elements-injective [] [] e = refl
write_elements-injective [] (y ∷ ys) e = unfold write_element in cc
write_elements-injective (x ∷ xs) [] e = unfold write_element in cc
write_elements-injective (x ∷ xs) (y ∷ ys) e =
    let (heads, tails) = write_element-injective x y (write_elements xs) (write_elements ys) e in
    cc (write_elements-injective xs ys tails)

-- What is hashed tells the organization and the whole list apart: no two pairs of an organization
-- and a list of elements, whatever bytes they hold, are written alike.
pub fingerprint_input-injective :
    (org org' : Text) (xs ys : List Text)
    → fingerprint_input org xs ≡ fingerprint_input org' ys
    → (org ≡ org') × (xs ≡ ys)
unfolding fingerprint_input
fingerprint_input-injective org org' xs ys e =
    let (orgs, rests) =
      write_element-injective org org' (write_elements xs) (write_elements ys)
        (append-same_length version version (write_element org ++ write_elements xs)
          (write_element org' ++ write_elements ys) refl e).1 in
    (orgs, write_elements-injective xs ys rests)

-- Some relation of the list is a role that carries the permission.
unfoldable pub any_grants : List Relation → Permission → Bool
any_grants relations p = any (λ r. role_grants r p) relations

contains-carried :
    (relations : List Relation) (p : Permission)
    → contains (carried relations) p ≡ any_grants relations p
unfolding carried any_grants any contains
contains-carried [] p = refl
contains-carried (r ∷ relations) p = ground (
  arith,
  contains-append p (permissions_for r) (carried relations),
  contains-permissions_for r p,
  role_grants-known r p,
  contains-carried relations p,
)

pub contains-permissions_of :
    (relations : List Relation) (p : Permission)
    → contains (permissions_of relations) p ≡ any_grants relations p
unfolding permissions_of
contains-permissions_of relations p =
    contains-sort-dedup p (carried relations) ∙ contains-carried relations p

-- The list of permissions depends on nothing but which permissions are carried: not on the order
-- of the relations, nor on the roles that the permissions come from.
pub permissions_of_unique :
    (relations others : List Relation)
    → (permissions_of relations ≡ permissions_of others)
      ↔ ((p : Permission) → any_grants relations p ≡ any_grants others p)
permissions_of_unique relations others = (
  λ e p.
      sym (contains-permissions_of relations p)
      ∙ ap (λ (ps : List Permission). contains ps p) e
      ∙ contains-permissions_of others p,
  λ same.
      unfold permissions_of in
      sort-dedup_unique (carried relations) (carried others)
        (λ p. contains-carried relations p ∙ same p ∙ sym (contains-carried others p)),
)

any_grants-known :
    (relations : List Relation) (p : Permission)
    → any_grants relations p ≡ true
    → known_permission p ≡ true
unfolding any_grants any
any_grants-known [] p h = cc
any_grants-known (r ∷ relations) p h =
    ground (arith, role_grants-known r p, any_grants-known relations p)

system_no_permission :
    (relations : List Relation) → any_grants relations (codes "system") ≡ true → ⊥
system_no_permission relations h =
    let known = any_grants-known relations (codes "system") h in
    unfold known_permission contains all_permissions text_beq in cc (known)

-- The digest has no collisions among the texts that are hashed.
abbrev pub IsInjective {ℓ κ} : {A : Type ℓ} {B : Type κ} → (A → B) → Type (ℓ ⊔ κ)
IsInjective {A} f = (a b : A) → f a ≡ f b → a ≡ b

module _ (uuid_string : Uuid → Text) (digest : Text → Text)
    (uuid_string-inj : IsInjective uuid_string) (digest-inj : IsInjective digest)
    (granter : Subject → Object → Result Failure (List Relation)) where
  -- The relations that are resolved for the actor of a scope.
  abbrev pub standing : Scope → Result Failure (List Relation)
  standing scope =
      granter (user (uuid_string scope.actor_id.uuid))
        (record { kind = type_organization; id = uuid_string scope.org_id })

  same_input :
      (org org' : Text) (xs ys : List Text)
      → ◌≡◌ {A = Result ResolveError Fingerprint}
          (ok (fingerprint digest org xs))
          (ok (fingerprint digest org' ys))
      → (org ≡ org') × (xs ≡ ys)
  same_input org org' xs ys e = fingerprint_input-injective org org' xs ys (
      digest-inj (fingerprint_input org xs) (fingerprint_input org' ys)
        (unfold fingerprint in ground arith))

  resolve-person :
      (s : Scope) (relations : List Relation)
      → is_valid s ≡ true
      → s.actor_id.valid ≡ true
      → standing s ≡ ok relations
      → resolve uuid_string digest (some granter) s
        ≡ ok (fingerprint digest (uuid_string s.org_id) (permissions_of relations))
  unfolding resolve
  resolve-person s relations v a g = ground arith

  -- Two people's fingerprints are the same exactly when they act in the same organization and
  -- hold the same permissions in it, whichever roles these come from. It is assumed that the
  -- digest and the rendering of a uuid have no collisions.
  pub same_fingerprint_iff :
      (s t : Scope) (relations others : List Relation)
      → is_valid s ≡ true
      → is_valid t ≡ true
      → s.actor_id.valid ≡ true
      → t.actor_id.valid ≡ true
      → standing s ≡ ok relations
      → standing t ≡ ok others
      → (resolve uuid_string digest (some granter) s ≡ resolve uuid_string digest (some granter) t)
        ↔ ((s.org_id ≡ t.org_id)
            × ((p : Permission) → any_grants relations p ≡ any_grants others p))
  same_fingerprint_iff s t relations others v w a b g h =
      let left = resolve-person s relations v a g in
      let right = resolve-person t others w b h in
      (
        λ e.
            let (orgs, elements) =
              same_input (uuid_string s.org_id) (uuid_string t.org_id) (permissions_of relations)
                (permissions_of others) (sym left ∙ e ∙ right) in
            (
              uuid_string-inj s.org_id t.org_id orgs,
              (permissions_of_unique relations others).0 elements,
            ),
        λ (org, permissions).
            let elements = (permissions_of_unique relations others).1 permissions in
            left ∙ (rw (org, elements) (sym right)),
      )

  -- The fingerprint of background work is not that of a person, whatever the person holds.
  pub system_apart :
      (s t : Scope) (others : List Relation)
      → is_valid s ≡ true
      → is_valid t ≡ true
      → s.actor_id.valid ≡ false
      → t.actor_id.valid ≡ true
      → standing t ≡ ok others
      → resolve uuid_string digest (some granter) s ≢ resolve uuid_string digest (some granter) t
  system_apart s t others v w a b h = λ e.
      let system : resolve uuid_string digest (some granter) s
          ≡ ok (fingerprint digest (uuid_string s.org_id) (codes "system" ∷ [])) =
        unfold resolve in ground arith in
      let (orgs, elements) =
        same_input (uuid_string s.org_id) (uuid_string t.org_id) (codes "system" ∷ [])
          (permissions_of others) (sym system ∙ e ∙ resolve-person t others w b h) in
      system_no_permission others (
        sym (contains-permissions_of others (codes "system"))
        ∙ ap (λ (ps : List Permission). contains ps (codes "system")) (sym elements)
        ∙ contains-head (codes "system") [])
