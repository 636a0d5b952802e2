-- ===== src/Query/Cache/Apart.antt =====
-- The keys of what Pivot asks for itself and of what people ask for.
use pivot.Common.{
  ◌≡◌, ◌≢◌, ◌∙◌, ap, sym, inl, inr, ℕ, true, false, some, List, Text, Result, ok, Result-cases,
  arith,
}
use pivot.Authz.Model.{Relation, Subject, Object}
use pivot.Authz.Check.{Failure}
use pivot.Tenant.{Uuid, Scope, is_valid}
use pivot.Policy.{Fingerprint, fingerprint_string, resolved, resolve}
use pivot.Policy.Sharing.{IsInjective, standing, system_apart}
use pivot.Query.Cache.{Cache, key}
use pivot.Query.Cache.Keys.{key-SameQuestion}

same_string :
    (f g : Fingerprint)
    → resolved f ≡ true
    → resolved g ≡ true
    → fingerprint_string f ≡ fingerprint_string g
    → f ≡ g
unfolding fingerprint_string resolved
same_string f g a b e = ground arith

key-resolved :
    (uuid_string : Uuid → Text) (digest : Text → Text) {C V : Type 0} (c : Cache C V)
    (f : Fingerprint) (org connection : Uuid) (statement : Text) (rows : ℕ) (k : Text)
    → key uuid_string digest c f org connection statement rows ≡ some k
    → resolved f ≡ true
unfolding key
key-resolved uuid_string digest c f org connection statement rows k h = ground arith

module _ (uuid_string : Uuid → Text) (digest : Text → Text)
    (uuid_string-inj : IsInjective uuid_string) (digest-inj : IsInjective digest)
    (granter : Subject → Object → Result Failure (List Relation)) where
  resolve-valid :
      (s : Scope) (f : Fingerprint)
      → resolve uuid_string digest (some granter) s ≡ ok f
      → is_valid s ≡ true
  unfolding resolve
  resolve-valid s f e = ground arith

  resolve-standing :
      (t : Scope) (g : Fingerprint)
      → t.actor_id.valid ≡ true
      → resolve uuid_string digest (some granter) t ≡ ok g
      → (others : List Relation) × (standing uuid_string digest uuid_string-inj digest-inj granter t
          ≡ ok others)
  unfolding resolve
  resolve-standing t g person e =
      elim (Result-cases (standing uuid_string digest uuid_string-inj digest-inj granter t)) [
        | inl found ↦ found
        | inr (why, failed) ↦ absurd (ground arith)
      ]

  -- Background work and people never share a key of the result cache: no key that is given to a
  -- scope without an actor is given to one with an actor, whatever this holds, in whatever
  -- caches and for whatever questions. It is assumed that the digest and the rendering of a
  -- uuid have no collisions.
  pub key-apart :
      {C V : Type 0} (c c' : Cache C V) (s t : Scope) (f g : Fingerprint)
      (connection connection' : Uuid) (statement statement' : Text) (rows rows' : ℕ) (k l : Text)
      → s.actor_id.valid ≡ false
      → t.actor_id.valid ≡ true
      → resolve uuid_string digest (some granter) s ≡ ok f
      → resolve uuid_string digest (some granter) t ≡ ok g
      → key uuid_string digest c f s.org_id connection statement rows ≡ some k
      → key uuid_string digest c' g t.org_id connection' statement' rows' ≡ some l
      → k ≢ l
  key-apart c c' s t f g connection connection' statement statement' rows rows' k l a b e e' h h' =
      λ same.
        let (others, held) = resolve-standing t g b e' in
        let question =
          key-SameQuestion uuid_string digest uuid_string-inj digest-inj c c' f g s.org_id t.org_id
            connection connection' statement statement' rows rows' k h (h' ∙ ap some (sym same)) in
        system_apart uuid_string digest uuid_string-inj digest-inj granter s t others
          (resolve-valid s f e) (resolve-valid t g e') a b held
          (e
            ∙ ap ok (
                same_string f g
                  (key-resolved uuid_string digest c f s.org_id connection statement rows k h)
                  (key-resolved uuid_string digest c' g t.org_id connection' statement' rows' l h')
                  question.same_fingerprint)
            ∙ sym e')
