-- ===== src/Authz/Model/Identifiers.antt =====
-- The text forms of internal/authz/model.go: each is read back by its parser, and the form of a
-- question tells the question apart from every other.
use mathlib.Core.List.{append_assoc}
use pivot.Common.{
  Lacks, cut-append, cut_absent, append-injective, ℕ, ◌≡◌, false, [], ◌∷◌, ◌++◌, arith, Text,
  nat_eq, contains, contains-append, ok,
}
use pivot.Authz.Model.{
  Object, Subject, Tuple, is_userset, object_string, subject_string, tuple_string, is_empty,
  parse_object, parse_subject,
}

-- An object with a kind that is not empty and holds no colon, and an id that is not empty, is read
-- back from its text form.
pub parse_object-object_string :
    (o : Object)
    → Lacks o.kind b':'
    → is_empty o.kind ≡ false
    → is_empty o.id ≡ false
    → parse_object (object_string o) ≡ ok o
unfolding parse_object object_string
parse_object-object_string o h k i = ground (arith, cut-append b':' o.kind o.id h)

-- What the parsers need of a kind and an id.
pub record IsName (kind id : Text) : Type 0 where
  pub kind_colon : Lacks kind b':'
  pub kind_hash : Lacks kind b'#'
  pub id_hash : Lacks id b'#'
  pub kind_some : is_empty kind ≡ false
  pub id_some : is_empty id ≡ false

pair-Lacks : (kind id : Text) → IsName kind id → Lacks (kind ++ (b':' ∷ id)) b'#'
unfolding contains
pair-Lacks kind id n = ground (arith, contains-append b'#' kind (b':' ∷ id))

parse_direct :
    (kind id : Text)
    → IsName kind id
    → parse_subject (kind ++ (b':' ∷ id)) ≡ ok (record { kind = kind; id = id; relation = [] })
unfolding parse_subject
parse_direct kind id n =
    rw
      (
        cut_absent b'#' (kind ++ (b':' ∷ id)) (pair-Lacks kind id n),
        cut-append b':' kind id n.kind_colon,
      )
      (ground arith)

parse_userset :
    (kind id : Text) (r : ℕ) (rs : Text)
    → IsName kind id
    → parse_subject ((kind ++ (b':' ∷ id)) ++ (b'#' ∷ r ∷ rs))
      ≡ ok (record { kind = kind; id = id; relation = r ∷ rs })
unfolding parse_subject is_empty
parse_userset kind id r rs n =
    rw
      (
        cut-append b'#' (kind ++ (b':' ∷ id)) (r ∷ rs) (pair-Lacks kind id n),
        cut-append b':' kind id n.kind_colon,
      )
      (ground arith)

parse_named :
    (kind id relation : Text)
    → IsName kind id
    → parse_subject (subject_string (record { kind = kind; id = id; relation = relation }))
      ≡ ok (record { kind = kind; id = id; relation = relation })
unfolding subject_string is_userset
parse_named kind id [] n = parse_direct kind id n
parse_named kind id (r ∷ rs) n =
    rw (← append_assoc kind (b':' ∷ id) (b'#' ∷ r ∷ rs)) (parse_userset kind id r rs n)

-- A subject, direct or a userset, is read back from its text form, if its kind and its id are not
-- empty, neither holds a hash sign and the kind holds no colon.
pub parse_subject-subject_string :
    (s : Subject) → IsName s.kind s.id → parse_subject (subject_string s) ≡ ok s
parse_subject-subject_string s n = parse_named s.kind s.id s.relation n

subject_string-injective :
    (s t : Subject)
    → IsName s.kind s.id
    → IsName t.kind t.id
    → subject_string s ≡ subject_string t
    → s ≡ t
subject_string-injective s t m n e =
    cc (parse_subject-subject_string s m, parse_subject-subject_string t n)

object_string-Lacks : (o : Object) → IsName o.kind o.id → Lacks (object_string o) b'#'
unfolding object_string
object_string-Lacks o n = pair-Lacks o.kind o.id n

object_string-injective :
    (o p : Object)
    → IsName o.kind o.id
    → IsName p.kind p.id
    → object_string o ≡ object_string p
    → o ≡ p
object_string-injective o p m n e = cc (
  parse_object-object_string o m.kind_colon m.kind_some m.id_some,
  parse_object-object_string p n.kind_colon n.kind_some n.id_some,
)

-- Every part of a tuple is named as the parsers need, and its relation holds no at sign.
pub record IsPlain (t : Tuple) : Type 0 where
  pub object_named : IsName t.object.kind t.object.id
  pub subject_named : IsName t.subject.kind t.subject.id
  pub relation_at : Lacks t.relation b'@'

-- The text form of a tuple tells it apart from every other, if the kinds and ids of both are not
-- empty and hold no hash sign, the kinds hold no colon, and the relations hold no at sign.
pub tuple_string-injective :
    (t u : Tuple) → IsPlain t → IsPlain u → tuple_string t ≡ tuple_string u → t ≡ u
unfolding tuple_string
tuple_string-injective t u p q e =
    let outer =
      append-injective b'#' (object_string t.object) (object_string u.object)
        (t.relation ++ (b'@' ∷ subject_string t.subject))
        (u.relation ++ (b'@' ∷ subject_string u.subject))
        (object_string-Lacks t.object p.object_named) (object_string-Lacks u.object q.object_named)
        e in
    let inner =
      append-injective b'@' t.relation u.relation (subject_string t.subject)
        (subject_string u.subject) p.relation_at q.relation_at outer.1 in
    cc (
      object_string-injective t.object u.object p.object_named q.object_named outer.0,
      inner.0,
      subject_string-injective t.subject u.subject p.subject_named q.subject_named inner.1,
    )
