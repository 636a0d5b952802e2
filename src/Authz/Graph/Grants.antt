-- ===== src/Authz/Graph/Grants.antt =====
-- Grants of internal/authz/graph.go: the relations that a subject holds, as a sorted set.
use pivot.Common.{
  ◌≡◌, List, contains, text_eq, sort_texts, dedup, IsAscending, sort_texts-IsAscending,
  dedup-IsDistinct, contains-sort-dedup, ok, arith,
}
use pivot.Authz.Model.{Relation, Subject, Object}
use pivot.Authz.Graph.{Store, expand, grants}

-- Where the walk and the query answer, the relations that are given are exactly those that the
-- query found for the subjects of the walk, in strictly ascending order, so each once.
pub grants_exact :
    (store : Store) (subject : Subject) (object : Object) (subjects : List Subject)
    (relations : List Relation)
    → expand store subject ≡ ok subjects
    → store.relations_on subjects object ≡ ok relations
    → (rs : List Relation) × (grants store subject object ≡ ok rs)
      × IsAscending rs
      × ((r : Relation) → contains rs r ≡ contains relations r)
unfolding grants
grants_exact store subject object subjects relations walked found = (
  sort_texts (dedup relations),
  ground arith,
  sort_texts-IsAscending (dedup relations) (dedup-IsDistinct relations),
  λ r. contains-sort-dedup r relations,
)
