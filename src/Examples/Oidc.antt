-- ===== src/Examples/Oidc.antt =====
-- A login whose token names two groups, one of them unknown here.
use pivot.Common.{
  nat_eq, text_eq, ◌≡◌, refl, none, List, [], ◌∷◌, Text, codes, contains, keep_if, lookup, text_beq,
  trim_space, trim_left, trim_right, is_space, sort_texts, insert_text,
}
use pivot.Authz.Model.{is_empty}
use pivot.Oidc.Groups.{
  Db, Outage, Changes, claimed_set, has_group, add_member, remove_member, add_groups, remove_groups,
  sync_groups,
}
use pivot.Oidc.Groups.Exact.{is_key, same_key, names_it, sync_groups_exact}

no_outage : Outage
no_outage call = none

-- The user is in the editors.
abbrev before : Db
before = record { groups = (codes "analysts", 1) ∷ (codes "editors", 2) ∷ []; members = 2 ∷ [] }

abbrev claim : List Text
claim = codes " analysts" ∷ codes "cooks" ∷ []

abbrev moved : Changes
moved = record {
  added = codes "analysts" ∷ [];
  removed = codes "editors" ∷ [];
  unknown = codes "cooks" ∷ [];
}

program : Unit {0}
unfolding no_outage contains keep_if lookup text_beq trim_space trim_left trim_right is_space
    sort_texts insert_text is_empty claimed_set has_group add_member remove_member add_groups
    remove_groups sync_groups is_key same_key
program = tt

sync_groups_exact_example :
    contains (sync_groups no_outage before claim).0.members 2 ≡ names_it claim (codes "editors")
unfolding program
sync_groups_exact_example =
    sync_groups_exact no_outage before claim moved (codes "editors") 2 refl refl refl refl refl
