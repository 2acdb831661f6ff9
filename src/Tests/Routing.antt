-- ===== src/Tests/Routing.antt =====
-- Path patterns at concrete paths.
use embyr_rs.Base.{suc, ◌+◌, some, List, [], ◌∷◌, length, ◌≡◌, refl, ◌↔◌, arith, true}
use embyr_rs.Base.Text.{Text, codes}
use embyr_rs.Base.Dict.{Dict, insert}
use embyr_rs.AccessControl.PathRouting.{
  fixed_depth_full_reach, PathSegment, literal, wildcard, literal_skeleton, structurally_overlap,
  bind_ancestor, bind_recursive_prefix, bind_positions, positions_compatible, contains,
  classify_prefix_relation, classify_unequal, generalizes,
}
use embyr_rs.AccessControl.PathRouting.Reach.{fixed_depth_full_reach_iff}
use embyr_rs.AccessControl.PathRouting.Binding.{
  as_literals, MatchesPrefix, Matches, instantiate, bind_ancestor_iff, bind_recursive_prefix_iff,
  bind_ancestor-instantiate,
}
use embyr_rs.AccessControl.PathRouting.Overlap.{structurally_overlap_iff, IsFixed}
use embyr_rs.AccessControl.PathRouting.Relation.{
  Classified, classify_prefix_relation_sound, classify_contains_iff,
}
use embyr_rs.AccessControl.PathRouting.Skeleton.{literal_skeleton-bind_ancestor}

-- `users/{uid}/notes`
abbrev notes : List PathSegment
notes = literal (codes "users") ∷ wildcard (codes "uid") ∷ literal (codes "notes") ∷ []

-- `users/{uid}`
abbrev user : List PathSegment
user = literal (codes "users") ∷ wildcard (codes "uid") ∷ []

abbrev dana_notes : List Text
dana_notes = codes "users" ∷ codes "dana" ∷ codes "notes" ∷ []

bind_ancestor_run :
    bind_ancestor notes (as_literals dana_notes) ≡ some ((codes "uid", codes "dana") ∷ [])
unfolding bind_ancestor insert bind_positions positions_compatible
bind_ancestor_run = refl

bind_ancestor_iff_example :
    ((b : Dict Text) × (bind_ancestor notes (as_literals dana_notes) ≡ some b))
    ↔ Matches notes dana_notes
bind_ancestor_iff_example = bind_ancestor_iff notes dana_notes

bind_recursive_prefix_iff_example :
    ((b : Dict Text) × (bind_recursive_prefix user (as_literals dana_notes) ≡ some (b, 1)))
    ↔ (MatchesPrefix user dana_notes × (length dana_notes ≡ length user + 1))
bind_recursive_prefix_iff_example = bind_recursive_prefix_iff user dana_notes 1

bind_ancestor-instantiate_example :
    instantiate ((codes "uid", codes "dana") ∷ []) notes ≡ dana_notes
bind_ancestor-instantiate_example =
    bind_ancestor-instantiate notes dana_notes ((codes "uid", codes "dana") ∷ [])
      ((λ e. cc, tt), tt) bind_ancestor_run

structurally_overlap_iff_example :
    (structurally_overlap notes (as_literals dana_notes) ≡ true)
    ↔ ((ts : List Text) × Matches notes ts × Matches (as_literals dana_notes) ts)
structurally_overlap_iff_example = structurally_overlap_iff notes (as_literals dana_notes)

user-IsFixed : IsFixed user
user-IsFixed = (λ e. cc, (λ e. cc, tt))

notes-IsFixed : IsFixed notes
notes-IsFixed = (λ e. cc, (λ e. cc, (λ e. cc, tt)))

classified : classify_prefix_relation user notes ≡ contains true
unfolding classify_prefix_relation classify_unequal generalizes
classified = refl

classify_prefix_relation_sound_example : Classified (classify_prefix_relation user notes) user notes
classify_prefix_relation_sound_example =
    classify_prefix_relation_sound user notes user-IsFixed notes-IsFixed

classify_contains_iff_example :
    (classify_prefix_relation user notes ≡ contains true)
    ↔ ((ts : List Text) → MatchesPrefix notes ts → MatchesPrefix user ts)
classify_contains_iff_example = classify_contains_iff user notes notes-IsFixed (omega arith)

literal_skeleton-bind_ancestor_example :
    literal_skeleton notes ≡ literal_skeleton (as_literals dana_notes)
literal_skeleton-bind_ancestor_example =
    literal_skeleton-bind_ancestor notes dana_notes ((codes "uid", codes "dana") ∷ []) tt
      bind_ancestor_run

fixed_depth_full_reach_iff_example :
    Matches (fixed_depth_full_reach user) dana_notes
    ↔ (MatchesPrefix user dana_notes × (length dana_notes ≡ suc (length user)))
fixed_depth_full_reach_iff_example = fixed_depth_full_reach_iff user dana_notes
