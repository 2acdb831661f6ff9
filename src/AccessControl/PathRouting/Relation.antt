-- ===== src/AccessControl/PathRouting/Relation.antt =====
-- `classify_prefix_relation` against containment of the prefixes' reaches.
use embyr_rs.Base.{
  ◌<◌, true, false, List, [], ◌∷◌, length, ◌≡◌, refl, sym, ap, ◌∙◌, ◌↔◌, arith, Bool-cases,
  if◌then◌else◌, inl, inr, and_intro, subst, dec_lt,
}
use embyr_rs.Base.Text.{Text, text_eq_iff}
use embyr_rs.AccessControl.PathRouting.{
  PathSegment, literal, wildcard, recursive_wildcard, positions_compatible, zip_all,
  structurally_overlap, generalizes, PrefixRelation, disjoint, contains, ambiguous_overlap,
  classify_unequal, classify_prefix_relation,
}
use embyr_rs.AccessControl.PathRouting.Binding.{MatchesPrefix}
use embyr_rs.AccessControl.PathRouting.Overlap.{
  IsFixed, meet, meet_left, meet_right, compatible_of_common, generalizes_sound,
}

-- What each answer says of the documents below the two prefixes.
abbrev pub Classified : PrefixRelation → List PathSegment → List PathSegment → Type 0
Classified disjoint ps qs = (ts : List Text) → MatchesPrefix ps ts → MatchesPrefix qs ts → ⊥
Classified (contains true) ps qs =
    (length ps < length qs) × ((ts : List Text) → MatchesPrefix qs ts → MatchesPrefix ps ts)
Classified (contains false) ps qs =
    (length qs < length ps) × ((ts : List Text) → MatchesPrefix ps ts → MatchesPrefix qs ts)
Classified ambiguous_overlap ps qs = (ts : List Text) × MatchesPrefix ps ts × MatchesPrefix qs ts

incompatible :
    (ps qs : List PathSegment) (ts : List Text)
    → zip_all positions_compatible ps qs ≡ false
    → MatchesPrefix ps ts
    → MatchesPrefix qs ts
    → ⊥
incompatible ps qs ts h m n = let both = compatible_of_common ps qs ts m n in cc

classify_equal_length :
    (ps qs : List PathSegment)
    → length ps ≡ length qs
    → classify_prefix_relation ps qs
      ≡ (if zip_all positions_compatible ps qs then ambiguous_overlap else disjoint)
unfolding classify_prefix_relation structurally_overlap
classify_equal_length ps qs l = ground arith

classify_shorter :
    (ps qs : List PathSegment)
    → length ps < length qs
    → classify_prefix_relation ps qs ≡ classify_unequal ps qs true
unfolding classify_prefix_relation
classify_shorter ps qs l = ground arith

classify_longer :
    (ps qs : List PathSegment)
    → length qs < length ps
    → classify_prefix_relation ps qs ≡ classify_unequal qs ps false
unfolding classify_prefix_relation
classify_longer ps qs l = ground arith

classify_equal-Classified :
    (ps qs : List PathSegment)
    → IsFixed qs
    → length ps ≡ length qs
    → Classified (classify_prefix_relation ps qs) ps qs
classify_equal-Classified ps qs f l = elim (Bool-cases (zip_all positions_compatible ps qs)) [
  | inl e ↦
      rw (classify_equal_length ps qs l, e)
        (meet ps qs, meet_left ps qs (omega arith) e, meet_right ps qs f (omega arith) e)
  | inr e ↦ rw (classify_equal_length ps qs l, e) (λ ts. incompatible ps qs ts e)
]

shorter_Classified :
    (ps qs : List PathSegment)
    → IsFixed qs
    → length ps < length qs
    → Classified (classify_unequal ps qs true) ps qs
unfolding classify_unequal
shorter_Classified ps qs f l = elim (Bool-cases (zip_all generalizes ps qs)) [
  | inl g ↦ rw (g, classify_unequal) (l, λ ts m. generalizes_sound ps qs ts (omega arith) g m)
  | inr g ↦ (elim (Bool-cases (zip_all positions_compatible ps qs)) [
    | inl e ↦
        rw (g, e, classify_unequal)
          (meet ps qs, meet_left ps qs (omega arith) e, meet_right ps qs f (omega arith) e)
    | inr e ↦ rw (g, e, classify_unequal) (λ ts. incompatible ps qs ts e)
  ])
]

longer_Classified :
    (ps qs : List PathSegment)
    → IsFixed ps
    → length qs < length ps
    → Classified (classify_unequal qs ps false) ps qs
unfolding classify_unequal
longer_Classified ps qs f l = elim (Bool-cases (zip_all generalizes qs ps)) [
  | inl g ↦ rw (g, classify_unequal) (l, λ ts m. generalizes_sound qs ps ts (omega arith) g m)
  | inr g ↦ (elim (Bool-cases (zip_all positions_compatible qs ps)) [
    | inl e ↦
        rw (g, e, classify_unequal)
          (meet qs ps, meet_right qs ps f (omega arith) e, meet_left qs ps (omega arith) e)
    | inr e ↦ rw (g, e, classify_unequal) (λ ts m n. incompatible qs ps ts e n m)
  ])
]

-- The classification of two prefixes without recursive wildcards is right in every case: prefixes
-- said to be disjoint have no document below both, one said to contain the other is the shorter one
-- and has every document of the deeper one below it, and ambiguous ones have a document in common.
pub classify_prefix_relation_sound :
    (ps qs : List PathSegment)
    → IsFixed ps
    → IsFixed qs
    → Classified (classify_prefix_relation ps qs) ps qs
classify_prefix_relation_sound ps qs f g = elim (dec_lt (length ps) (length qs)) [
  | yes l ↦ rw (classify_shorter ps qs l) (shorter_Classified ps qs g l)
  | no n ↦ (elim (dec_lt (length qs) (length ps)) [
    | yes l ↦ rw (classify_longer ps qs l) (longer_Classified ps qs f l)
    | no k ↦ classify_equal-Classified ps qs g (omega arith)
  ])
]

reach_of_IsFixed : (qs : List PathSegment) → IsFixed qs → MatchesPrefix qs (meet [] qs)
reach_of_IsFixed qs f = meet_right [] qs f (omega arith) refl

generalizes_complete :
    (ps qs : List PathSegment)
    → IsFixed qs
    → ((ts : List Text) → MatchesPrefix qs ts → MatchesPrefix ps ts)
    → zip_all generalizes ps qs ≡ true
unfolding generalizes
generalizes_complete [] qs f h = refl
generalizes_complete (p ∷ ps) [] f h = refl
generalizes_complete (literal x ∷ ps) (literal y ∷ qs) (_, f) h =
    and_intro ((text_eq_iff x y).1 (h (y ∷ meet [] qs) (refl, reach_of_IsFixed qs f)).0)
      (generalizes_complete ps qs f (λ ts m. (h (y ∷ ts) (refl, m)).1))
generalizes_complete (literal x ∷ ps) (wildcard w ∷ qs) (_, f) h =
    let other = (h ((0 ∷ x) ∷ meet [] qs) (reach_of_IsFixed qs f)).0 in
    absurd (omega (arith, ap length other))
generalizes_complete (wildcard v ∷ ps) (literal y ∷ qs) (_, f) h =
    generalizes_complete ps qs f (λ ts m. h (y ∷ ts) (refl, m))
generalizes_complete (wildcard v ∷ ps) (wildcard w ∷ qs) (_, f) h =
    generalizes_complete ps qs f (λ ts m. h ([] ∷ ts) m)
generalizes_complete (recursive_wildcard ∷ ps) (literal y ∷ qs) (_, f) h =
    absurd (h (y ∷ meet [] qs) (refl, reach_of_IsFixed qs f))
generalizes_complete (recursive_wildcard ∷ ps) (wildcard w ∷ qs) (_, f) h =
    absurd (h ([] ∷ meet [] qs) (reach_of_IsFixed qs f))
generalizes_complete (p ∷ ps) (recursive_wildcard ∷ qs) (n, f) h = absurd (n refl)

classify_unequal-contains :
    (ps qs : List PathSegment)
    → zip_all generalizes ps qs ≡ true
    → classify_unequal ps qs true ≡ contains true
unfolding classify_unequal
classify_unequal-contains ps qs g = rw (g, classify_unequal)

-- For a first prefix that is shorter than the second one, which has no recursive wildcard, the answer
-- is that the first contains the second precisely if every document below the second is below the
-- first.
pub classify_contains_iff :
    (ps qs : List PathSegment)
    → IsFixed qs
    → length ps < length qs
    → (classify_prefix_relation ps qs ≡ contains true)
      ↔ ((ts : List Text) → MatchesPrefix qs ts → MatchesPrefix ps ts)
classify_contains_iff ps qs f l = (
  λ e.
      (subst (λ r. Classified r ps qs) (sym (classify_shorter ps qs l) ∙ e)
        (shorter_Classified ps qs f l)).1,
  λ h. classify_shorter ps qs l ∙ classify_unequal-contains ps qs (generalizes_complete ps qs f h),
)
