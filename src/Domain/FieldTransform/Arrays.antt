-- ===== src/Domain/FieldTransform/Arrays.antt =====
-- The array transforms: what is appended, what is removed, and that a second run changes nothing.
use embyr_rs.Base.{
  true, false, ◌||◌, List, [], ◌∷◌, ◌++◌, ◌≡◌, refl, sym, ap, ◌∙◌, arith, Bool-cases, inl, inr, All,
}
use mathlib.Core.List.{append-nil, append_assoc}
use embyr_rs.Domain.FieldValue.{Float, FieldValue, Values, no_values, value, value_eq}
use embyr_rs.Domain.FieldTransform.{contains, push, add_missing, append_missing, retain}

module _ {F : Type 0} where
  -- The elements of an array, as a list.
  abbrev pub elements : Values F → List (FieldValue F)
  elements no_values = []
  elements (value v vs) = v ∷ elements vs

  elements-push :
      ⦃float : Float F⦄ (vs : Values F) (x : FieldValue F)
      → elements (push vs x) ≡ elements vs ++ x ∷ []
  unfolding push
  elements-push no_values x = refl
  elements-push (value v vs) x = ap (λ r. v ∷ r) (elements-push vs x)

module _ {F : Type 0} ⦃float : Float F⦄ where
  contains-push :
      (vs : Values F) (x y : FieldValue F)
      → contains (push vs x) y ≡ (contains vs y || value_eq x y)
  unfolding contains push
  contains-push no_values x y = ground arith
  contains-push (value v vs) x y = ground (arith, contains-push vs x y)

  contains_step :
      (merged : Values F) (v y : FieldValue F)
      → contains merged y ≡ true
      → contains (add_missing merged v) y ≡ true
  contains_step merged v y h = ground (arith, contains-push merged v y)

  append_missing_keeps :
      (merged given : Values F) (y : FieldValue F)
      → contains merged y ≡ true
      → contains (append_missing merged given) y ≡ true
  unfolding append_missing
  append_missing_keeps merged no_values y h = h
  append_missing_keeps merged (value v vs) y h =
      append_missing_keeps (add_missing merged v) vs y (contains_step merged v y h)

  -- Everything given is among the result, if it equals itself (as all but NaN does).
  append_missing-contains :
      (merged given : Values F)
      → All (λ v. value_eq v v ≡ true) (elements given)
      → All (λ v. contains (append_missing merged given) v ≡ true) (elements given)
  unfolding append_missing
  append_missing-contains merged no_values h = tt
  append_missing-contains merged (value v vs) (e, h) = (
    append_missing_keeps (add_missing merged v) vs v (ground (arith, contains-push merged v v)),
    append_missing-contains (add_missing merged v) vs h,
  )

  append_missing_present :
      (merged given : Values F)
      → All (λ v. contains merged v ≡ true) (elements given)
      → append_missing merged given ≡ merged
  unfolding append_missing
  append_missing_present merged no_values h = refl
  append_missing_present merged (value v vs) (e, h) = rw e (append_missing_present merged vs h)

  append_missing_suffix :
      (merged given : Values F)
      → (suffix : List (FieldValue F)) × (elements (append_missing merged given)
          ≡ elements merged ++ suffix)
  unfolding append_missing
  append_missing_suffix merged no_values = ([], sym (append-nil _))
  append_missing_suffix merged (value v vs) = elim (Bool-cases (contains merged v)) [
    | inl e ↦ rw e (append_missing_suffix merged vs)
    | inr e ↦
        let (suffix, s) = append_missing_suffix (push merged v) vs in
        rw e (v ∷ suffix, s ∙ simp (elements-push, append_assoc))
  ]

  -- Appending keeps the array as a prefix, leaves every given value among the elements, and does
  -- nothing when it is run again with the same values, each of which equals itself (NaN does not).
  pub append_missing_lem :
      (existing given : Values F)
      → All (λ v. value_eq v v ≡ true) (elements given)
      → ((suffix : List (FieldValue F)) × (elements (append_missing existing given)
            ≡ elements existing ++ suffix))
        × All (λ v. contains (append_missing existing given) v ≡ true) (elements given)
        × (append_missing (append_missing existing given) given ≡ append_missing existing given)
  append_missing_lem existing given h =
      let present = append_missing-contains existing given h in
      (
        append_missing_suffix existing given,
        present,
        append_missing_present (append_missing existing given) given present,
      )

  retain-absent :
      (vs given : Values F) → All (λ v. contains given v ≡ false) (elements (retain vs given))
  unfolding retain
  retain-absent no_values given = tt
  retain-absent (value v vs) given = elim (Bool-cases (contains given v)) [
    | inl e ↦ rw e (retain-absent vs given)
    | inr e ↦ rw e (e, retain-absent vs given)
  ]

  retain_unchanged :
      (vs given : Values F)
      → All (λ v. contains given v ≡ false) (elements vs)
      → retain vs given ≡ vs
  unfolding retain
  retain_unchanged no_values given h = refl
  retain_unchanged (value v vs) given (e, h) = rw e (ap (value v) (retain_unchanged vs given h))

  -- Removing leaves no element that equals a given value, and leaves an array with none of them as it
  -- is; so it does nothing when it is run again.
  pub retain_lem :
      (existing given : Values F)
      → All (λ v. contains given v ≡ false) (elements (retain existing given))
        × (All (λ v. contains given v ≡ false) (elements existing)
            → retain existing given ≡ existing)
        × (retain (retain existing given) given ≡ retain existing given)
  retain_lem existing given =
      let absent = retain-absent existing given in
      (
        absent,
        retain_unchanged existing given,
        retain_unchanged (retain existing given) given absent,
      )
