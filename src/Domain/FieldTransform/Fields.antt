-- ===== src/Domain/FieldTransform/Fields.antt =====
-- Which fields a transform changes, and the value that it reports.
use embyr_rs.Base.{Option, none, some, ◌≡◌, ◌≢◌, ◌∙◌, arith, ok, >>=-ok, inl, inr, ◌⊎◌}
use embyr_rs.Base.Int.{ℤ}
use embyr_rs.Base.Text.{Text, text_eq_iff}
use embyr_rs.Base.Dict.{Dict, get, insert, get-insert, get-insert_self}
use embyr_rs.Domain.FieldValue.{Float, FieldValue, Values, array, timestamp}
use embyr_rs.Domain.FieldTransform.{
  FieldTransform, server_timestamp, increment, maximum, minimum, append_missing_elements,
  remove_all_from_array, compute_increment, compute_extremum, append_missing_to, remove_all_from,
  retain, apply_field_transform,
}

module _ {F : Type 0} where
  -- The field that a transform names.
  abbrev pub field_path : FieldTransform F → Text
  field_path (server_timestamp p) = p
  field_path (increment p v) = p
  field_path (maximum p v) = p
  field_path (minimum p v) = p
  field_path (append_missing_elements p vs) = p
  field_path (remove_all_from_array p vs) = p

  get-insert_other :
      (p j : Text) (v : FieldValue F) (fields : Dict (FieldValue F))
      → j ≢ p
      → get j (insert p v fields) ≡ get j fields
  get-insert_other p j v fields n = ground (arith, get-insert p j v fields, text_eq_iff p j)

module _ {F : Type 0} ⦃float : Float F⦄ where
  -- A value is stored in the field and reported, or stored without a report, or nothing happens.
  abbrev Effect : Text → Dict (FieldValue F) → Dict (FieldValue F) → Option (FieldValue F) → Type 0
  Effect p fields fields' r =
      ((v : FieldValue F) × (fields' ≡ insert p v fields) × ((r ≡ some v) ⊎ (r ≡ none)))
      ⊎ ((fields' ≡ fields) × (r ≡ none))

  remove_Effect :
      (fields fields' : Dict (FieldValue F)) (p : Text) (o : Option (FieldValue F)) (vs : Values F)
      → remove_all_from fields p o vs ≡ ok fields'
      → ((v : FieldValue F) × (fields' ≡ insert p v fields)) ⊎ (fields' ≡ fields)
  unfolding remove_all_from
  remove_Effect fields fields' p none vs h = inr (cc)
  remove_Effect fields fields' p (some (array xs)) vs h = inl (array (retain xs vs), cc)
  remove_Effect fields fields' p (some _) vs h = cc

  apply_Effect :
      (fields fields' : Dict (FieldValue F)) (t : FieldTransform F) (now : ℤ × ℤ)
      (r : Option (FieldValue F))
      → apply_field_transform fields t now ≡ ok (fields', r)
      → Effect (field_path t) fields fields' r
  unfolding apply_field_transform
  apply_Effect fields fields' (server_timestamp p) (s, n) r h = inl (timestamp s n, cc, inl (cc))
  apply_Effect fields fields' (increment p d) now r h =
      let (v, e, e') = >>=-ok (compute_increment (get p fields) d) _ h in inl (v, cc, inl (cc))
  apply_Effect fields fields' (maximum p d) now r h =
      let (v, e, e') = >>=-ok (compute_extremum (get p fields) d _) _ h in inl (v, cc, inl (cc))
  apply_Effect fields fields' (minimum p d) now r h =
      let (v, e, e') = >>=-ok (compute_extremum (get p fields) d _) _ h in inl (v, cc, inl (cc))
  apply_Effect fields fields' (append_missing_elements p vs) now r h =
      let (m, e, e') = >>=-ok (append_missing_to (get p fields) vs) _ h in
      inl (array m, cc, inr (cc))
  apply_Effect fields fields' (remove_all_from_array p vs) now r h =
      let (m, e, e') = >>=-ok (remove_all_from fields p (get p fields) vs) _ h in
      elim (remove_Effect fields m p (get p fields) vs e) [
        | inl (v, q) ↦ inl (v, cc, inr (cc))
        | inr q ↦ inr (cc, cc)
      ]

  -- A transform that succeeds changes its own field at most, and the value that it reports is the one
  -- that it stored there.
  pub apply_field_transform-get :
      (fields fields' : Dict (FieldValue F)) (t : FieldTransform F) (now : ℤ × ℤ)
      (r : Option (FieldValue F))
      → apply_field_transform fields t now ≡ ok (fields', r)
      → ((j : Text) → j ≢ field_path t → get j fields' ≡ get j fields)
        × ((v : FieldValue F) → r ≡ some v → get (field_path t) fields' ≡ some v)
  apply_field_transform-get fields fields' t now r h =
      elim (apply_Effect fields fields' t now r h) [
        | inl (v, e, o) ↦ (
          λ j n. rw e (get-insert_other (field_path t) j v fields n),
          λ w q. rw e (
              get-insert_self (field_path t) v fields
              ∙ (elim o [ inl reported ↦ cc | inr silent ↦ absurd (cc) ])),
        )
        | inr (e, q) ↦ (λ j n. rw e, λ w q'. absurd (cc))
      ]
