-- ===== src/Domain/FieldTransform.antt =====
-- crates/embyr-core/src/domain/field_transform.rs. A transform returns the new fields in place of
-- changing them, with the value that it contributes to the write's result.
pub mod Fields
pub mod Numeric
pub mod Arrays
use embyr_rs.Base.{
  Bool, true, false, not, ◌&&◌, ◌||◌, Option, none, some, List, if◌then◌else◌, Result, ok, err,
  ◌>>=◌,
}
use embyr_rs.Base.Int.{ℤ, pos, ◌+ℤ◌, fits_i64}
use embyr_rs.Base.Text.{Text, codes}
use embyr_rs.Base.Dict.{Dict, get, insert}
use embyr_rs.Domain.Error.{CoreError, invalid_argument}
use embyr_rs.Domain.FieldValue.{
  Float, FieldValue, Values, integer, double, timestamp, array, no_values, value, value_eq,
}

-- `FieldTransform` of storage/backend_adapter.rs.
pub data FieldTransform (F : Type 0) : Type 0 where
  server_timestamp : Text → FieldTransform F
  increment maximum minimum : Text → FieldValue F → FieldTransform F
  append_missing_elements remove_all_from_array : Text → Values F → FieldTransform F

pub data Extremum : Type 0 where
  maximum minimum : Extremum

-- `i64::checked_add`.
unfoldable pub checked_add : ℤ → ℤ → Option ℤ
checked_add a b = if fits_i64 (a +ℤ b) then some (a +ℤ b) else none

abbrev pub or_overflow : {F : Type 0} → Option ℤ → Result CoreError (FieldValue F)
or_overflow (some c) = ok (integer c)
or_overflow none = err (invalid_argument (codes "increment overflow: result exceeds i64 range"))

unfoldable pub extremum_error : Extremum → Bool → CoreError
extremum_error Extremum.maximum true = invalid_argument (codes "maximum comparand must be numeric")
extremum_error Extremum.minimum true = invalid_argument (codes "minimum comparand must be numeric")
extremum_error Extremum.maximum false = invalid_argument (codes "maximum target is not numeric")
extremum_error Extremum.minimum false = invalid_argument (codes "minimum target is not numeric")

module _ {F : Type 0} where
  abbrev pub is_numeric : FieldValue F → Bool
  is_numeric (integer i) = true
  is_numeric (double d) = true
  is_numeric _ = false

module _ {F : Type 0} ⦃float : Float F⦄ where
  -- Only called on numeric values.
  unfoldable pub as_f64 : FieldValue F → F
  as_f64 (integer i) = float.of_i64 i
  as_f64 (double d) = d
  as_f64 _ = float.zero

  unfoldable pub zero_like : FieldValue F → FieldValue F
  zero_like (double d) = double float.zero
  zero_like _ = integer (pos 0)

  unfoldable pub add_numeric : FieldValue F → FieldValue F → Result CoreError (FieldValue F)
  unfolding as_f64
  add_numeric (integer c) (integer d) = or_overflow (checked_add c d)
  add_numeric current delta = ok (double (float.add (as_f64 current) (as_f64 delta)))

  -- The value that an increment starts from.
  unfoldable pub increment_base :
      Option (FieldValue F) → FieldValue F → Result CoreError (FieldValue F)
  unfolding zero_like
  increment_base none delta = ok (zero_like delta)
  increment_base (some v) delta =
      if is_numeric v
      then ok v
      else err (invalid_argument (codes "increment target is not numeric"))

  unfoldable pub compute_increment :
      Option (FieldValue F) → FieldValue F → Result CoreError (FieldValue F)
  compute_increment current delta =
      if not (is_numeric delta)
      then err (invalid_argument (codes "increment delta must be numeric"))
      else (do base ← increment_base current delta; add_numeric base delta)

  unfoldable pub current_wins : FieldValue F → FieldValue F → Extremum → Bool
  unfolding as_f64
  current_wins current given Extremum.maximum = float.le (as_f64 given) (as_f64 current)
  current_wins current given Extremum.minimum = float.le (as_f64 current) (as_f64 given)

  unfoldable pub pick_extremum : FieldValue F → FieldValue F → Extremum → FieldValue F
  pick_extremum current given which = if current_wins current given which then current else given

  unfoldable pub compute_extremum :
      Option (FieldValue F) → FieldValue F → Extremum → Result CoreError (FieldValue F)
  compute_extremum none given which =
      if not (is_numeric given) then err (extremum_error which true) else ok given
  compute_extremum (some v) given which =
      if not (is_numeric given)
      then err (extremum_error which true)
      else if is_numeric v
      then ok (pick_extremum v given which)
      else err (extremum_error which false)

  -- `slice::contains`.
  unfoldable pub contains : Values F → FieldValue F → Bool
  contains no_values x = false
  contains (value v vs) x = value_eq v x || contains vs x

  unfoldable pub push : Values F → FieldValue F → Values F
  push no_values x = value x no_values
  push (value v vs) x = value v (push vs x)

  abbrev pub add_missing : Values F → FieldValue F → Values F
  add_missing merged v = if contains merged v then merged else push merged v

  -- The loop of `append_missing_elements`.
  unfoldable pub append_missing : Values F → Values F → Values F
  append_missing merged no_values = merged
  append_missing merged (value v vs) = append_missing (add_missing merged v) vs

  -- The filter of `remove_all_from_array`.
  unfoldable pub retain : Values F → Values F → Values F
  retain no_values given = no_values
  retain (value v vs) given =
      let rest = retain vs given in if contains given v then rest else value v rest

  unfoldable pub append_missing_to : Option (FieldValue F) → Values F → Result CoreError (Values F)
  append_missing_to none given = ok (append_missing no_values given)
  append_missing_to (some (array existing)) given = ok (append_missing existing given)
  append_missing_to (some _) given =
      err (invalid_argument (codes "appendMissingElements target is not an array"))

  unfoldable pub remove_all_from :
      Dict (FieldValue F)
      → Text
      → Option (FieldValue F)
      → Values F
      → Result CoreError (Dict (FieldValue F))
  remove_all_from fields field_path none given = ok fields
  remove_all_from fields field_path (some (array existing)) given =
      ok (insert field_path (array (retain existing given)) fields)
  remove_all_from fields field_path (some _) given =
      err (invalid_argument (codes "removeAllFromArray target is not an array"))

  -- `fields.insert(…); Ok(Some(value))`
  abbrev pub store :
      Dict (FieldValue F) → Text → FieldValue F → Dict (FieldValue F) × Option (FieldValue F)
  store fields field_path v = (insert field_path v fields, some v)

  unfoldable pub apply_field_transform :
      Dict (FieldValue F)
      → FieldTransform F
      → ℤ × ℤ
      → Result CoreError (Dict (FieldValue F) × Option (FieldValue F))
  apply_field_transform fields (server_timestamp field_path) (secs, nanos) =
      ok (store fields field_path (timestamp secs nanos))
  apply_field_transform fields (FieldTransform.increment field_path delta) now = do
    v ← compute_increment (get field_path fields) delta
    ok (store fields field_path v)
  apply_field_transform fields (FieldTransform.maximum field_path given) now = do
    v ← compute_extremum (get field_path fields) given Extremum.maximum
    ok (store fields field_path v)
  apply_field_transform fields (FieldTransform.minimum field_path given) now = do
    v ← compute_extremum (get field_path fields) given Extremum.minimum
    ok (store fields field_path v)
  apply_field_transform fields (append_missing_elements field_path given) now = do
    merged ← append_missing_to (get field_path fields) given
    ok (insert field_path (array merged) fields, none)
  apply_field_transform fields (remove_all_from_array field_path given) now = do
    fields' ← remove_all_from fields field_path (get field_path fields) given
    ok (fields', none)
