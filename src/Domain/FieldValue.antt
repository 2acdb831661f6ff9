-- ===== src/Domain/FieldValue.antt =====
-- crates/embyr-core/src/domain/field_value.rs: the values of document fields, and their equality.
use embyr_rs.Base.{ℕ, Option, Bool, true, false, ◌&&◌, List}
use embyr_rs.Base.Int.{ℤ, eqb_ℤ}
use embyr_rs.Base.Text.{Text, text_eq}

-- The operations on `f64` that the source uses, `of_decimal` being `str::parse`; nothing is assumed of
-- them.
pub record Float (F : Type 0) : Type 0 where
  pub zero : F
  pub of_i64 : ℤ → F
  pub eq : F → F → Bool
  pub lt : F → F → Bool
  pub le : F → F → Bool
  pub add : F → F → F
  pub sub : F → F → F
  pub of_decimal : Text → Option F

-- `Values` and `Entries` are the vector of an array and the map of a map value. A timestamp holds
-- seconds and nanoseconds.
mutual
  pub data FieldValue (F : Type 0) : Type 0 where
    null : FieldValue F
    boolean : Bool → FieldValue F
    integer : ℤ → FieldValue F
    double : F → FieldValue F
    timestamp : ℤ → ℤ → FieldValue F
    string : Text → FieldValue F
    bytes : List ℕ → FieldValue F
    reference : Text → FieldValue F
    array : Values F → FieldValue F
    map : Entries F → FieldValue F

  pub data Values (F : Type 0) : Type 0 where
    no_values : Values F
    value : FieldValue F → Values F → Values F

  pub data Entries (F : Type 0) : Type 0 where
    no_entries : Entries F
    entry : Text → FieldValue F → Entries F → Entries F

module _ {F : Type 0} ⦃float : Float F⦄ where
  -- The derived `PartialEq`; the entries of a map stand in key order.
  unfoldable mutual
    pub value_eq : FieldValue F → FieldValue F → Bool
    value_eq null null = true
    value_eq (boolean true) (boolean true) = true
    value_eq (boolean false) (boolean false) = true
    value_eq (integer a) (integer b) = eqb_ℤ a b
    value_eq (double a) (double b) = float.eq a b
    value_eq (timestamp s n) (timestamp t m) = eqb_ℤ s t && eqb_ℤ n m
    value_eq (string s) (string t) = text_eq s t
    value_eq (bytes s) (bytes t) = text_eq s t
    value_eq (reference s) (reference t) = text_eq s t
    value_eq (array xs) (array ys) = values_eq xs ys
    value_eq (map xs) (map ys) = entries_eq xs ys
    value_eq _ _ = false

    pub values_eq : Values F → Values F → Bool
    values_eq no_values no_values = true
    values_eq (value a xs) (value b ys) = value_eq a b && values_eq xs ys
    values_eq _ _ = false

    pub entries_eq : Entries F → Entries F → Bool
    entries_eq no_entries no_entries = true
    entries_eq (entry k a xs) (entry j b ys) = text_eq k j && (value_eq a b && entries_eq xs ys)
    entries_eq _ _ = false
