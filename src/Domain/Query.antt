-- ===== src/Domain/Query.antt =====
-- crates/embyr-core/src/domain/query.rs: query filters; and the documents of domain/document.rs.
use embyr_rs.Base.Int.{ℤ}
use embyr_rs.Base.Text.{Text}
use embyr_rs.Base.Dict.{Dict}
use embyr_rs.Domain.FieldValue.{FieldValue}

pub data FilterOp : Type 0 where
  less_than less_than_or_equal greater_than greater_than_or_equal equal not_equal : FilterOp
  array_contains in_list not_in array_contains_any : FilterOp
  is_nan is_not_nan is_null is_not_null : FilterOp

pub record FieldFilter (F : Type 0) : Type 0 where
  pub field_path : Text
  pub op : FilterOp
  pub value : FieldValue F

-- `Filters` is the vector of a composite filter.
mutual
  pub data QueryFilter (F : Type 0) : Type 0 where
    field : FieldFilter F → QueryFilter F
    composite : Filters F → QueryFilter F
    composite_or : Filters F → QueryFilter F

  pub data Filters (F : Type 0) : Type 0 where
    no_filters : Filters F
    filter : QueryFilter F → Filters F → Filters F

pub record DocumentPath : Type 0 where
  pub project_id : Text
  pub collection_path : Text
  pub document_id : Text

pub record FirestoreDocument (F : Type 0) : Type 0 where
  pub path : DocumentPath
  pub fields : Dict (FieldValue F)
  pub create_time : ℤ × ℤ
  pub update_time : ℤ × ℤ
  pub version : ℤ
