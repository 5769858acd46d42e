-- ===== src/Value.antt =====
-- src/types/value.rs and src/catalog/types.rs: SQL types and values. The type of `f64` and its
-- operations are parameters; a varchar is its bytes.
use oxtub.Base.{ℕ, Bool, true, false, Option, none, some, List, ◌+◌, length}
use oxtub.Base.Int.{ℤ}

pub data SqlType : Type 0 where
  boolean small_int integer big_int decimal varchar : SqlType

-- What the program uses of `f64`, over the type `D` of its values.
pub record Floats (D : Type 0) : Type 0 where
  pub add : D → D → D
  pub sub : D → D → D
  pub negate : D → D
  pub feq : D → D → Bool
  pub flt : D → D → Bool
  pub fle : D → D → Bool
  -- `as f64`
  pub of_int : ℤ → D

pub data Value (D : Type 0) : Type 0 where
  boolean : Bool → Value D
  small_int : ℤ → Value D
  integer : ℤ → Value D
  big_int : ℤ → Value D
  decimal : D → Value D
  varchar : List ℕ → Value D
  null : SqlType → Value D

-- `PartialEq` of `SqlType`.
abbrev pub type_eq : SqlType → SqlType → Bool
type_eq SqlType.boolean SqlType.boolean = true
type_eq SqlType.small_int SqlType.small_int = true
type_eq SqlType.integer SqlType.integer = true
type_eq SqlType.big_int SqlType.big_int = true
type_eq SqlType.decimal SqlType.decimal = true
type_eq SqlType.varchar SqlType.varchar = true
type_eq _ _ = false

-- `SqlType::inline_size`; `none` is the panic on a variable type.
unfoldable pub inline_size : SqlType → Option ℕ
inline_size SqlType.boolean = some 1
inline_size SqlType.small_int = some 2
inline_size SqlType.integer = some 4
inline_size SqlType.big_int = some 8
inline_size SqlType.decimal = some 8
inline_size SqlType.varchar = none

module _ {D : Type 0} where
  abbrev pub sql_type : Value D → SqlType
  sql_type (Value.boolean b) = SqlType.boolean
  sql_type (Value.small_int i) = SqlType.small_int
  sql_type (Value.integer i) = SqlType.integer
  sql_type (Value.big_int i) = SqlType.big_int
  sql_type (Value.decimal f) = SqlType.decimal
  sql_type (Value.varchar s) = SqlType.varchar
  sql_type (Value.null t) = t

  abbrev pub is_null : Value D → Bool
  is_null (Value.boolean b) = false
  is_null (Value.small_int i) = false
  is_null (Value.integer i) = false
  is_null (Value.big_int i) = false
  is_null (Value.decimal f) = false
  is_null (Value.varchar s) = false
  is_null (Value.null t) = true

  -- The length prefix of a varchar takes 4 bytes.
  unfoldable pub variable_storage_size : Value D → Option ℕ
  variable_storage_size (Value.varchar s) = some (length s + 4)
  variable_storage_size (Value.null t) = some 0
  variable_storage_size (Value.boolean b) = none
  variable_storage_size (Value.small_int i) = none
  variable_storage_size (Value.integer i) = none
  variable_storage_size (Value.big_int i) = none
  variable_storage_size (Value.decimal f) = none
