-- ===== src/Resp3/Tagged/Kind.antt =====
-- The type `Kind` of enums/tagged_union/resp3.go and its `String` method.
use go_backend_examples.Common.{ℕ, String}

-- A uint8; `other n` is a value that has no constant.
pub data Kind : Type 0 where
  kind_simple_string kind_error kind_integer kind_big_number kind_double kind_boolean : Kind
  kind_null kind_bulk_string kind_blob_error kind_verbatim_string kind_array kind_set : Kind
  kind_push kind_map kind_attribute : Kind
  other : ℕ → Kind

pub string : Kind → String
string kind_simple_string = "simple_string"
string kind_error = "error"
string kind_integer = "integer"
string kind_big_number = "big_number"
string kind_double = "double"
string kind_boolean = "boolean"
string kind_null = "null"
string kind_bulk_string = "bulk_string"
string kind_blob_error = "blob_error"
string kind_verbatim_string = "verbatim_string"
string kind_array = "array"
string kind_set = "set"
string kind_push = "push"
string kind_map = "map"
string kind_attribute = "attribute"
string (other n) = "unknown"
