-- ===== src/Config/Values.antt =====
-- The std::any values of the configuration, by the static types of what is assigned, and the part
-- of the JSON library (simdjson::dom) that the configuration uses.
use work_horz.Base.{ℕ, Bool, Bytes, Option, none, some}

-- `uint64_result` and `bool_result` are simdjson_result<uint64_t> and simdjson_result<bool>, the types
-- that `get_uint64()` and `get_bool()` return; `literal` is a `const char*`. `string_view` is a view of a
-- text that the parser of `read_config` owns: the parser is gone once `read_config` returns, and the view
-- then dangles, so it has no bytes here.
pub data Any : Type 0 where
  empty : Any
  uint64_result : ℕ → Any
  bool_result : Bool → Any
  string_view : Any
  string : Bytes → Any
  int : ℕ → Any
  boolean : Bool → Any
  literal : Bytes → Any

-- `std::any_cast<std::string>` and `std::any_cast<int>`: `none` is bad_any_cast.
unfoldable pub cast_string : Any → Option Bytes
cast_string (string s) = some s
cast_string _ = none

unfoldable pub cast_int : Any → Option ℕ
cast_int (int n) = some n
cast_int _ = none

pub record Json : Type 1 where
  pub Element : Type 0
  pub is_null : Element → Bool
  pub is_uint64 : Element → Bool
  pub is_string : Element → Bool
  pub is_bool : Element → Bool
  pub get_uint64 : Element → ℕ
  pub get_bool : Element → Bool
