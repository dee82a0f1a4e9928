-- ===== src/Functions/Table.antt =====
-- execution/functions/table.go: the functions that queries may call.
use octosql.Functions.Function.{Function, FunctionLibraries}
use octosql.Functions.Numbers.{
  func_int, func_float, func_negate, func_abs, func_sqrt, func_floor, func_ceil, func_log2, func_ln,
  func_least, func_greatest, func_rand_float, func_rand_int, func_power,
}
use octosql.Functions.Sequences.{
  func_reverse, func_substring, func_has_prefix, func_has_suffix, func_nth, func_length,
  func_string_join, func_contains, func_index,
}
use octosql.Functions.Strings.{
  func_lower, func_upper, func_capitalize, func_regexp_find, func_regexp_matches, func_replace,
  func_decode_base32,
}
use octosql.Functions.Operators.{
  func_add, func_subtract, func_multiply, func_divide, func_duration, func_now, func_parse_time,
  func_coalesce, func_null_if,
}

-- `usableFunctions`, each by what it does.
pub data FunctionName : Type 0 where
  to_int to_float lowercase uppercase negate abs capitalize sqrt greatest least : FunctionName
  rand_int rand_float ceil floor log2 ln power reverse substring : FunctionName
  regexp_find regexp_matches nth replace has_prefix has_suffix contains index : FunctionName
  length now string_join add subtract multiply divide to_duration coalesce null_if : FunctionName
  parse_time decode_base32 : FunctionName

-- `FunctionTable`
unfoldable pub function_table : FunctionLibraries → FunctionName → Function
function_table lib to_int = func_int lib
function_table lib to_float = func_float lib
function_table lib lowercase = func_lower lib
function_table lib uppercase = func_upper lib
function_table lib negate = func_negate lib
function_table lib abs = func_abs lib
function_table lib capitalize = func_capitalize lib
function_table lib sqrt = func_sqrt lib
function_table lib greatest = func_greatest lib
function_table lib least = func_least lib
function_table lib rand_int = func_rand_int lib
function_table lib rand_float = func_rand_float lib
function_table lib ceil = func_ceil lib
function_table lib floor = func_floor lib
function_table lib log2 = func_log2 lib
function_table lib ln = func_ln lib
function_table lib power = func_power lib
function_table lib reverse = func_reverse
function_table lib substring = func_substring
function_table lib regexp_find = func_regexp_find lib
function_table lib regexp_matches = func_regexp_matches lib
function_table lib nth = func_nth
function_table lib replace = func_replace lib
function_table lib has_prefix = func_has_prefix
function_table lib has_suffix = func_has_suffix
function_table lib contains = func_contains lib
function_table lib index = func_index lib
function_table lib length = func_length
function_table lib now = func_now lib
function_table lib string_join = func_string_join
function_table lib add = func_add lib
function_table lib subtract = func_subtract lib
function_table lib multiply = func_multiply lib
function_table lib divide = func_divide lib
function_table lib to_duration = func_duration lib
function_table lib coalesce = func_coalesce
function_table lib null_if = func_null_if lib
function_table lib parse_time = func_parse_time lib
function_table lib decode_base32 = func_decode_base32 lib
