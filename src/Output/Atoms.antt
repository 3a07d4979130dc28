-- ===== src/Output/Atoms.antt =====
-- The RDS atoms of src/ngx_http_drizzle_output.c: the bytes of a result header, a column, a row flag and a field, and
-- the functions that output them. The column types are those of src/resty_dbd_stream.h.
use drizzle_nginx_module.Prelude.{
  ℕ, ◌+◌, ◌*◌, ◌-◌, ◌%◌, ◌^◌, not, ◌&&◌, List, [], ◌∷◌, ◌++◌, Option, none, some, length, take,
  ◌==◌, if◌then◌else◌,
}
use Prim.Native.Nat.{bit_or}
use drizzle_nginx_module.Nginx.{Rc}
use drizzle_nginx_module.Output.Bytes.{le_bytes}
use drizzle_nginx_module.Output.Buffers.{
  Conf, Client, Action, ◌>>◌, check_size, mark_end, request_mem, submit_mem, emit,
}

-- `rds_rough_col_type_t`
abbrev pub rough_int : ℕ
rough_int = 0

abbrev pub rough_float : ℕ
rough_float = 1 * 2 ^ 14

abbrev pub rough_str : ℕ
rough_str = 2 * 2 ^ 14

abbrev pub rough_bool : ℕ
rough_bool = 3 * 2 ^ 14

-- `rds_col_type_t`
pub data RdsType : Type 0 where
  unknown bigint bit bit_varying bool char varchar date double integer interval decimal : RdsType
  real smallint time_with_time_zone time timestamp_with_time_zone timestamp xml blob : RdsType

unfoldable pub rds_code : RdsType → ℕ
rds_code unknown = bit_or 0 rough_str
rds_code bigint = bit_or 1 rough_int
rds_code bit = bit_or 2 rough_str
rds_code bit_varying = bit_or 3 rough_str
rds_code bool = bit_or 4 rough_bool
rds_code char = bit_or 5 rough_str
rds_code varchar = bit_or 6 rough_str
rds_code date = bit_or 7 rough_str
rds_code double = bit_or 8 rough_float
rds_code integer = bit_or 9 rough_int
rds_code interval = bit_or 10 rough_float
rds_code decimal = bit_or 11 rough_float
rds_code real = bit_or 12 rough_float
rds_code smallint = bit_or 13 rough_int
rds_code time_with_time_zone = bit_or 14 rough_str
rds_code time = bit_or 15 rough_str
rds_code timestamp_with_time_zone = bit_or 16 rough_str
rds_code timestamp = bit_or 17 rough_str
rds_code xml = bit_or 18 rough_str
rds_code blob = bit_or 19 rough_str

-- libdrizzle's `drizzle_column_type_t`, by the names DRIZZLE_COLUMN_TYPE_*; `other` is any further value.
pub data ColumnType : Type 0 where
  t_decimal t_tiny t_short t_long t_float t_double t_null t_timestamp t_longlong t_int24 :
      ColumnType
  t_date t_time t_datetime t_year t_newdate t_varchar t_bit t_newdecimal t_enum t_set : ColumnType
  t_tiny_blob t_medium_blob t_long_blob t_blob t_var_string t_string t_geometry : ColumnType
  other : ℕ → ColumnType

-- ngx_http_drizzle_std_col_type
unfoldable pub std_col_type : ColumnType → RdsType
std_col_type t_decimal = decimal
std_col_type t_tiny = smallint
std_col_type t_short = smallint
std_col_type t_long = integer
std_col_type t_float = real
std_col_type t_double = double
std_col_type t_null = unknown
std_col_type t_timestamp = timestamp
std_col_type t_longlong = bigint
std_col_type t_int24 = integer
std_col_type t_date = timestamp
std_col_type t_time = time
std_col_type t_datetime = timestamp
std_col_type t_year = smallint
std_col_type t_newdate = timestamp
std_col_type t_varchar = varchar
std_col_type t_bit = bit
std_col_type t_newdecimal = decimal
std_col_type t_enum = varchar
std_col_type t_set = varchar
std_col_type t_tiny_blob = blob
std_col_type t_medium_blob = blob
std_col_type t_long_blob = blob
std_col_type t_blob = blob
std_col_type t_var_string = varchar
std_col_type t_string = varchar
std_col_type t_geometry = varchar
std_col_type (other n) = unknown

-- What libdrizzle reports of a result: `drizzle_result_error_code`, `_error`, `_affected_rows`, `_insert_id` and
-- `_column_count`.
pub record DbResult : Type 0 where
  pub error_code : ℕ
  pub error : List ℕ
  pub affected_rows : ℕ
  pub insert_id : ℕ
  pub column_count : ℕ

-- What it reports of a column: `drizzle_column_type` with its number, and `drizzle_column_name`.
pub record Column : Type 0 where
  pub type : ColumnType
  pub type_number : ℕ
  pub name : List ℕ

-- `resty_dbd_stream_version`
abbrev pub stream_version : ℕ
stream_version = 3

-- `(uint16_t) strlen(s)`
abbrev pub len16 : List ℕ → ℕ
len16 s = length s % 2 ^ 16

-- The bytes that ngx_http_drizzle_output_result_header writes, and the `size` that it computes first.
unfoldable pub header_bytes : DbResult → List ℕ
header_bytes res =
    0
    ∷ (le_bytes 4 stream_version
        ++ (0
            ∷ (le_bytes 2 res.error_code
                ++ (le_bytes 2 res.error_code
                    ++ (le_bytes 2 (len16 res.error)
                        ++ (take (len16 res.error) res.error
                            ++ (le_bytes 8 res.affected_rows
                                ++ (le_bytes 8 res.insert_id ++ le_bytes 2 res.column_count))))))))

unfoldable pub header_size : DbResult → ℕ
header_size res = 1 + 4 + 1 + 2 + 2 + 2 + len16 res.error + 8 + 8 + 2

-- The bytes and the size of ngx_http_drizzle_output_col.
unfoldable pub col_bytes : Column → List ℕ
unfolding std_col_type rds_code
col_bytes col =
    le_bytes 2 (rds_code (std_col_type col.type))
    ++ (le_bytes 2 col.type_number
        ++ (le_bytes 2 (len16 col.name) ++ take (len16 col.name) col.name))

unfoldable pub col_size : Column → ℕ
col_size col = 2 + 2 + 2 + len16 col.name

-- The byte of ngx_http_drizzle_output_row.
unfoldable pub row_bytes : ℕ → List ℕ
row_bytes row = (if row == 0 then 0 else 1) ∷ []

-- The bytes and the size of ngx_http_drizzle_output_field for `len` bytes of a field of `total` bytes, from `offset`
-- on; `none` is the NULL field.
unfoldable pub field_bytes : ℕ → ℕ → ℕ → Option (List ℕ) → List ℕ
field_bytes offset len total none = (if offset == 0 then le_bytes 4 (2 ^ 32 - 1) else [])
field_bytes offset len total (some bytes) =
    (if offset == 0 then le_bytes 4 (total % 2 ^ 32) else [])
    ++ (if len == 0 then [] else take (len % 2 ^ 32) bytes)

unfoldable pub field_size : ℕ → ℕ → ℕ
field_size offset len = (if offset == 0 then 4 else 0) + len % 2 ^ 32

module _ (cl : Client) (conf : Conf) where
  -- ngx_http_drizzle_output_col
  unfoldable pub output_col : Option Column → Action
  unfolding col_size col_bytes
  output_col none o = (Rc.error, o)
  output_col (some col) o = emit cl conf (col_size col) (col_bytes col) o

  -- ngx_http_drizzle_output_row: `seen_stream_end` is set between the two.
  unfoldable pub output_row : ℕ → Action
  unfolding row_bytes mark_end request_mem submit_mem
  output_row row = request_mem cl conf 1 >> mark_end (row == 0) >> submit_mem cl (row_bytes row)

  -- ngx_http_drizzle_output_result_header from its `size` to its submission.
  unfoldable pub write_header : DbResult → Action
  unfolding header_size header_bytes mark_end request_mem submit_mem
  write_header res =
      request_mem cl conf (header_size res)
      >> (check_size (header_size res) (header_bytes res) >> mark_end (res.column_count == 0))
      >> submit_mem cl (header_bytes res)

  -- ngx_http_drizzle_output_field
  unfoldable pub output_field : ℕ → ℕ → ℕ → Option (List ℕ) → Action
  unfolding field_size field_bytes
  output_field offset len total field o =
      if offset == 0 && (len == 0 && not (total == 0))
      then (Rc.done, o)
      else emit cl conf (field_size offset len) (field_bytes offset len total field) o
