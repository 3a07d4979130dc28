-- ===== src/Output/Reader.antt =====
-- A reader of the RDS format, after the section "Output Format" of README.markdown. It shares no code with the
-- writer of src/ngx_http_drizzle_output.c.
use drizzle_nginx_module.Prelude.{
  ℕ, ◌+◌, ◌-◌, ◌%◌, ◌^◌, ◌<◌, ◌≡◌, refl, sym, ap, ◌∙◌, true, false, List, [], ◌∷◌, ◌++◌,
  append_assoc, append-nil, Option, none, some, length, take, take-of_length_le, length-append, ap₂,
  subst, ◌⊎◌, inl, inr, ◌==◌, arith,
}
use drizzle_nginx_module.Output.Bytes.{
  le_bytes, Reader, read_bytes, read_int, read_bytes-append, read_int-le_bytes, read_int-byte,
}
use drizzle_nginx_module.Output.Atoms.{
  DbResult, Column, RdsType, unknown, stream_version, len16, header_bytes, col_bytes, field_bytes,
  rds_code, std_col_type,
}

infixl 5 ◌>>=◌
abbrev ◌>>=◌ : {A B : Type 0} → Reader A → (A → Reader B) → Reader B
◌>>=◌ m f bs = elim (m bs) [ none ↦ none | some (a, rest) ↦ f a rest ]

abbrev give : {A : Type 0} → A → Reader A
give a bs = some (a, bs)

pub record RdsHeader : Type 0 where
  pub endian : ℕ
  pub version : ℕ
  pub kind : ℕ
  pub std_code : ℕ
  pub driver_code : ℕ
  pub message : List ℕ
  pub affected_rows : ℕ
  pub insert_id : ℕ
  pub column_count : ℕ

pub read_header : Reader RdsHeader
read_header = do
  endian ← read_int 1
  version ← read_int 4
  kind ← read_int 1
  std_code ← read_int 2
  driver_code ← read_int 2
  n ← read_int 2
  message ← read_bytes n
  affected_rows ← read_int 8
  insert_id ← read_int 8
  column_count ← read_int 2
  give (record {
    endian = endian;
    version = version;
    kind = kind;
    std_code = std_code;
    driver_code = driver_code;
    message = message;
    affected_rows = affected_rows;
    insert_id = insert_id;
    column_count = column_count;
  })

-- A column: its standard type, the driver's type, its name.
pub read_column : Reader (ℕ × ℕ × List ℕ)
read_column = do
  std ← read_int 2
  driver ← read_int 2
  n ← read_int 2
  name ← read_bytes n
  give (std, driver, name)

-- A field: `none` is NULL.
pub read_field : Reader (Option (List ℕ))
read_field = do
  n ← read_int 4
  elim (n == 2 ^ 32 - 1) [
    | true ↦ give none
    | false ↦ λ bs. elim (read_bytes n bs) [ none ↦ none | some (xs, rest) ↦ some (some xs, rest) ]
  ]

-- The numbers of a result are those of their C types.
pub record InRange (res : DbResult) : Type 0 where
  pub code : res.error_code < 2 ^ 16
  pub message : length res.error < 2 ^ 16
  pub rows : res.affected_rows < 2 ^ 64
  pub id : res.insert_id < 2 ^ 64
  pub columns : res.column_count < 2 ^ 16

take16 : (s : List ℕ) → length s < 2 ^ 16 → take (len16 s) s ≡ s
take16 s h = take-of_length_le (len16 s) s (omega arith)

-- A reader after the README gets from a result header what libdrizzle reported: the error code twice, the message,
-- the affected rows, the insert id and the number of columns, if these fit their C types; the rest is left.
pub read_header-header_bytes :
    (res : DbResult) (rest : List ℕ)
    → InRange res
    → read_header (header_bytes res ++ rest)
      ≡ some (
        record {
          endian = 0;
          version = stream_version;
          kind = 0;
          std_code = res.error_code;
          driver_code = res.error_code;
          message = res.error;
          affected_rows = res.affected_rows;
          insert_id = res.insert_id;
          column_count = res.column_count;
        },
        rest,
      )
unfolding read_header header_bytes
read_header-header_bytes res rest v =
    let n16 : length res.error % 2 ^ 16 ≡ length res.error = omega (arith, v.message) in
    let e4 : (bs : List ℕ) → read_int 4 (le_bytes 4 3 ++ bs) ≡ some (3, bs) =
      λ bs. read_int-le_bytes 4 3 bs (omega arith) in
    let code : (bs : List ℕ)
        → read_int 2 (le_bytes 2 res.error_code ++ bs) ≡ some (res.error_code, bs) =
      λ bs. read_int-le_bytes 2 res.error_code bs (omega (arith, v.code)) in
    let len : (bs : List ℕ)
        → read_int 2 (le_bytes 2 (length res.error) ++ bs) ≡ some (length res.error, bs) =
      λ bs. read_int-le_bytes 2 (length res.error) bs (omega (arith, v.message)) in
    let msg : (bs : List ℕ)
        → read_bytes (length res.error) (res.error ++ bs) ≡ some (res.error, bs) =
      λ bs. read_bytes-append (length res.error) res.error bs refl in
    let rows : (bs : List ℕ)
        → read_int 8 (le_bytes 8 res.affected_rows ++ bs) ≡ some (res.affected_rows, bs) =
      λ bs. read_int-le_bytes 8 res.affected_rows bs (omega (arith, v.rows)) in
    let id : (bs : List ℕ)
        → read_int 8 (le_bytes 8 res.insert_id ++ bs) ≡ some (res.insert_id, bs) =
      λ bs. read_int-le_bytes 8 res.insert_id bs (omega (arith, v.id)) in
    let cols : (bs : List ℕ)
        → read_int 2 (le_bytes 2 res.column_count ++ bs) ≡ some (res.column_count, bs) =
      λ bs. read_int-le_bytes 2 res.column_count bs (omega (arith, v.columns)) in
    simp (
      ◌>>=◌,
      n16,
      take-of_length_le (length res.error) res.error (omega arith),
      append_assoc,
      read_int-byte,
      e4,
      code,
      len,
      msg,
      rows,
      id,
      cols,
    )

rds_code-lt : (t : RdsType) → rds_code t < 2 ^ 16
unfolding rds_code
rds_code-lt unknown = omega arith
rds_code-lt _ = omega arith

-- A reader gets from a column's atom its standard type, its driver type and its name, if the type number and the
-- name's length fit 16 bits; the rest is left.
pub read_column-col_bytes :
    (col : Column) (rest : List ℕ)
    → col.type_number < 2 ^ 16
    → length col.name < 2 ^ 16
    → read_column (col_bytes col ++ rest)
      ≡ some ((rds_code (std_col_type col.type), col.type_number, col.name), rest)
unfolding read_column col_bytes
read_column-col_bytes col rest t h =
    let n16 : length col.name % 2 ^ 16 ≡ length col.name = omega arith in
    let std : (bs : List ℕ)
        → read_int 2 (le_bytes 2 (rds_code (std_col_type col.type)) ++ bs)
          ≡ some (rds_code (std_col_type col.type), bs) =
      λ bs.
        read_int-le_bytes 2 (rds_code (std_col_type col.type)) bs
          (rds_code-lt (std_col_type col.type)) in
    let drv : (bs : List ℕ)
        → read_int 2 (le_bytes 2 col.type_number ++ bs) ≡ some (col.type_number, bs) =
      λ bs. read_int-le_bytes 2 col.type_number bs (omega arith) in
    let len : (bs : List ℕ)
        → read_int 2 (le_bytes 2 (length col.name) ++ bs) ≡ some (length col.name, bs) =
      λ bs. read_int-le_bytes 2 (length col.name) bs (omega arith) in
    let msg : (bs : List ℕ) → read_bytes (length col.name) (col.name ++ bs) ≡ some (col.name, bs) =
      λ bs. read_bytes-append (length col.name) col.name bs refl in
    simp (
      ◌>>=◌,
      n16,
      take-of_length_le (length col.name) col.name (omega arith),
      append_assoc,
      std,
      drv,
      len,
      msg,
    )

-- The pieces of a field after the first, from an offset on.
pub more_bytes : ℕ → ℕ → List (List ℕ) → List ℕ
more_bytes offset total [] = []
more_bytes offset total (p ∷ ps) =
    field_bytes offset (length p) total (some p) ++ more_bytes (offset + length p) total ps

abbrev pub joined : List (List ℕ) → List ℕ
joined [] = []
joined (p ∷ ps) = p ++ joined ps

-- After the first piece only data is written.
later_bytes :
    (offset total : ℕ) (p : List ℕ)
    → 0 < offset
    → length p < 2 ^ 32
    → field_bytes offset (length p) total (some p) ≡ p
unfolding field_bytes
later_bytes offset total [] z h = ground arith
later_bytes offset total (b ∷ bs) z h =
    ground (arith, take-of_length_le (length (b ∷ bs) % 2 ^ 32) (b ∷ bs))

first_bytes :
    (total : ℕ) (p : List ℕ)
    → length p < 2 ^ 32
    → total < 2 ^ 32
    → field_bytes 0 (length p) total (some p) ≡ le_bytes 4 total ++ p
unfolding field_bytes
first_bytes total [] h t = let same : total % 2 ^ 32 ≡ total = omega arith in ground arith
first_bytes total (b ∷ bs) h t =
    let same : total % 2 ^ 32 ≡ total = omega arith in
    ground (arith, take-of_length_le (length (b ∷ bs) % 2 ^ 32) (b ∷ bs))

more_bytes-joined :
    (offset total : ℕ) (ps : List (List ℕ))
    → 0 < offset
    → length (joined ps) < 2 ^ 32
    → more_bytes offset total ps ≡ joined ps
unfolding more_bytes field_bytes
more_bytes-joined offset total [] z h = refl
more_bytes-joined offset total (p ∷ ps) z h =
    ap₂ ◌++◌ (later_bytes offset total p z (omega (arith, length-append {0} p (joined ps)))) (
      more_bytes-joined (offset + length p) total ps (omega arith)
        (omega (arith, length-append {0} p (joined ps))))

-- What `output_field` writes of a field that libdrizzle delivers in pieces, `p` at offset 0.
abbrev pub pieces_bytes : List ℕ → List (List ℕ) → List ℕ
pieces_bytes p ps =
    let total = length (joined (p ∷ ps)) in
    field_bytes 0 (length p) total (some p) ++ more_bytes (length p) total ps

pieces_bytes_lem :
    (p : List ℕ) (ps : List (List ℕ))
    → length (joined (p ∷ ps)) < 2 ^ 32 - 1
    → (0 < length p) ⊎ (ps ≡ [])
    → pieces_bytes p ps ≡ le_bytes 4 (length (joined (p ∷ ps))) ++ joined (p ∷ ps)
unfolding more_bytes
pieces_bytes_lem p ps h (inl z) =
    let sum = length-append {0} p (joined ps) in
    rw
      (
        first_bytes (length (joined (p ∷ ps))) p (omega (arith, sum)) (omega arith),
        more_bytes-joined (length p) (length (joined (p ∷ ps))) ps z (omega (arith, sum)),
      )
      (append_assoc (le_bytes 4 (length (joined (p ∷ ps)))) p (joined ps))
pieces_bytes_lem p ps h (inr e) =
    subst (λ qs. pieces_bytes p qs ≡ le_bytes 4 (length (joined (p ∷ qs))) ++ joined (p ∷ qs))
      (sym e)
      (append-nil _
        ∙ (first_bytes (length (p ++ [])) p (omega (arith, length-append {0} p (joined ps)))
              (omega (arith, length-append {0} p (joined ps), length-append {0} p []))
            ∙ ap (λ x. le_bytes 4 (length (p ++ [])) ++ x) (sym (append-nil p))))

-- A reader gets NULL for the NULL field, and for any other field its data, however it was cut into pieces, if
-- the data is shorter than 2^32 - 1 bytes and the first piece is not empty, unless it is the only one.
pub read_field-field_bytes :
    (p : List ℕ) (ps : List (List ℕ)) (rest : List ℕ)
    → length (joined (p ∷ ps)) < 2 ^ 32 - 1
    → (0 < length p) ⊎ (ps ≡ [])
    → (read_field (field_bytes 0 0 0 none ++ rest) ≡ some (none, rest))
      × (read_field (pieces_bytes p ps ++ rest) ≡ some (some (joined (p ∷ ps)), rest))
unfolding read_field field_bytes
read_field-field_bytes p ps rest h s =
    let n : ℕ = length (joined (p ∷ ps)) in
    let data_bytes : List ℕ = joined (p ∷ ps) in
    let null : read_int 4 (le_bytes 4 (2 ^ 32 - 1) ++ rest) ≡ some (2 ^ 32 - 1, rest) =
      read_int-le_bytes 4 (2 ^ 32 - 1) rest (omega arith) in
    let len : (bs : List ℕ) → read_int 4 (le_bytes 4 n ++ bs) ≡ some (n, bs) =
      λ bs. read_int-le_bytes 4 n bs (omega arith) in
    let full : read_bytes n (data_bytes ++ rest) ≡ some (data_bytes, rest) =
      read_bytes-append n data_bytes rest refl in
    let short : (n == 2 ^ 32 - 1) ≡ false = ground arith in
    (
      simp (◌>>=◌, null),
      rw (pieces_bytes_lem p ps h s, append_assoc) (simp (◌>>=◌, len, short, full)),
    )
