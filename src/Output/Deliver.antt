-- ===== src/Output/Deliver.antt =====
-- What each output function of src/ngx_http_drizzle_output.c adds to the stream.
use drizzle_nginx_module.Prelude.{
  ℕ, ◌%◌, ◌^◌, ◌≤◌, ◌<◌, ◌≡◌, refl, sym, ◌∙◌, subst, Bool, true, false, not, ◌&&◌, List, ◌++◌,
  Option, none, some, length, length-append, length-take, take, ◌==◌, if◌then◌else◌, arith,
}
use drizzle_nginx_module.Nginx.{Rc}
use drizzle_nginx_module.Output.Bytes.{le_bytes, length-le_bytes}
use drizzle_nginx_module.Output.Buffers.{
  Buf, Conf, Client, Output, ◌>>◌, check_size, mark_end, emit,
}
use drizzle_nginx_module.Output.Stream.{IsStream, produced, then_do-ok}
use drizzle_nginx_module.Output.Stream.Emit.{KeepsRoom, deliver, check_size-KeepsRoom, emit-Keeps}
use drizzle_nginx_module.Output.Atoms.{
  DbResult, Column, len16, header_bytes, header_size, col_bytes, col_size, row_bytes, field_bytes,
  field_size, output_col, output_row, write_header, output_field,
}

-- What a successful output function does to a stream.
abbrev pub Adds : Output → List ℕ → Rc × Output → Type 0
Adds o bytes r = IsStream r.1 × (produced r.1 ≡ produced o ++ bytes)

-- What libdrizzle promises of a field's piece: `len` bytes, below 4 GB, and none of the NULL field.
abbrev pub FieldFits : ℕ → Option (List ℕ) → Type 0
FieldFits len none = len ≡ 0
FieldFits len (some bytes) = (length bytes ≡ len) × (len < 2 ^ 32)

length-take16 : (s : List ℕ) → length (take (len16 s) s) ≡ len16 s
length-take16 s = omega (arith, length-take (len16 s) s)

length-header_bytes : (res : DbResult) → length (header_bytes res) ≡ header_size res
unfolding header_bytes header_size le_bytes
length-header_bytes res =
    omega (arith, length-append {0} (take (len16 res.error) res.error), length-take16 res.error)

length-col_bytes : (col : Column) → length (col_bytes col) ≡ col_size col
unfolding col_bytes col_size le_bytes
length-col_bytes col = omega (arith, length-take16 col.name)

length-field_bytes :
    (offset len total : ℕ) (field : Option (List ℕ))
    → FieldFits len field
    → length (field_bytes offset len total field) ≡ field_size offset len
unfolding field_bytes field_size le_bytes
length-field_bytes offset len total none f = ground arith
length-field_bytes offset len total (some bytes) f = ground (
  arith,
  length-append (le_bytes 4 (total % 2 ^ 32)) (take (len % 2 ^ 32) bytes),
  length-le_bytes 4 (total % 2 ^ 32),
  length-take (len % 2 ^ 32) bytes,
)

module _ (cl : Client) (conf : Conf) where
  -- A call of `output_col` on a sound stream that succeeds adds the column's atom to it, and nothing else. The
  -- buffer's size fits `size_t`.
  pub output_col-Adds :
      (col : Column) (o : Output)
      → conf.buf_size < 2 ^ 64
      → IsStream o
      → (output_col cl conf (some col) o).0 ≡ Rc.ok
      → Adds o (col_bytes col) (output_col cl conf (some col) o)
  unfolding output_col col_size
  output_col-Adds col o s v h =
      emit-Keeps cl conf (col_size col) (col_bytes col) o (omega arith) s (length-col_bytes col) v h

  mark_end-KeepsRoom :
      (end : Bool) (size : ℕ) (o : Output) (b : Buf)
      → IsStream o
      → o.out_buf ≡ some b
      → size ≤ o.avail_out
      → KeepsRoom cl conf size o b (mark_end end o)
  unfolding mark_end
  mark_end-KeepsRoom true size o b v f l = (v, refl, f, l)
  mark_end-KeepsRoom false size o b v f l = (v, refl, f, l)

  -- A call of `output_row` on a sound stream that succeeds adds the row's flag to it, also the flag 0, which
  -- ends the stream. The buffer's size fits `size_t`.
  pub output_row-Adds :
      (row : ℕ) (o : Output)
      → conf.buf_size < 2 ^ 64
      → IsStream o
      → (output_row cl conf row o).0 ≡ Rc.ok
      → Adds o (row_bytes row) (output_row cl conf row o)
  unfolding output_row row_bytes
  output_row-Adds row o s v h =
      deliver cl conf 1 (row_bytes row) (mark_end (row == 0)) o (omega arith) s refl
        (λ o' b v' f l _. mark_end-KeepsRoom (row == 0) 1 o' b v' f l) v h

  -- A call on a sound stream that succeeds adds the result header to it, also if the header ends the stream.
  -- The buffer's size fits `size_t`.
  pub write_header-Adds :
      (res : DbResult) (o : Output)
      → conf.buf_size < 2 ^ 64
      → IsStream o
      → (write_header cl conf res o).0 ≡ Rc.ok
      → Adds o (header_bytes res) (write_header cl conf res o)
  unfolding write_header header_size
  write_header-Adds res o s v h =
      deliver cl conf (header_size res) (header_bytes res)
        (check_size (header_size res) (header_bytes res) >> mark_end (res.column_count == 0)) o
        (omega arith) s (length-header_bytes res)
        (λ o' b v' f l ok.
          let e =
            then_do-ok (mark_end (res.column_count == 0))
              (check_size (header_size res) (header_bytes res) o') ok in
          let k =
            check_size-KeepsRoom cl conf (header_size res) (header_bytes res) o' b
              (length-header_bytes res) v' f l in
          let m =
            mark_end-KeepsRoom (res.column_count == 0) (header_size res)
              (check_size (header_size res) (header_bytes res) o').1 b k.0 k.2 k.3 in
          subst (KeepsRoom cl conf (header_size res) o' b) (sym e.1) (m.0, m.1 ∙ k.1, m.2, m.3))
        v h

  -- A call of `output_field` on a sound stream that succeeds, for a piece as libdrizzle promises it, adds its
  -- bytes: for a piece at offset 0 the field's length and the bytes, for any other the bytes. The buffer's size
  -- fits `size_t`.
  pub output_field-Adds :
      (offset len total : ℕ) (field : Option (List ℕ)) (o : Output)
      → conf.buf_size < 2 ^ 64
      → FieldFits len field
      → IsStream o
      → (output_field cl conf offset len total field o).0 ≡ Rc.ok
      → Adds o (field_bytes offset len total field) (output_field cl conf offset len total field o)
  unfolding output_field field_size
  output_field-Adds offset len total field o s f v =
      go (offset == 0 && (len == 0 && not (total == 0)))
    where
      go :
          (c : Bool)
          → let r =
              if c
              then (let x : Rc × Output = (Rc.done, o) in x)
              else emit cl conf (field_size offset len) (field_bytes offset len total field) o in
            r.0 ≡ Rc.ok → Adds o (field_bytes offset len total field) r
      go true h = absurd (cc)
      go false h =
          emit-Keeps cl conf (field_size offset len) (field_bytes offset len total field) o
            (ground arith) s (length-field_bytes offset len total field f) v h
