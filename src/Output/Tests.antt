-- ===== src/Output/Tests.antt =====
-- Runs of the output of src/ngx_http_drizzle_output.c on a small result.
use drizzle_nginx_module.Prelude.{
  ℕ, ◌≡◌, refl, inl, true, false, List, [], ◌∷◌, ◌++◌, none, some, codes, arith,
}
use drizzle_nginx_module.Nginx.{Rc, is_failure}
use drizzle_nginx_module.Output.Buffers.{Conf, Client, Output, emit, output_bufs}
use drizzle_nginx_module.Output.Stream.{IsStream, produced}
use drizzle_nginx_module.Output.Stream.Steps.{output_bufs-IsStream}
use drizzle_nginx_module.Output.Stream.Emit.{emit-Keeps}
use drizzle_nginx_module.Output.Succeeds.{IsWilling, emit-succeeds}
use drizzle_nginx_module.Output.Atoms.{
  DbResult, Column, ColumnType, header_bytes, col_bytes, field_bytes, rds_code, std_col_type,
  stream_version,
}
use drizzle_nginx_module.Output.Reader.{
  InRange, read_header, read_column, read_field, pieces_bytes, read_header-header_bytes,
  read_column-col_bytes, read_field-field_bytes,
}

abbrev client : Client
client = record {
  alloc = λ _. true;
  header = λ _. Rc.ok;
  filter = λ _. Rc.ok;
  buffered = λ _. false;
  sent = λ _. 1;
}

client-IsWilling : IsWilling client
unfolding is_failure
client-IsWilling = record { alloc = λ _. refl; header = λ _. refl; filter = λ _. refl }

abbrev conf : Conf
conf = record { buf_size = 16; max_buffered = 64; enable_module_header = true }

-- Three bytes in the last buffer, one buffer queued, nothing sent yet.
abbrev output : Output
output = record {
  out_buf = some (record { bytes = 1 ∷ (2 ∷ (3 ∷ [])); cap = 16 });
  avail_out = 13;
  buffered_output = 4;
  output_blocked = false;
  output_paused = false;
  seen_stream_end = false;
  out_bufs = record { bytes = 9 ∷ (8 ∷ []); cap = 4 } ∷ [];
  busy_bufs = [];
  free_bufs = [];
  header_sent = false;
  status = 0;
  headers = [];
  content_type = [];
  calls = 0;
  wire = [];
}

output-IsStream : IsStream output
output-IsStream = record {
  room = (refl, omega arith);
  counted = refl;
  out_sound = ((omega arith, omega arith), tt);
  busy_sound = tt;
  free_sound = tt;
}

abbrev atom : List ℕ
atom = codes "twenty bytes of atoms"

emit-succeeds_example :
    ((emit client conf 21 atom output).0 ≡ Rc.ok) × ((output_bufs client true output).0 ≡ Rc.ok)
emit-succeeds_example = emit-succeeds client client-IsWilling conf true 21 atom output refl

emit-ok : (emit client conf 21 atom output).0 ≡ Rc.ok
emit-ok = (emit-succeeds client client-IsWilling conf true 21 atom output refl).0

output_bufs-ok : (output_bufs client true output).0 ≡ Rc.ok
output_bufs-ok = (emit-succeeds client client-IsWilling conf true 21 atom output refl).1

emit-Keeps_example :
    IsStream (emit client conf 21 atom output).1
    × (produced (emit client conf 21 atom output).1 ≡ produced output ++ atom)
emit-Keeps_example =
    emit-Keeps client conf 21 atom output (omega arith) (omega arith) refl output-IsStream emit-ok

output_bufs-IsStream_example :
    IsStream (output_bufs client true output).1
    × (produced (output_bufs client true output).1 ≡ produced output)
output_bufs-IsStream_example =
    output_bufs-IsStream client true output output-IsStream output_bufs-ok

abbrev column : Column
column = record { type = ColumnType.t_long; type_number = 3; name = codes "id" }

abbrev result : DbResult
result = record { error_code = 0; error = []; affected_rows = 300; insert_id = 5; column_count = 1 }

result-InRange : InRange result
result-InRange = record {
  code = omega arith;
  message = omega arith;
  rows = omega arith;
  id = omega arith;
  columns = omega arith;
}

read_header-header_bytes_example :
    read_header (header_bytes result ++ (7 ∷ []))
    ≡ some (
      record {
        endian = 0;
        version = stream_version;
        kind = 0;
        std_code = 0;
        driver_code = 0;
        message = [];
        affected_rows = 300;
        insert_id = 5;
        column_count = 1;
      },
      7 ∷ [],
    )
read_header-header_bytes_example = read_header-header_bytes result (7 ∷ []) result-InRange

read_column-col_bytes_example :
    read_column (col_bytes column ++ (7 ∷ []))
    ≡ some ((rds_code (std_col_type ColumnType.t_long), 3, codes "id"), 7 ∷ [])
read_column-col_bytes_example = read_column-col_bytes column (7 ∷ []) (omega arith) (omega arith)

read_field-field_bytes_example :
    (read_field (field_bytes 0 0 0 none ++ (7 ∷ [])) ≡ some (none, 7 ∷ []))
    × (read_field (pieces_bytes (codes "ab") (codes "cd" ∷ (codes "e" ∷ [])) ++ (7 ∷ []))
        ≡ some (some (codes "abcde"), 7 ∷ []))
read_field-field_bytes_example =
    read_field-field_bytes (codes "ab") (codes "cd" ∷ (codes "e" ∷ [])) (7 ∷ []) (omega arith)
      (inl (omega arith))
