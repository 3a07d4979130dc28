-- ===== src/Output/Buffers.antt =====
-- The buffers of src/ngx_http_drizzle_output.c: `ngx_http_drizzle_request_mem`, `submit_mem`, `queue_buf`, `output_bufs` and
-- `pending_output`.
use drizzle_nginx_module.Prelude.{
  ℕ, suc, ◌+◌, ◌-◌, ◌%◌, ◌^◌, max, Bool, true, false, not, ◌&&◌, List, [], ◌∷◌, ◌++◌, Option, none,
  some, length, take, drop, codes, ltb, leb, ◌==◌, if◌then◌else◌,
}
use mathlib.Core.Option
use drizzle_nginx_module.Nginx.{Rc, is_failure}
use drizzle_nginx_module.Output.Headers.{Header, set_header}

-- `ngx_buf_t`: the bytes from `pos` to `last`, and `end - start`.
pub record Buf : Type 0 where
  pub bytes : List ℕ
  pub cap : ℕ

-- The location's directives that the output reads.
pub record Conf : Type 0 where
  pub buf_size : ℕ
  pub max_buffered : ℕ
  pub enable_module_header : Bool

-- nginx's answers, by the number of the call: whether an allocation succeeds, what `ngx_http_send_header` and
-- `ngx_http_output_filter` return, whether output stays buffered or delayed downstream, and how many of the
-- leading busy buffers `ngx_chain_update_chains` finds sent.
pub record Client : Type 0 where
  pub alloc : ℕ → Bool
  pub header : ℕ → Rc
  pub filter : ℕ → Rc
  pub buffered : ℕ → Bool
  pub sent : ℕ → ℕ

-- The output fields of `dp`, `u` and `r`. `last_out` has no field: it always points to the end of `out_bufs`.
-- `calls` numbers the calls of nginx, and `wire` is the history of the bytes that the output filter got.
pub record Output : Type 0 where
  pub out_buf : Option Buf
  pub avail_out : ℕ
  pub buffered_output : ℕ
  pub output_blocked : Bool
  pub output_paused : Bool
  pub seen_stream_end : Bool
  pub out_bufs : List Buf
  pub busy_bufs : List Buf
  pub free_bufs : List Buf
  pub header_sent : Bool
  pub status : ℕ
  pub headers : List Header
  pub content_type : List ℕ
  pub calls : ℕ
  pub wire : List ℕ

-- `*(uint...) - len` on `size_t`
abbrev pub sub64 : ℕ → ℕ → ℕ
sub64 a b = (a + 2 ^ 64 - b) % 2 ^ 64

abbrev pub caps : List Buf → ℕ
caps [] = 0
caps (b ∷ bs) = b.cap + caps bs

abbrev pub bytes_of : List Buf → List ℕ
bytes_of [] = []
bytes_of (b ∷ bs) = b.bytes ++ bytes_of bs

-- A sent buffer is empty again.
abbrev pub recycle : List Buf → List Buf → List Buf
recycle [] free = free
recycle (b ∷ bs) free = recycle bs (record b { bytes = [] } ∷ free)

abbrev pub module_header_key : List ℕ
module_header_key = codes "X-Resty-DBD-Module"

abbrev pub module_header_val : List ℕ
module_header_val = codes "ngx_drizzle 0.1.14"

abbrev pub rds_content_type : List ℕ
rds_content_type = codes "application/x-resty-dbd-stream"

-- Each call of nginx takes the next number.
unfoldable pub next_call : Output → Output
next_call o = record o { calls = suc o.calls }

-- The buffer that is filled joins `out_bufs`. `buffered_output` counts memory that was allocated, and is not wrapped here.
unfoldable pub enqueue : Buf → Output → Output
enqueue b o = record o {
  out_bufs = o.out_bufs ++ (b ∷ []);
  buffered_output = o.buffered_output + b.cap;
  out_buf = none;
  avail_out = 0;
}

-- `dp->out_buf != NULL && dp->avail_out >= len`
unfoldable pub has_room : ℕ → Output → Bool
has_room len o = elim o.out_buf [ none ↦ false | some b ↦ leb len o.avail_out ]

-- ngx_http_drizzle_pending_output
unfoldable pub pending_output : Output → ℕ
pending_output o = o.buffered_output + (elim o.out_buf [ none ↦ 0 | some b ↦ length b.bytes ])

-- The buffer `b` becomes `out_buf`, empty.
unfoldable pub start_buf : ℕ → Output → Output
start_buf cap o = record o { out_buf = some (record { bytes = []; cap = cap }); avail_out = cap }

-- A step of the output code: its return value, and the state after it.
abbrev pub Action : Type 0
Action = Output → Rc × Output

-- `if (f(...) != NGX_OK) return rc; return g(...);`
abbrev pub then_do : Action → Rc × Output → Rc × Output
then_do g (Rc.ok, o) = g o
then_do g (Rc.error, o) = (Rc.error, o)
then_do g (Rc.again, o) = (Rc.again, o)
then_do g (Rc.busy, o) = (Rc.busy, o)
then_do g (Rc.done, o) = (Rc.done, o)
then_do g (Rc.declined, o) = (Rc.declined, o)
then_do g (Rc.status n, o) = (Rc.status n, o)

infixl 5 ◌>>◌
abbrev pub ◌>>◌ : Action → Action → Action
◌>>◌ f g o = then_do g (f o)

-- `if (f(...) != NGX_OK) return NGX_ERROR;`, and so for a NULL instead.
abbrev pub to_error : Rc → Rc
to_error Rc.ok = Rc.ok
to_error _ = Rc.error

abbrev pub or_error : Action → Action
or_error f o = (to_error (f o).0, (f o).1)

abbrev pub append_bytes : List ℕ → Buf → Buf
append_bytes written b = record b { bytes = b.bytes ++ written }

-- `dp->out_buf->last += len; dp->avail_out -= len;` over the bytes that were written there.
unfoldable pub fill_buf : List ℕ → Output → Output
fill_buf written o = record o {
  out_buf = Option.map (append_bytes written) o.out_buf;
  avail_out = sub64 o.avail_out (length written);
}

-- `if ((size_t) (last - pos) != size) return NGX_ERROR;`
unfoldable pub check_size : ℕ → List ℕ → Action
check_size size written o = if length written == size then (Rc.ok, o) else (Rc.error, o)

-- `dp->seen_stream_end = 1`, if the condition holds.
unfoldable pub mark_end : Bool → Action
mark_end end o = (Rc.ok, if end then record o { seen_stream_end = true } else o)

module _ (cl : Client) where
  -- ngx_http_drizzle_queue_buf
  unfoldable pub queue_buf : Action
  unfolding enqueue next_call
  queue_buf o = elim o.out_buf [
    | none ↦ (Rc.ok, o)
    | some b ↦
        if length b.bytes == 0
        then (Rc.ok, o)
        else if cl.alloc o.calls
        then (Rc.ok, enqueue b (next_call o))
        else (Rc.error, next_call o)
  ]

  -- `if (dp->seen_stream_end) { ... }` at the head of `output_bufs`.
  unfoldable pub flush_stream_end : Action
  unfolding queue_buf
  flush_stream_end o =
      if o.seen_stream_end then queue_buf (record o { seen_stream_end = false }) else (Rc.ok, o)

  -- The status and the content type of the response.
  unfoldable pub set_type : Action
  set_type o = (Rc.ok, record o { status = 200; content_type = rds_content_type })

  -- `if (dlcf->enable_module_header) { ... }`
  unfoldable pub name_module : Bool → Action
  unfolding next_call set_header
  name_module enabled o =
      let (rc, headers) =
        set_header (cl.alloc o.calls) module_header_key module_header_val o.headers in
      if enabled then (rc, next_call (record o { headers = headers })) else (Rc.ok, o)

  -- `ngx_http_send_header`
  unfoldable pub ask_header : Action
  unfolding next_call
  ask_header o =
      let rc = cl.header o.calls in
      if is_failure rc
      then (rc, next_call o)
      else (Rc.ok, next_call (record o { header_sent = true }))

  -- `if (!u->header_sent && u->out_bufs) { ... }`: the response headers are set and sent once.
  unfoldable pub send_header : Bool → Action
  unfolding set_type name_module ask_header
  send_header enabled o =
      if not o.header_sent && not (length o.out_bufs == 0)
      then (set_type >> or_error (name_module enabled) >> ask_header) o
      else (Rc.ok, o)

  -- `ngx_http_output_filter`, `ngx_chain_update_chains`, and the accounting after them.
  unfoldable pub filter_bufs : Action
  unfolding next_call
  filter_bufs o =
      let rc = cl.filter o.calls in
      let given = next_call (record o { wire = o.wire ++ bytes_of o.out_bufs }) in
      let waiting = o.busy_bufs ++ o.out_bufs in
      let n = cl.sent o.calls in
      if is_failure rc then (rc, given) else (
        Rc.ok,
        record given {
          output_blocked = elim rc [ Rc.again ↦ true | _ ↦ cl.buffered o.calls ];
          free_bufs = recycle (take n waiting) o.free_bufs;
          busy_bufs = drop n waiting;
          out_bufs = [];
          buffered_output = caps (drop n waiting);
        },
      )

  -- `if (!u->header_sent) return NGX_OK;`, and the filter.
  unfoldable pub filter_if_sent : Action
  unfolding filter_bufs
  filter_if_sent o = if o.header_sent then filter_bufs o else (Rc.ok, o)

  -- ngx_http_drizzle_output_bufs; `enabled` is `dlcf->enable_module_header`.
  unfoldable pub output_bufs : Bool → Action
  unfolding flush_stream_end send_header filter_if_sent
  output_bufs enabled = flush_stream_end >> send_header enabled >> filter_if_sent

  -- The end of `request_mem`: a free buffer, made larger if it is too small, or a new one.
  unfoldable pub new_buf : ℕ → Action
  unfolding next_call start_buf
  new_buf size o = elim o.free_bufs [
    | b ∷ rest ↦
        let popped = record o { free_bufs = rest } in
        if ltb b.cap size
        then if cl.alloc o.calls
          then (Rc.ok, start_buf size (next_call popped))
          else (Rc.error, next_call popped)
        else (Rc.ok, start_buf b.cap popped)
    | [] ↦
        if cl.alloc o.calls then (Rc.ok, start_buf size (next_call o)) else (Rc.error, next_call o)
  ]

  -- ngx_http_drizzle_submit_mem of the number of the bytes that the caller wrote at `out_buf->last`.
  unfoldable pub submit_mem : List ℕ → Action
  unfolding queue_buf fill_buf
  submit_mem written o =
      let filled = fill_buf written o in
      if filled.avail_out == 0 then queue_buf filled else (Rc.ok, filled)

module _ (cl : Client) (conf : Conf) where
  -- ngx_http_drizzle_request_mem: NGX_OK stands for `out_buf->last`, NGX_ERROR for NULL.
  unfoldable pub request_mem : ℕ → Action
  unfolding queue_buf output_bufs new_buf has_room
  request_mem len o =
      if has_room len o
      then (Rc.ok, o)
      else (or_error (queue_buf cl)
            >> or_error (output_bufs cl conf.enable_module_header)
            >> new_buf cl (max len conf.buf_size))
          o

  -- The frame that the output functions share: memory for `size` bytes, the bytes written there, the check of the
  -- pointers ("output ... buffer error"), and the submission.
  unfoldable pub emit : ℕ → List ℕ → Action
  unfolding request_mem check_size submit_mem
  emit size written = request_mem size >> check_size size written >> submit_mem cl written
