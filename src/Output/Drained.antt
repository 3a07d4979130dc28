-- ===== src/Output/Drained.antt =====
-- The last call of `output_bufs` of src/ngx_http_drizzle_output.c for a result: after `seen_stream_end` was set.
use drizzle_nginx_module.Prelude.{
  ℕ, ◌≡◌, refl, sym, ap, ◌∙◌, subst, inl, inr, ◌⊎◌, Bool, true, false, not, ◌&&◌, List, [], ◌∷◌,
  none, some, length, ◌==◌, if◌then◌else◌, Bool-cases, arith,
}
use drizzle_nginx_module.Nginx.{Rc}
use drizzle_nginx_module.Output.Buffers.{
  Buf, Conf, Client, Output, Action, then_do, ◌>>◌, queue_buf, flush_stream_end, send_header,
  filter_if_sent, filter_bufs, output_bufs, enqueue, next_call, set_type, name_module, ask_header,
  or_error, mark_end, submit_mem, fill_buf, request_mem, check_size,
}
use drizzle_nginx_module.Output.Atoms.{
  DbResult, header_size, header_bytes, row_bytes, output_row, write_header,
}
use drizzle_nginx_module.Output.Stream.{held, nil_of_length, then_do-ok}
use drizzle_nginx_module.Output.Succeeds.{
  IsWilling, or_error-Succeeds, name_module-Succeeds, flush-Succeeds, send_header-Succeeds,
}

then_do_of_ok : (g : Action) (r : Rc × Output) → r.0 ≡ Rc.ok → then_do g r ≡ g r.1
then_do_of_ok g (Rc.ok, o) h = refl
then_do_of_ok g (_, o) h = absurd (cc)

no_bufs : (bs : List Buf) → (length bs == 0) ≡ true → bs ≡ []
no_bufs [] h = refl
no_bufs (b ∷ bs) h = absurd (ground (arith, h))

module _ (cl : Client) (w : IsWilling cl) where
  queue_buf-held : (o : Output) → held (queue_buf cl o).1.out_buf ≡ []
  unfolding queue_buf enqueue next_call
  queue_buf-held o = go o.out_buf refl
    where
      go : (b : _) → o.out_buf ≡ b → held (queue_buf cl o).1.out_buf ≡ []
      go none e = ground (arith, e)
      go (some b) e = ground (arith, e, w.alloc o.calls, nil_of_length b.bytes)

  flush_stream_end-held :
      (o : Output) → o.seen_stream_end ≡ true → held (flush_stream_end cl o).1.out_buf ≡ []
  unfolding flush_stream_end
  flush_stream_end-held o e = rw e (queue_buf-held (record o { seen_stream_end = false }))

  -- Sending the headers leaves the buffers alone, and they are sent if a buffer is queued.
  abbrev Ready : Output → Output → Type 0
  Ready o o' = (o'.out_buf ≡ o.out_buf) × ((o'.header_sent ≡ true) ⊎ (o'.out_bufs ≡ []))

  name_module-bufs :
      (enabled : Bool) (o : Output)
      → let o' = (or_error (name_module cl enabled) o).1 in
        (o'.out_buf ≡ o.out_buf) × (o'.out_bufs ≡ o.out_bufs)
  unfolding name_module next_call
  name_module-bufs true o = (refl, refl)
  name_module-bufs false o = (refl, refl)

  send_header-Ready : (enabled : Bool) (o : Output) → Ready o (send_header cl enabled o).1
  unfolding send_header set_type ask_header next_call
  send_header-Ready enabled o = go (not o.header_sent && not (length o.out_bufs == 0)) refl
    where
      typed : Output
      typed = (set_type cl o).1

      named : Rc × Output
      named = or_error (name_module cl enabled) typed

      sent : Rc × Output
      sent = (set_type cl >> or_error (name_module cl enabled) >> ask_header cl) o

      sent-asked : sent ≡ ask_header cl named.1
      sent-asked =
          then_do_of_ok (ask_header cl) named
            (or_error-Succeeds (name_module cl enabled) (name_module-Succeeds cl w enabled) typed)

      asked : (o' : Output) → Ready o' (ask_header cl o').1
      asked o' = ground (arith, w.header o'.calls)

      go :
          (b : Bool)
          → (not o.header_sent && not (length o.out_bufs == 0)) ≡ b
          → Ready o (if b then sent else (Rc.ok, o)).1
      go false e = (
        refl,
        elim (Bool-cases o.header_sent) [
          | inl h ↦ inl h
          | inr h ↦ inr (no_bufs o.out_bufs (ground (arith, e, h)))
        ],
      )
      go true e =
          let asks = asked named.1 in
          subst (λ (r : Rc × Output). Ready o r.1) (sym sent-asked)
            (asks.0 ∙ (name_module-bufs enabled typed).0, asks.1)

  filter-drained :
      (o : Output)
      → (o.header_sent ≡ true) ⊎ (o.out_bufs ≡ [])
      → let o' = (filter_if_sent cl o).1 in (o'.out_buf ≡ o.out_buf) × (o'.out_bufs ≡ [])
  unfolding filter_if_sent filter_bufs next_call
  filter-drained o h = ground (arith, w.filter o.calls, h)

  -- With nginx willing, a call of `output_bufs` after the end of the stream leaves no byte behind.
  pub output_bufs-drained :
      (enabled : Bool) (o : Output)
      → o.seen_stream_end ≡ true
      → let o' = (output_bufs cl enabled o).1 in (held o'.out_buf ≡ []) × (o'.out_bufs ≡ [])
  unfolding output_bufs
  output_bufs-drained enabled o e =
      let first = flush_stream_end cl o in
      let second = send_header cl enabled first.1 in
      let one : (flush_stream_end cl >> send_header cl enabled) o ≡ second =
        then_do_of_ok (send_header cl enabled) first (flush-Succeeds cl w o) in
      let two : output_bufs cl enabled o ≡ filter_if_sent cl second.1 =
        ap (then_do (filter_if_sent cl)) one
        ∙ then_do_of_ok (filter_if_sent cl) second (send_header-Succeeds cl w enabled first.1) in
      let ready = send_header-Ready enabled first.1 in
      let last = filter-drained second.1 ready.1 in
      subst (λ (r : Rc × Output). (held r.1.out_buf ≡ []) × (r.1.out_bufs ≡ [])) (sym two)
        (ap held (last.0 ∙ ready.0) ∙ flush_stream_end-held o e, last.1)

submit_mem-end :
    (cl : Client) (written : List ℕ) (o : Output)
    → o.seen_stream_end ≡ true
    → (submit_mem cl written o).1.seen_stream_end ≡ true
unfolding submit_mem queue_buf fill_buf enqueue next_call
submit_mem-end cl written o e = ground (arith, e)

mark_end-end : (b : Bool) (o : Output) → b ≡ true → (mark_end b o).1.seen_stream_end ≡ true
unfolding mark_end
mark_end-end b o e = ground (arith, e)

marked-end :
    (f : Action) (b : Bool) (o : Output)
    → b ≡ true
    → ((f >> mark_end b) o).0 ≡ Rc.ok
    → ((f >> mark_end b) o).1.seen_stream_end ≡ true
marked-end f b o t h =
    let e = then_do-ok (mark_end b) (f o) h in
    ap (λ r. r.1.seen_stream_end) e.1 ∙ mark_end-end b (f o).1 t

submitted-end :
    (cl : Client) (written : List ℕ) (f : Action) (o : Output)
    → ((f o).0 ≡ Rc.ok → (f o).1.seen_stream_end ≡ true)
    → ((f >> submit_mem cl written) o).0 ≡ Rc.ok
    → ((f >> submit_mem cl written) o).1.seen_stream_end ≡ true
submitted-end cl written f o k h =
    let e = then_do-ok (submit_mem cl written) (f o) h in
    ap (λ r. r.1.seen_stream_end) e.1 ∙ submit_mem-end cl written (f o).1 (k e.0)

-- The row flag 0 and a header without columns set `seen_stream_end`.
pub output_row-end :
    (cl : Client) (conf : Conf) (n : ℕ) (o : Output)
    → (n == 0) ≡ true
    → (output_row cl conf n o).0 ≡ Rc.ok
    → (output_row cl conf n o).1.seen_stream_end ≡ true
unfolding output_row
output_row-end cl conf n o e h =
    submitted-end cl (row_bytes n) (request_mem cl conf 1 >> mark_end (n == 0)) o
      (marked-end (request_mem cl conf 1) (n == 0) o e) h

pub write_header-end :
    (cl : Client) (conf : Conf) (res : DbResult) (o : Output)
    → (res.column_count == 0) ≡ true
    → (write_header cl conf res o).0 ≡ Rc.ok
    → (write_header cl conf res o).1.seen_stream_end ≡ true
unfolding write_header
write_header-end cl conf res o e h =
    let checked = check_size (header_size res) (header_bytes res) in
    let asked = request_mem cl conf (header_size res) in
    submitted-end cl (header_bytes res) (asked >> (checked >> mark_end (res.column_count == 0))) o
      (λ k.
        let p = then_do-ok (checked >> mark_end (res.column_count == 0)) (asked o) k in
        ap (λ r. r.1.seen_stream_end) p.1
        ∙ marked-end checked (res.column_count == 0) (asked o).1 e (ap (λ r. r.0) (sym p.1) ∙ k))
      h
