-- ===== src/Output/Stream/Steps.antt =====
-- `queue_buf` and `output_bufs` of src/ngx_http_drizzle_output.c, step by step.
use drizzle_nginx_module.Prelude.{
  ◌≡◌, not, ◌&&◌, refl, sym, ap, subst, ◌∙◌, ◌⊎◌, inl, inr, Bool, true, false, [], ◌++◌,
  append_assoc, some, length, take, drop, All-append, ◌==◌, if◌then◌else◌, Bool-cases, Option-cases,
  arith,
}
use drizzle_nginx_module.Nginx.{Rc, is_failure}
use drizzle_nginx_module.Output.Buffers.{
  Buf, Client, Output, caps, bytes_of, recycle, next_call, enqueue, queue_buf, then_do, or_error,
  set_type, name_module, ask_header, rds_content_type, flush_stream_end, send_header, filter_bufs,
  filter_if_sent, output_bufs,
}
use drizzle_nginx_module.Output.Stream.{
  produced, IsSound, IsStream, held, drop-IsSound, recycle-IsSound, Keeps, enqueue-Keeps, KeepsOk,
  by_eq, then_do-KeepsOk, or_error-KeepsOk, nil_of_length,
}

module _ (cl : Client) where
  pub queue_buf_cases :
      (o : Output)
      → ((queue_buf cl o ≡ (Rc.ok, o)) × (held o.out_buf ≡ []))
        ⊎ (((b : Buf) × (o.out_buf ≡ some b) × (queue_buf cl o ≡ (Rc.ok, enqueue b (next_call o))))
            ⊎ (queue_buf cl o ≡ (Rc.error, next_call o)))
  unfolding queue_buf
  queue_buf_cases o = elim (Option-cases o.out_buf) [
    | inl e ↦ inl (ground arith, ap held e)
    | inr (b, e) ↦ elim (Bool-cases (length b.bytes == 0)) [
      | inl z ↦ inl (ground arith, ap held e ∙ nil_of_length b.bytes (ground arith))
      | inr z ↦ elim (Bool-cases (cl.alloc o.calls)) [
        | inl a ↦ inr (inl (b, e, ground arith))
        | inr a ↦ inr (inr (ground arith))
      ]
    ]
  ]

  -- Whatever nginx answers, queueing keeps the stream.
  pub queue_buf-Keeps : (o : Output) → IsStream o → Keeps o (queue_buf cl o).1
  unfolding next_call
  queue_buf-Keeps o v = elim (queue_buf_cases o) [
    | inl (e, _) ↦ subst (λ r. Keeps o r.1) (sym e) (v, refl, λ z. z)
    | inr (inl (b, e, q)) ↦ subst (λ r. Keeps o r.1) (sym q) (enqueue-Keeps b (next_call o) e v)
    | inr (inr q) ↦ subst (λ r. Keeps o r.1) (sym q) (v, refl, λ z. z)
  ]

  pub flush_stream_end-KeepsOk : (o : Output) → IsStream o → KeepsOk o (flush_stream_end cl o)
  unfolding flush_stream_end
  flush_stream_end-KeepsOk o v = go o.seen_stream_end
    where
      go :
          (b : Bool)
          → KeepsOk o
              (if b then queue_buf cl (record o { seen_stream_end = false }) else (Rc.ok, o))
      go true h = queue_buf-Keeps (record o { seen_stream_end = false }) v
      go false h = (v, refl, λ z. z)

  pub name_module-KeepsOk :
      (enabled : Bool) (o : Output) → IsStream o → KeepsOk o (name_module cl enabled o)
  unfolding name_module next_call
  name_module-KeepsOk true o v h = (v, refl, λ z. z)
  name_module-KeepsOk false o v h = (v, refl, λ z. z)

  pub ask_header-KeepsOk : (o : Output) → IsStream o → KeepsOk o (ask_header cl o)
  unfolding ask_header next_call
  ask_header-KeepsOk o v = go (is_failure (cl.header o.calls))
    where
      go :
          (b : Bool)
          → KeepsOk o (
              if b
              then (cl.header o.calls, next_call o)
              else (Rc.ok, next_call (record o { header_sent = true })))
      go true h = (v, refl, λ z. z)
      go false h = (v, refl, λ z. z)

  pub send_header-KeepsOk :
      (enabled : Bool) (o : Output) → IsStream o → KeepsOk o (send_header cl enabled o)
  unfolding send_header set_type
  send_header-KeepsOk enabled o v = go (not o.header_sent && not (length o.out_bufs == 0))
    where
      typed : Output
      typed = record o { status = 200; content_type = rds_content_type }

      go :
          (b : Bool)
          → KeepsOk o (
              if b
              then then_do (ask_header cl) (or_error (name_module cl enabled) typed)
              else (Rc.ok, o))
      go false h = (v, refl, λ z. z)
      go true h =
          then_do-KeepsOk o (or_error (name_module cl enabled) typed) (ask_header cl)
            (or_error-KeepsOk typed (name_module cl enabled) (name_module-KeepsOk enabled typed v))
            ask_header-KeepsOk h

  -- The state after a filter that did not fail.
  pub passed : Output → Output
  passed o = record (next_call (record o { wire = o.wire ++ bytes_of o.out_bufs })) {
    output_blocked = elim (cl.filter o.calls) [ Rc.again ↦ true | _ ↦ cl.buffered o.calls ];
    free_bufs = recycle (take (cl.sent o.calls) (o.busy_bufs ++ o.out_bufs)) o.free_bufs;
    busy_bufs = drop (cl.sent o.calls) (o.busy_bufs ++ o.out_bufs);
    out_bufs = [];
    buffered_output = caps (drop (cl.sent o.calls) (o.busy_bufs ++ o.out_bufs));
  }

  pub passed-Keeps : (o : Output) → IsStream o → Keeps o (passed o)
  unfolding passed next_call
  passed-Keeps o v =
      let sound = All-append IsSound o.busy_bufs o.out_bufs v.busy_sound v.out_sound in
      let n = cl.sent o.calls in
      (
        record {
          room = v.room;
          counted = omega arith;
          out_sound = tt;
          busy_sound = drop-IsSound n (o.busy_bufs ++ o.out_bufs) sound;
          free_sound = recycle-IsSound n (o.busy_bufs ++ o.out_bufs) o.free_bufs sound v.free_sound;
        },
        append_assoc o.wire (bytes_of o.out_bufs) (held o.out_buf),
        λ z. z,
      )

  pub filter_bufs-KeepsOk : (o : Output) → IsStream o → KeepsOk o (filter_bufs cl o)
  unfolding filter_bufs passed is_failure
  filter_bufs-KeepsOk o v = elim (Bool-cases (is_failure (cl.filter o.calls))) [
    | inl e ↦ λ h. absurd (ground arith)
    | inr e ↦
        by_eq o {r = filter_bufs cl o} {r' = (Rc.ok, passed o)} (ground arith)
          (λ _. passed-Keeps o v)
  ]

  pub filter_if_sent-KeepsOk : (o : Output) → IsStream o → KeepsOk o (filter_if_sent cl o)
  unfolding filter_if_sent
  filter_if_sent-KeepsOk o v = go o.header_sent
    where
      go : (b : Bool) → KeepsOk o (if b then filter_bufs cl o else (Rc.ok, o))
      go true h = filter_bufs-KeepsOk o v h
      go false h = (v, refl, λ z. z)

  pub output_bufs-KeepsOk :
      (enabled : Bool) (o : Output) → IsStream o → KeepsOk o (output_bufs cl enabled o)
  unfolding output_bufs
  output_bufs-KeepsOk enabled o v =
      then_do-KeepsOk o (then_do (send_header cl enabled) (flush_stream_end cl o))
        (filter_if_sent cl)
        (then_do-KeepsOk o (flush_stream_end cl o) (send_header cl enabled)
          (flush_stream_end-KeepsOk o v) (send_header-KeepsOk enabled))
        filter_if_sent-KeepsOk

  -- A call of `output_bufs` that succeeds keeps the stream: the bytes that were submitted before are the bytes that
  -- the output filter got, followed by those still queued and those in the last buffer, and the counters agree
  -- with the buffers.
  pub output_bufs-IsStream :
      (enabled : Bool) (o : Output)
      → IsStream o
      → (output_bufs cl enabled o).0 ≡ Rc.ok
      → IsStream (output_bufs cl enabled o).1 × (produced (output_bufs cl enabled o).1 ≡ produced o)
  output_bufs-IsStream enabled o v h = let k = output_bufs-KeepsOk enabled o v h in (k.0, k.1)
