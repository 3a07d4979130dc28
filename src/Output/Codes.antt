-- ===== src/Output/Codes.antt =====
-- What the functions of src/ngx_http_drizzle_output.c return: NGX_OK or NGX_ERROR.
use drizzle_nginx_module.Prelude.{
  ℕ, max, ◌≡◌, refl, ap, ◌⊎◌, inl, inr, Bool, true, false, List, ◌==◌, Bool-cases, arith,
}
use drizzle_nginx_module.Nginx.{Rc, is_failure, is_error}
use drizzle_nginx_module.Output.Buffers.{
  Conf, Client, Output, Action, then_do, ◌>>◌, or_error, to_error, queue_buf, output_bufs, new_buf,
  check_size, mark_end, submit_mem, request_mem, emit, fill_buf, has_room, flush_stream_end,
  send_header, filter_if_sent, filter_bufs, ask_header, set_type, name_module,
}
use drizzle_nginx_module.Output.Atoms.{
  DbResult, header_size, header_bytes, row_bytes, write_header, output_row,
}

abbrev pub OkOrError : Action → Type 0
OkOrError f = (o : Output) → ((f o).0 ≡ Rc.ok) ⊎ ((f o).0 ≡ Rc.error)

pub then-OkOrError : (f g : Action) → OkOrError f → OkOrError g → OkOrError (f >> g)
then-OkOrError f g p q o = go (f o) (p o)
  where
    go :
        (r : Rc × Output)
        → (r.0 ≡ Rc.ok) ⊎ (r.0 ≡ Rc.error)
        → ((then_do g r).0 ≡ Rc.ok) ⊎ ((then_do g r).0 ≡ Rc.error)
    go (Rc.ok, o') h = q o'
    go (Rc.error, o') h = inr refl
    go (Rc.again, o') h = absurd (ground (arith, h))
    go (Rc.busy, o') h = absurd (ground (arith, h))
    go (Rc.done, o') h = absurd (ground (arith, h))
    go (Rc.declined, o') h = absurd (ground (arith, h))
    go (Rc.status n, o') h = absurd (ground (arith, h))

to_error-OkOrError : (rc : Rc) → (to_error rc ≡ Rc.ok) ⊎ (to_error rc ≡ Rc.error)
to_error-OkOrError Rc.ok = inl refl
to_error-OkOrError _ = inr refl

pub or_error-OkOrError : (f : Action) → OkOrError (or_error f)
or_error-OkOrError f o = to_error-OkOrError (f o).0

module _ (cl : Client) where
  queue_buf-OkOrError : OkOrError (queue_buf cl)
  unfolding queue_buf
  queue_buf-OkOrError o = ground arith

  new_buf-OkOrError : (size : ℕ) → OkOrError (new_buf cl size)
  unfolding new_buf
  new_buf-OkOrError size o = ground arith

  submit_mem-OkOrError : (written : List ℕ) → OkOrError (submit_mem cl written)
  unfolding submit_mem
  submit_mem-OkOrError written o = ground (arith, queue_buf-OkOrError (fill_buf written o))

  request_mem-OkOrError : (conf : Conf) (len : ℕ) → OkOrError (request_mem cl conf len)
  unfolding request_mem
  request_mem-OkOrError conf len o =
      let more =
        then-OkOrError
          (or_error (queue_buf cl) >> or_error (output_bufs cl conf.enable_module_header))
          (new_buf cl (max len conf.buf_size))
          (then-OkOrError (or_error (queue_buf cl))
            (or_error (output_bufs cl conf.enable_module_header))
            (or_error-OkOrError (queue_buf cl))
            (or_error-OkOrError (output_bufs cl conf.enable_module_header)))
          (new_buf-OkOrError (max len conf.buf_size)) o in
      elim (Bool-cases (has_room len o)) [
        | inl e ↦ ground (arith, e)
        | inr e ↦ ground (arith, e, more)
      ]

  check_size-OkOrError : (size : ℕ) (written : List ℕ) → OkOrError (check_size size written)
  unfolding check_size
  check_size-OkOrError size written o = ground arith

  pub emit-OkOrError :
      (conf : Conf) (size : ℕ) (written : List ℕ) → OkOrError (emit cl conf size written)
  unfolding emit
  emit-OkOrError conf size written =
      then-OkOrError (request_mem cl conf size >> check_size size written) (submit_mem cl written)
        (then-OkOrError (request_mem cl conf size) (check_size size written)
          (request_mem-OkOrError conf size) (check_size-OkOrError size written))
        (submit_mem-OkOrError written)

  pub output_row-OkOrError : (conf : Conf) (n : ℕ) → OkOrError (output_row cl conf n)
  unfolding output_row
  output_row-OkOrError conf n =
      then-OkOrError (request_mem cl conf 1 >> mark_end (n == 0)) (submit_mem cl (row_bytes n))
        (then-OkOrError (request_mem cl conf 1) (mark_end (n == 0)) (request_mem-OkOrError conf 1)
          (λ o. inl refl))
        (submit_mem-OkOrError (row_bytes n))

  pub write_header-OkOrError : (conf : Conf) (res : DbResult) → OkOrError (write_header cl conf res)
  unfolding write_header
  write_header-OkOrError conf res =
      let checked = check_size (header_size res) (header_bytes res) in
      then-OkOrError
        (request_mem cl conf (header_size res) >> (checked >> mark_end (res.column_count == 0)))
        (submit_mem cl (header_bytes res))
        (then-OkOrError (request_mem cl conf (header_size res))
          (checked >> mark_end (res.column_count == 0))
          (request_mem-OkOrError conf (header_size res))
          (then-OkOrError checked (mark_end (res.column_count == 0))
            (check_size-OkOrError (header_size res) (header_bytes res)) (λ o. inl refl)))
        (submit_mem-OkOrError (header_bytes res))

-- NGX_OK, or what the source takes for a failure: NGX_ERROR or a special response.
abbrev pub OkOrFails : Action → Type 0
OkOrFails f = (o : Output) → ((f o).0 ≡ Rc.ok) ⊎ (is_failure (f o).0 ≡ true)

then-OkOrFails : (f g : Action) → OkOrFails f → OkOrFails g → OkOrFails (f >> g)
then-OkOrFails f g p q o = go (f o) (p o)
  where
    go :
        (r : Rc × Output)
        → (r.0 ≡ Rc.ok) ⊎ (is_failure r.0 ≡ true)
        → ((then_do g r).0 ≡ Rc.ok) ⊎ (is_failure (then_do g r).0 ≡ true)
    go (Rc.ok, o') h = q o'
    go (Rc.error, o') (inr h) = inr h
    go (Rc.again, o') (inr h) = inr h
    go (Rc.busy, o') (inr h) = inr h
    go (Rc.done, o') (inr h) = inr h
    go (Rc.declined, o') (inr h) = inr h
    go (Rc.status n, o') (inr h) = inr h
    go (_, o') (inl h) = absurd (cc)

error-OkOrFails : (f : Action) → OkOrError f → OkOrFails f
unfolding is_failure is_error
error-OkOrFails f p o = elim (p o) [ inl e ↦ inl e | inr e ↦ inr (ap is_failure e) ]

module _ (cl : Client) where
  flush_stream_end-OkOrError : OkOrError (flush_stream_end cl)
  unfolding flush_stream_end
  flush_stream_end-OkOrError o =
      ground (arith, queue_buf-OkOrError cl (record o { seen_stream_end = false }))

  ask_header-OkOrFails : OkOrFails (ask_header cl)
  unfolding ask_header
  ask_header-OkOrFails o = ground arith

  filter_if_sent-OkOrFails : OkOrFails (filter_if_sent cl)
  unfolding filter_if_sent filter_bufs
  filter_if_sent-OkOrFails o = ground arith

  send_header-OkOrFails : (enabled : Bool) → OkOrFails (send_header cl enabled)
  unfolding send_header set_type
  send_header-OkOrFails enabled o =
      let typed =
        then-OkOrFails (set_type cl >> or_error (name_module cl enabled)) (ask_header cl)
          (error-OkOrFails (set_type cl >> or_error (name_module cl enabled)) (
            then-OkOrError (set_type cl) (or_error (name_module cl enabled)) (λ o. inl refl)
              (or_error-OkOrError (name_module cl enabled))))
          ask_header-OkOrFails o in
      ground (arith, typed)

  pub output_bufs-OkOrFails : (enabled : Bool) → OkOrFails (output_bufs cl enabled)
  unfolding output_bufs
  output_bufs-OkOrFails enabled =
      then-OkOrFails (flush_stream_end cl >> send_header cl enabled) (filter_if_sent cl)
        (then-OkOrFails (flush_stream_end cl) (send_header cl enabled)
          (error-OkOrFails (flush_stream_end cl) flush_stream_end-OkOrError)
          (send_header-OkOrFails enabled))
        filter_if_sent-OkOrFails
