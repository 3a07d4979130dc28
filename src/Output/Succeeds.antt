-- ===== src/Output/Succeeds.antt =====
-- When the output functions of src/ngx_http_drizzle_output.c return NGX_OK.
use drizzle_nginx_module.Prelude.{
  ℕ, max, ◌≡◌, refl, ap, inl, inr, Bool, true, false, not, ◌&&◌, List, length, ◌==◌, if◌then◌else◌,
  Bool-cases, Option-cases, arith,
}
use drizzle_nginx_module.Nginx.{Rc, is_failure}
use drizzle_nginx_module.Output.Headers.{set_header, overwrite}
use drizzle_nginx_module.Output.Buffers.{
  Conf, Client, Output, module_header_key, module_header_val, fill_buf, has_room, Action, then_do,
  ◌>>◌, or_error, to_error, queue_buf, flush_stream_end, set_type, name_module, ask_header,
  send_header, filter_bufs, filter_if_sent, output_bufs, new_buf, check_size, submit_mem,
  request_mem, emit,
}

-- nginx grants every allocation, and neither the headers nor the output are refused downstream.
pub record IsWilling (cl : Client) : Type 0 where
  pub alloc : (n : ℕ) → cl.alloc n ≡ true
  pub header : (n : ℕ) → is_failure (cl.header n) ≡ false
  pub filter : (n : ℕ) → is_failure (cl.filter n) ≡ false

abbrev pub Succeeds : Action → Type 0
Succeeds f = (o : Output) → (f o).0 ≡ Rc.ok

pub then-Succeeds : (f g : Action) → Succeeds f → Succeeds g → Succeeds (f >> g)
then-Succeeds f g p q o = go (f o) (p o)
  where
    go : (r : Rc × Output) → r.0 ≡ Rc.ok → (then_do g r).0 ≡ Rc.ok
    go (Rc.ok, o') h = q o'
    go (_, o') h = absurd (cc)

pub or_error-Succeeds : (f : Action) → Succeeds f → Succeeds (or_error f)
or_error-Succeeds f p o = ap to_error (p o)

module _ (cl : Client) (w : IsWilling cl) where
  queue_buf-Succeeds : Succeeds (queue_buf cl)
  unfolding queue_buf
  queue_buf-Succeeds o = ground (arith, w.alloc o.calls)

  pub flush-Succeeds : Succeeds (flush_stream_end cl)
  unfolding flush_stream_end
  flush-Succeeds o = ground (arith, queue_buf-Succeeds (record o { seen_stream_end = false }))

  pub name_module-Succeeds : (enabled : Bool) → Succeeds (name_module cl enabled)
  unfolding name_module set_header
  name_module-Succeeds enabled o =
      elim (Option-cases (overwrite module_header_key module_header_val o.headers)) [
        | inl n ↦ ground (arith, n, w.alloc o.calls)
        | inr (hs, e) ↦ ground (arith, e)
      ]

  ask_header-Succeeds : Succeeds (ask_header cl)
  unfolding ask_header
  ask_header-Succeeds o = ground (arith, w.header o.calls)

  typed-Succeeds :
      (enabled : Bool)
      → Succeeds ((set_type cl) >> or_error (name_module cl enabled) >> ask_header cl)
  unfolding set_type
  typed-Succeeds enabled =
      then-Succeeds ((set_type cl) >> or_error (name_module cl enabled)) (ask_header cl)
        (then-Succeeds (set_type cl) (or_error (name_module cl enabled)) (λ o. refl)
          (or_error-Succeeds (name_module cl enabled) (name_module-Succeeds enabled)))
        ask_header-Succeeds

  pub send_header-Succeeds : (enabled : Bool) → Succeeds (send_header cl enabled)
  unfolding send_header
  send_header-Succeeds enabled o = go (not o.header_sent && not (length o.out_bufs == 0))
    where
      go :
          (b : Bool)
          → (if b
              then ((set_type cl) >> or_error (name_module cl enabled) >> ask_header cl) o
              else (Rc.ok, o)).0
            ≡ Rc.ok
      go true = typed-Succeeds enabled o
      go false = refl

  pub filter-Succeeds : Succeeds (filter_if_sent cl)
  unfolding filter_if_sent filter_bufs
  filter-Succeeds o = ground (arith, w.filter o.calls)

  pub output_bufs-Succeeds : (enabled : Bool) → Succeeds (output_bufs cl enabled)
  unfolding output_bufs
  output_bufs-Succeeds enabled =
      then-Succeeds (flush_stream_end cl >> send_header cl enabled) (filter_if_sent cl)
        (then-Succeeds (flush_stream_end cl) (send_header cl enabled) flush-Succeeds
          (send_header-Succeeds enabled))
        filter-Succeeds

  new_buf-Succeeds : (size : ℕ) → Succeeds (new_buf cl size)
  unfolding new_buf
  new_buf-Succeeds size o = ground (arith, w.alloc o.calls)

  submit_mem-Succeeds : (written : List ℕ) → Succeeds (submit_mem cl written)
  unfolding submit_mem
  submit_mem-Succeeds written o =
      let more = queue_buf-Succeeds (fill_buf written o) in
      elim (Bool-cases ((fill_buf written o).avail_out == 0)) [
        | inl e ↦ ground (arith, e, more)
        | inr e ↦ ground (arith, e)
      ]

  request_mem-Succeeds : (conf : Conf) (len : ℕ) → Succeeds (request_mem cl conf len)
  unfolding request_mem
  request_mem-Succeeds conf len o =
      let more =
        then-Succeeds
          (or_error (queue_buf cl) >> or_error (output_bufs cl conf.enable_module_header))
          (new_buf cl (max len conf.buf_size))
          (then-Succeeds (or_error (queue_buf cl))
            (or_error (output_bufs cl conf.enable_module_header))
            (or_error-Succeeds (queue_buf cl) queue_buf-Succeeds)
            (or_error-Succeeds (output_bufs cl conf.enable_module_header)
              (output_bufs-Succeeds conf.enable_module_header)))
          (new_buf-Succeeds (max len conf.buf_size)) o in
      elim (Bool-cases (has_room len o)) [
        | inl e ↦ ground (arith, e)
        | inr e ↦ ground (arith, e, more)
      ]

  check_size-ok :
      (size : ℕ) (written : List ℕ) → length written ≡ size → Succeeds (check_size size written)
  unfolding check_size
  check_size-ok size written e o = ground arith

  -- If nginx grants every allocation and nothing is refused downstream, the output of an atom whose bytes are as
  -- many as were asked for succeeds, and so does passing the buffers on.
  pub emit-succeeds :
      (conf : Conf) (enabled : Bool) (size : ℕ) (written : List ℕ) (o : Output)
      → length written ≡ size
      → ((emit cl conf size written o).0 ≡ Rc.ok) × ((output_bufs cl enabled o).0 ≡ Rc.ok)
  unfolding emit
  emit-succeeds conf enabled size written o e = (
    then-Succeeds (request_mem cl conf size >> check_size size written) (submit_mem cl written)
        (then-Succeeds (request_mem cl conf size) (check_size size written)
          (request_mem-Succeeds conf size) (check_size-ok size written e))
        (submit_mem-Succeeds written) o,
    output_bufs-Succeeds enabled o,
  )
