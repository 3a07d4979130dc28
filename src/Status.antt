-- ===== src/Status.antt =====
-- src/ngx_http_drizzle_handler.c, `ngx_http_drizzle_status_handler`: the page measures its text, allocates that much,
-- prints, and checks that both agree. With it the two counting loops of src/ngx_http_drizzle_util.c.
pub mod Digits
pub mod Fits
pub mod Page
pub mod Tests
use drizzle_nginx_module.Prelude.{
  ℕ, ◌+◌, ◌*◌, ◌/◌, ◌%◌, ◌^◌, Bool, true, false, not, ◌&&◌, List, [], ◌∷◌, ◌++◌, Option, none, some,
  length, codes, ◌==◌, if◌then◌else◌,
}
use drizzle_nginx_module.Nginx.{Rc, is_failure}
use drizzle_nginx_module.Keepalive.{Item, Overflow, overflow_ignore, overflow_reject, Pool}
use Digits.{get_num_size}

-- ngx_http_drizzle_queue_size
unfoldable pub queue_size_from {ℓ} : {A : Type ℓ} → ℕ → List A → ℕ
queue_size_from n [] = n
queue_size_from n (q ∷ qs) = queue_size_from (n + 1) qs

unfoldable pub queue_size {ℓ} : {A : Type ℓ} → List A → ℕ
unfolding queue_size_from
queue_size = queue_size_from 0

-- An upstream block that has drizzle servers: its name, its pool, `servers->nelts` and `peers->number`.
pub record Block : Type 0 where
  pub host : List ℕ
  pub pool : Pool
  pub servers : ℕ
  pub peers : ℕ

-- An entry of `umcf->upstreams`: `none` where `srv_conf`, `dscf` or its `servers` is NULL.
abbrev pub Entry : Type 0
Entry = Option Block

-- `sizeof(s) - 1`
abbrev pub size_of : List ℕ → ℕ
size_of s = length s

abbrev pub overflow_text : Overflow → List ℕ
overflow_text overflow_ignore = codes "  overflow: ignore\n"
overflow_text overflow_reject = codes "  overflow: reject\n"

-- `len += sizeof(" ") - 1 + ngx_http_drizzle_get_num_size(item->used)` over a queue.
unfoldable pub measure_used : List Item → ℕ
measure_used [] = 0
measure_used (item ∷ items) = (size_of (codes " ") + get_num_size item.used) + measure_used items

-- The part of the first loop under `if (dscf->max_cached)`.
unfoldable pub measure_pool : Pool → ℕ
measure_pool pool =
    size_of (overflow_text pool.overflow)
    + (size_of (codes "  cached connection queue: \n")
        + get_num_size (queue_size pool.cache)
        + size_of (codes "  free'd connection queue: \n")
        + get_num_size (queue_size pool.free)
        + size_of (codes "  cached connection successfully used count:\n"))
    + measure_used pool.cache
    + size_of (codes "  free'd connection successfully used count:\n")
    + measure_used pool.free

unfoldable pub measure_block : Block → ℕ
measure_block b =
    (size_of (codes "upstream \n")
      + size_of b.host
      + size_of (codes "  active connections: \n")
      + get_num_size b.pool.active_conns
      + size_of (codes "  connection pool capacity: \n")
      + get_num_size b.pool.max_cached)
    + (if b.pool.max_cached == 0 then 0 else measure_pool b.pool)
    + (size_of (codes "  servers: \n")
        + get_num_size b.servers
        + size_of (codes "  peers: \n")
        + get_num_size b.peers)

-- The first loop: `n` counts the blocks shown so far.
unfoldable pub measure_blocks : ℕ → List Entry → ℕ
unfolding measure_block
measure_blocks n [] = 0
measure_blocks n (none ∷ es) = measure_blocks n es
measure_blocks n (some b ∷ es) =
    (if n == 0 then 0 else size_of (codes "\n")) + measure_block b + measure_blocks (n + 1) es

-- `worker` is `ngx_pid` in a worker process, and `none` in another.
unfoldable pub measure_page : Option ℕ → List Entry → ℕ
unfolding measure_blocks
measure_page none es = measure_blocks 0 es
measure_page (some pid) es =
    (size_of (codes "worker process: \n\n") + get_num_size pid) + measure_blocks 0 es

-- nginx's `ngx_sprintf`: the text of `%uD`, which reads a `uint32_t`, and of `%P`.
pub record Sprintf : Type 0 where
  pub uint32 : ℕ → List ℕ
  pub pid : ℕ → List ℕ

-- nginx's answers to the handler: whether the buffer and the chain link are allocated, and what
-- `ngx_http_send_header` and `ngx_http_output_filter` return.
pub record Answers : Type 0 where
  pub buffer : Bool
  pub link : Bool
  pub header : Rc
  pub filter : Rc

module _ (sp : Sprintf) where
  -- `%uD` with an `ngx_uint_t`: its low 32 bits.
  unfoldable pub print_number : ℕ → List ℕ
  print_number n = sp.uint32 (n % 2 ^ 32)

  unfoldable pub print_used : List Item → List ℕ
  unfolding print_number
  print_used [] = []
  print_used (item ∷ items) = (codes " " ++ print_number item.used) ++ print_used items

  unfoldable pub print_line : List ℕ → ℕ → List ℕ
  unfolding print_number
  print_line text n = text ++ (print_number n ++ codes "\n")

  unfoldable pub print_pool : Pool → List ℕ
  print_pool pool =
      overflow_text pool.overflow
      ++ (print_line (codes "  cached connection queue: ") (queue_size pool.cache)
          ++ (print_line (codes "  free'd connection queue: ") (queue_size pool.free)
              ++ ((codes "  cached connection successfully used count:"
                    ++ (print_used pool.cache ++ codes "\n"))
                  ++ (codes "  free'd connection successfully used count:"
                      ++ (print_used pool.free ++ codes "\n")))))

  unfoldable pub print_block : Block → List ℕ
  print_block b =
      (codes "upstream " ++ (b.host ++ codes "\n"))
      ++ (print_line (codes "  active connections: ") b.pool.active_conns
          ++ (print_line (codes "  connection pool capacity: ") b.pool.max_cached
              ++ ((if b.pool.max_cached == 0 then [] else print_pool b.pool)
                  ++ (print_line (codes "  servers: ") b.servers
                      ++ print_line (codes "  peers: ") b.peers))))

  -- The second loop.
  unfoldable pub print_blocks : ℕ → List Entry → List ℕ
  print_blocks n [] = []
  print_blocks n (none ∷ es) = print_blocks n es
  print_blocks n (some b ∷ es) =
      (if n == 0 then [] else codes "\n") ++ (print_block b ++ print_blocks (n + 1) es)

  unfoldable pub print_page : Option ℕ → List Entry → List ℕ
  unfolding print_blocks
  print_page none es = print_blocks 0 es
  print_page (some pid) es =
      (codes "worker process: " ++ (sp.pid pid ++ codes "\n\n")) ++ print_blocks 0 es

  -- ngx_http_drizzle_status_handler: its return value, and the body that goes to the output filter.
  unfoldable pub status_handler : Answers → Option ℕ → List Entry → Rc × Option (List ℕ)
  unfolding measure_page print_page
  status_handler a worker es =
      let page = print_page worker es in
      if not a.buffer
      then (Rc.status 500, none)
      else if not (length page == measure_page worker es)
      then (Rc.status 500, none)
      else if not a.link
      then (Rc.status 500, none)
      else if is_failure a.header
      then (a.header, none)
      else (a.filter, some page)
