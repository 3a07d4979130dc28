-- ===== src/Status/Fits.antt =====
-- The page of src/ngx_http_drizzle_handler.c, part by part, and the buffer that is measured for it.
use drizzle_nginx_module.Prelude.{
  ℕ, ◌+◌, ◌%◌, ◌^◌, ◌≤◌, ◌<◌, ◌≡◌, ap, ◌∙◌, Bool, true, false, List, [], ◌∷◌, ◌++◌, length,
  length-append, codes, ◌==◌, if◌then◌else◌, arith,
}
use drizzle_nginx_module.Keepalive.{Item, Pool}
use drizzle_nginx_module.Status.Digits.{
  get_num_size, get_num_size-IsSize, IsSize, IsSize-le, IsSize-unique,
}
use drizzle_nginx_module.Status.{
  queue_size, queue_size_from, Block, measure_used, measure_pool, measure_block, Sprintf,
  print_number, print_used, print_line, print_pool, print_block,
}

queue_size_from-length {ℓ} : {A : Type ℓ} (n : ℕ) (q : List A) → queue_size_from n q ≡ n + length q
unfolding queue_size_from
queue_size_from-length n [] = omega arith
queue_size_from-length n (x ∷ xs) = omega (arith, queue_size_from-length (n + 1) xs)

pub queue_size-length {ℓ} : {A : Type ℓ} (q : List A) → queue_size q ≡ length q
unfolding queue_size
queue_size-length q = omega (arith, queue_size_from-length 0 q)

-- What nginx documents of `%uD` and `%P`: decimal digits, no leading zeros.
pub record Prints (sp : Sprintf) : Type 0 where
  pub uint32 : (n : ℕ) → n < 2 ^ 32 → IsSize (length (sp.uint32 n)) n
  pub pid : (n : ℕ) → IsSize (length (sp.pid n)) n

module _ (sp : Sprintf) (ps : Prints sp) where
  pub print_number-le : (n : ℕ) → length (print_number sp n) ≤ get_num_size n
  unfolding print_number
  print_number-le n =
      IsSize-le (length (sp.uint32 (n % 2 ^ 32))) (get_num_size n)
        (ps.uint32 (n % 2 ^ 32) (omega arith)) (get_num_size-IsSize n) (omega arith)

  pub print_number-eq : (n : ℕ) → n < 2 ^ 32 → length (print_number sp n) ≡ get_num_size n
  unfolding print_number
  print_number-eq n h =
      let same : n % 2 ^ 32 ≡ n = omega arith in
      ap (λ m. length (sp.uint32 m)) same
      ∙ IsSize-unique (length (sp.uint32 n)) (get_num_size n) (ps.uint32 n h)
          (get_num_size-IsSize n)

  pub pid-eq : (n : ℕ) → length (sp.pid n) ≡ get_num_size n
  pid-eq n = IsSize-unique (length (sp.pid n)) (get_num_size n) (ps.pid n) (get_num_size-IsSize n)

  print_used-le : (is : List Item) → length (print_used sp is) ≤ measure_used is
  unfolding print_used measure_used
  print_used-le [] = omega arith
  print_used-le (i ∷ is) = omega (
    arith,
    length-append {0} (print_number sp i.used) (print_used sp is),
    print_used-le is,
    print_number-le i.used,
  )

  pub print_line-length :
      (text : List ℕ) (n : ℕ)
      → length (print_line sp text n) ≡ length text + (length (print_number sp n) + 1)
  unfolding print_line
  print_line-length text n = omega (
    arith,
    length-append {0} text (print_number sp n ++ codes "\n"),
    length-append {0} (print_number sp n) (codes "\n"),
  )

  print_pool-le : (pool : Pool) → length (print_pool sp pool) ≤ measure_pool pool
  unfolding print_pool measure_pool
  print_pool-le pool =
      simp (length-append, print_line-length)
        (omega (
          arith,
          print_number-le (queue_size pool.cache),
          print_number-le (queue_size pool.free),
          print_used-le pool.cache,
          print_used-le pool.free,
        ))

  print_pool_shown-le :
      (pool : Pool)
      → length (if pool.max_cached == 0 then [] else print_pool sp pool)
        ≤ (if pool.max_cached == 0 then 0 else measure_pool pool)
  print_pool_shown-le pool = go (pool.max_cached == 0)
    where
      go :
          (b : Bool)
          → length (if b then [] else print_pool sp pool) ≤ (if b then 0 else measure_pool pool)
      go true = omega arith
      go false = print_pool-le pool

  -- A block's text fits, with room to spare if the number of active connections does.
  pub print_block-le :
      (b : Block)
      → length (print_block sp b) + get_num_size b.pool.active_conns
        ≤ measure_block b + length (print_number sp b.pool.active_conns)
  unfolding print_block measure_block
  print_block-le b =
      simp (length-append, print_line-length)
        (omega (
          arith,
          print_number-le b.pool.max_cached,
          print_number-le b.servers,
          print_number-le b.peers,
          print_pool_shown-le b.pool,
        ))
