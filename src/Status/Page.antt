-- ===== src/Status/Page.antt =====
-- The whole page of src/ngx_http_drizzle_handler.c: when it is shown, and when the handler gives up on it.
use drizzle_nginx_module.Prelude.{
  ◌-◌, ℕ, ◌+◌, ◌%◌, ◌^◌, ◌≤◌, ◌<◌, ◌≡◌, refl, inr, Bool, true, false, List, [], ◌∷◌, ◌++◌, Option,
  none, some, length, length-append, codes, All, ◌==◌, if◌then◌else◌, arith,
}
use drizzle_nginx_module.Nginx.{Rc, is_failure}
use drizzle_nginx_module.Keepalive.{Item}
use drizzle_nginx_module.Status.Digits.{get_num_size, get_num_size-IsSize, IsSize, IsSize-le}
use drizzle_nginx_module.Status.{
  queue_size, Block, Entry, size_of, measure_used, measure_pool, measure_block, measure_blocks,
  measure_page, Sprintf, print_number, print_used, print_pool, print_block, print_blocks,
  print_page, Answers, status_handler,
}
use drizzle_nginx_module.Status.Fits.{
  Prints, queue_size-length, print_number-le, print_number-eq, pid-eq, print_line-length,
  print_block-le,
}

-- The numbers that the page shows of a block fit `%uD`.
pub record IsSmall (b : Block) : Type 0 where
  pub active : b.pool.active_conns < 2 ^ 32
  pub capacity : b.pool.max_cached < 2 ^ 32
  pub cached : length b.pool.cache < 2 ^ 32
  pub free : length b.pool.free < 2 ^ 32
  pub cached_used : All (λ (i : Item). i.used < 2 ^ 32) b.pool.cache
  pub free_used : All (λ (i : Item). i.used < 2 ^ 32) b.pool.free
  pub servers : b.servers < 2 ^ 32
  pub peers : b.peers < 2 ^ 32

abbrev pub SmallEntry : Entry → Type 0
SmallEntry none = Unit
SmallEntry (some b) = IsSmall b

module _ (sp : Sprintf) (ps : Prints sp) where
  print_used-eq :
      (is : List Item)
      → All (λ (i : Item). i.used < 2 ^ 32) is
      → length (print_used sp is) ≡ measure_used is
  unfolding print_used measure_used
  print_used-eq [] h = refl
  print_used-eq (i ∷ is) h =
      simp length-append (omega (arith, print_used-eq is h.1, print_number-eq sp ps i.used h.0))

  print_pool-eq : (b : Block) → IsSmall b → length (print_pool sp b.pool) ≡ measure_pool b.pool
  unfolding print_pool measure_pool
  print_pool-eq b v =
      simp (length-append, print_line-length)
        (omega (
          arith,
          print_number-eq sp ps (queue_size b.pool.cache)
              (omega (arith, queue_size-length b.pool.cache, v.cached)),
          print_number-eq sp ps (queue_size b.pool.free)
              (omega (arith, queue_size-length b.pool.free, v.free)),
          print_used-eq b.pool.cache v.cached_used,
          print_used-eq b.pool.free v.free_used,
        ))

  print_block-eq : (b : Block) → IsSmall b → length (print_block sp b) ≡ measure_block b
  unfolding print_block measure_block
  print_block-eq b v =
      simp (length-append, print_line-length)
        (omega (
          arith,
          print_number-eq sp ps b.pool.active_conns v.active,
          print_number-eq sp ps b.pool.max_cached v.capacity,
          print_number-eq sp ps b.servers v.servers,
          print_number-eq sp ps b.peers v.peers,
          shown (b.pool.max_cached == 0),
        ))
    where
      shown :
          (c : Bool)
          → length (if c then [] else print_pool sp b.pool) ≡ (if c then 0 else measure_pool b.pool)
      shown true = refl
      shown false = print_pool-eq b v

  newline :
      (n : ℕ)
      → length (if n == 0 then [] else codes "\n") ≡ (if n == 0 then 0 else size_of (codes "\n"))
  newline n = go (n == 0)
    where
      go :
          (c : Bool)
          → length (if c then [] else codes "\n") ≡ (if c then 0 else size_of (codes "\n"))
      go true = refl
      go false = refl

  print_blocks-eq :
      (n : ℕ) (es : List Entry)
      → All SmallEntry es
      → length (print_blocks sp n es) ≡ measure_blocks n es
  unfolding print_blocks measure_blocks
  print_blocks-eq n [] h = refl
  print_blocks-eq n (none ∷ es) h = print_blocks-eq n es h.1
  print_blocks-eq n (some b ∷ es) h =
      simp length-append
        (omega (arith, newline n, print_block-eq b h.0, print_blocks-eq (n + 1) es h.1))

  print_blocks-le : (n : ℕ) (es : List Entry) → length (print_blocks sp n es) ≤ measure_blocks n es
  unfolding print_blocks measure_blocks
  print_blocks-le n [] = omega arith
  print_blocks-le n (none ∷ es) = print_blocks-le n es
  print_blocks-le n (some b ∷ es) = simp length-append (
      omega (
        arith,
        newline n,
        print_block-le sp ps b,
        print_number-le sp ps b.pool.active_conns,
        print_blocks-le (n + 1) es,
      ))

  -- The page never overruns its buffer, whatever the counters hold: what is printed is at most as long as what
  -- was measured, if nginx prints a number in decimal without leading zeros.
  pub print_page-le :
      (worker : Option ℕ) (es : List Entry)
      → length (print_page sp worker es) ≤ measure_page worker es
  unfolding print_page measure_page
  print_page-le none es = print_blocks-le 0 es
  print_page-le (some pid) es =
      simp length-append (omega (arith, pid-eq sp ps pid, print_blocks-le 0 es))

  print_page-eq :
      (worker : Option ℕ) (es : List Entry)
      → All SmallEntry es
      → length (print_page sp worker es) ≡ measure_page worker es
  unfolding print_page measure_page
  print_page-eq none es h = print_blocks-eq 0 es h
  print_page-eq (some pid) es h =
      simp length-append (omega (arith, pid-eq sp ps pid, print_blocks-eq 0 es h))

  -- With every number of the page below 2^32, and nginx printing them as documented, the whole page goes to the
  -- output filter, if nginx grants the buffer, the chain link and the headers; the handler then returns what
  -- the filter returns.
  pub status_handler-shows :
      (a : Answers) (worker : Option ℕ) (es : List Entry)
      → All SmallEntry es
      → a.buffer ≡ true
      → a.link ≡ true
      → is_failure a.header ≡ false
      → status_handler sp a worker es ≡ (a.filter, some (print_page sp worker es))
  unfolding status_handler
  status_handler-shows a worker es h b l f =
      let same : (length (print_page sp worker es) == measure_page worker es) ≡ true =
        ground (arith, print_page-eq worker es h) in
      ground arith

  long_number : (n : ℕ) → 10 ^ 10 ≤ n → length (print_number sp n) < get_num_size n
  unfolding print_number
  long_number n h =
      let ten : IsSize 10 (10 ^ 10 - 1) = record {
        pos = omega arith;
        below = omega arith;
        least = inr (9, refl, omega arith);
      } in
      let eleven : IsSize 11 (10 ^ 10) = record {
        pos = omega arith;
        below = omega arith;
        least = inr (10, refl, omega arith);
      } in
      omega (
        arith,
        IsSize-le (length (sp.uint32 (n % 2 ^ 32))) 10 {m = n % 2 ^ 32} {n = 10 ^ 10 - 1}
            (ps.uint32 (n % 2 ^ 32) (omega arith)) ten (omega arith),
        IsSize-le 11 (get_num_size n) {m = 10 ^ 10} {n = n} eleven (get_num_size-IsSize n) h,
      )

  print_blocks-lt :
      (n : ℕ) (before after : List Entry) (b : Block)
      → 10 ^ 10 ≤ b.pool.active_conns
      → length (print_blocks sp n (before ++ (some b ∷ after)))
        < measure_blocks n (before ++ (some b ∷ after))
  unfolding print_blocks measure_blocks
  print_blocks-lt n [] after b h = simp length-append (
      omega (
        arith,
        newline n,
        print_block-le sp ps b,
        long_number b.pool.active_conns h,
        print_blocks-le (n + 1) after,
      ))
  print_blocks-lt n (none ∷ es) after b h = print_blocks-lt n es after b h
  print_blocks-lt n (some c ∷ es) after b h = simp length-append (
      omega (
        arith,
        newline n,
        print_block-le sp ps c,
        print_number-le sp ps c.pool.active_conns,
        print_blocks-lt (n + 1) es after b h,
      ))

  -- `active_conns` is measured as 64 bits wide and printed as 32: if the counter of one block has reached
  -- 10^10, the handler answers 500 with no page, whatever nginx answers. nginx's printing of numbers is as
  -- documented.
  pub status_handler_fails :
      (a : Answers) (worker : Option ℕ) (before after : List Entry) (b : Block)
      → 10 ^ 10 ≤ b.pool.active_conns
      → status_handler sp a worker (before ++ (some b ∷ after)) ≡ (Rc.status 500, none)
  unfolding status_handler print_page measure_page
  status_handler_fails a worker before after b h = go worker
    where
      fails :
          (w : Option ℕ)
          → length (print_page sp w (before ++ (some b ∷ after)))
            < measure_page w (before ++ (some b ∷ after))
          → status_handler sp a w (before ++ (some b ∷ after)) ≡ (Rc.status 500, none)
      fails w lt =
          let differs : (length (print_page sp w (before ++ (some b ∷ after)))
                == measure_page w (before ++ (some b ∷ after)))
              ≡ false =
            ground (arith, lt) in
          ground arith

      go :
          (w : Option ℕ)
          → status_handler sp a w (before ++ (some b ∷ after)) ≡ (Rc.status 500, none)
      go none = fails none (print_blocks-lt 0 before after b h)
      go (some pid) =
          fails (some pid) (
            simp length-append
              (omega (arith, pid-eq sp ps pid, print_blocks-lt 0 before after b h)))
