-- ===== src/Status/Tests.antt =====
-- The status page of src/ngx_http_drizzle_handler.c on concrete blocks, with a decimal printer for nginx's.
use drizzle_nginx_module.Prelude.{
  ℕ, zero, suc, ◌+◌, ◌-◌, ◌/◌, ◌%◌, ◌^◌, ◌≤◌, ◌≡◌, refl, sym, subst, true, false, List, [], ◌∷◌,
  ◌++◌, none, some, length, length-append, codes, arith,
}
use drizzle_nginx_module.Nginx.{Rc, is_failure}
use drizzle_nginx_module.Keepalive.{Overflow}
use drizzle_nginx_module.Status.Digits.{get_num_size, IsSize, get_num_size-IsSize}
use drizzle_nginx_module.Status.{Block, measure_page, Sprintf, print_page, Answers, status_handler}
use drizzle_nginx_module.Status.Fits.{Prints}
use drizzle_nginx_module.Status.Page.{
  IsSmall, print_page-le, status_handler-shows, status_handler_fails,
}

-- The last `k` decimal digits.
unfoldable pub decimal : ℕ → ℕ → List ℕ
decimal zero n = []
decimal (suc k) n = decimal k (n / 10) ++ ((48 + n % 10) ∷ [])

length-decimal : (k n : ℕ) → length (decimal k n) ≡ k
unfolding decimal
length-decimal zero n = refl
length-decimal (suc k) n =
    omega
      (arith, length-append (decimal k (n / 10)) ((48 + n % 10) ∷ []), length-decimal k (n / 10))

abbrev pub printer : Sprintf
printer = record { uint32 = λ n. decimal (get_num_size n) n; pid = λ n. decimal (get_num_size n) n }

digits-IsSize : (n : ℕ) → IsSize (length (decimal (get_num_size n) n)) n
digits-IsSize n =
    subst (λ k. IsSize k n) (sym (length-decimal (get_num_size n) n)) (get_num_size-IsSize n)

pub printer-Prints : Prints printer
printer-Prints = record { uint32 = λ n _. digits-IsSize n; pid = digits-IsSize }

abbrev block_with : ℕ → Block
block_with active_conns = record {
  host = codes "database";
  pool = record {
    single = true;
    free = [];
    cache = [];
    active_conns = active_conns;
    max_cached = 0;
    overflow = Overflow.overflow_ignore;
    closed = [];
    freed = [];
  };
  servers = 1;
  peers = 2;
}

block-IsSmall : IsSmall (block_with 3)
block-IsSmall = record {
  active = omega arith;
  capacity = omega arith;
  cached = omega arith;
  free = omega arith;
  cached_used = tt;
  free_used = tt;
  servers = omega arith;
  peers = omega arith;
}

abbrev answers : Answers
answers = record { buffer = true; link = true; header = Rc.ok; filter = Rc.ok }

not_failed : is_failure answers.header ≡ false
unfolding is_failure
not_failed = refl

print_page-le_example :
    length (print_page printer (some 4711) (some (block_with 3) ∷ (none ∷ [])))
    ≤ measure_page (some 4711) (some (block_with 3) ∷ (none ∷ []))
print_page-le_example =
    print_page-le printer printer-Prints (some 4711) (some (block_with 3) ∷ (none ∷ []))

status_handler-shows_example :
    status_handler printer answers (some 4711) (some (block_with 3) ∷ [])
    ≡ (Rc.ok, some (print_page printer (some 4711) (some (block_with 3) ∷ [])))
status_handler-shows_example =
    status_handler-shows printer printer-Prints answers (some 4711) (some (block_with 3) ∷ [])
      (block-IsSmall, tt) refl refl not_failed

status_handler_fails_example :
    status_handler printer answers none ([] ++ (some (block_with (2 ^ 64 - 1)) ∷ []))
    ≡ (Rc.status 500, none)
status_handler_fails_example =
    status_handler_fails printer printer-Prints answers none [] [] (block_with (2 ^ 64 - 1))
      (omega arith)
