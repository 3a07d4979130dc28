-- ===== src/LocConf/Choice.antt =====
-- Which query a request gets, after any directives and merges of src/ngx_http_drizzle_module.c, in
-- ngx_http_upstream_drizzle_init_peer of src/ngx_http_drizzle_upstream.c.
use Prim.Native.Nat.{bit_or}
use drizzle_nginx_module.Prelude.{
  ℕ, ◌<◌, ◌≡◌, refl, sym, ap, ◌∙◌, subst, ◌⊎◌, inl, inr, Bool, true, false, ◌||◌, List, [], ◌∷◌,
  ◌++◌, Option, none, some, length, ◌==◌, if◌then◌else◌, Bool-cases, Option-cases, arith,
}
use drizzle_nginx_module.Prelude.Bits.{meets, meets-bit_or, meets_self}
use drizzle_nginx_module.LocConf.{Mixed, LocConf}
use drizzle_nginx_module.LocConf.Query.{
  HttpMethods, http_methods, find_method, add_methods, Compiler, conf_ok, rows, drizzle_query,
  refuse, find_query, chosen, choose_query,
}
use drizzle_nginx_module.LocConf.Built.{
  AddsDefault, AddsRow, has_row, IsConsistent, Built, Built-IsConsistent, find_query-has_row,
  drizzle_query-ok,
}

choose_query-row :
    (conf : LocConf) (method : ℕ)
    → IsConsistent conf
    → meets conf.methods_set method ≡ true
    → (q : Mixed) × (choose_query conf method ≡ chosen q)
      × (find_query method (rows conf.queries) ≡ some q)
      × (meets q.key method ≡ true)
unfolding choose_query
choose_query-row conf method c h = go conf.queries refl
  where
    go :
        (o : Option (List Mixed))
        → conf.queries ≡ o
        → (q : Mixed) × (choose_query conf method ≡ chosen q)
          × (find_query method (rows conf.queries) ≡ some q)
          × (meets q.key method ≡ true)
    go none e = absurd (ground (arith, sym (c method) ∙ h, ap (λ o. has_row method (rows o)) e))
    go (some qs) e =
        let (q, f, g) =
          find_query-has_row method qs
            (ap (λ o. has_row method (rows o)) (sym e) ∙ sym (c method) ∙ h) in
        (q, ground (arith, e, h, f), ap (λ o. find_query method (rows o)) e ∙ f, g)

-- In every configuration that directives and merges of locations make, a request that the handler does not refuse has
-- a query: that of a directive for its method, or else the default one. No row is missing, and no NULL pointer is
-- read.
pub admitted-Chosen :
    (m : HttpMethods) (conf : LocConf) (method : ℕ)
    → Built m conf
    → refuse conf method ≡ none
    → (q : Mixed) × (choose_query conf method ≡ chosen q)
      × ((meets q.key method ≡ true)
          ⊎ ((meets conf.methods_set method ≡ false) × (conf.default_query ≡ some q)))
unfolding refuse choose_query
admitted-Chosen m conf method b e = elim (Bool-cases (meets conf.methods_set method)) [
  | inl h ↦
      let (q, f, g, k) = choose_query-row conf method (Built-IsConsistent m conf b) h in
      (q, f, inl k)
  | inr h ↦ elim (Option-cases conf.default_query) [
    | inl n ↦ absurd (ground (arith, e, h, n))
    | inr (q, d) ↦ (q, ground (arith, h, d), inr (h, d))
  ]
]

or_true : (b : Bool) → b || true ≡ true
or_true b = ground arith

-- The mask of a directive's methods.
add_methods-named :
    (table : List (List ℕ × ℕ)) (taken : ℕ) (names : List (List ℕ)) (mask methods : ℕ)
    → add_methods table taken names mask ≡ some methods
    → (k : ℕ) → meets mask k ≡ true
    → meets methods k ≡ true
unfolding add_methods
add_methods-named table taken [] mask methods e k h = ground (arith, e, h)
add_methods-named table taken (name ∷ names) mask methods e k h =
    elim (Option-cases (find_method table name)) [
      | inl n ↦ absurd (ground (arith, e, n))
      | inr (key, f) ↦ elim (Bool-cases (meets taken key)) [
        | inl t ↦ absurd (ground (arith, e, f, t))
        | inr t ↦
            add_methods-named table taken names (bit_or mask key) methods (ground (arith, e, f, t))
              k (meets-bit_or mask key k ∙ ap (λ b. b || meets key k) h)
      ]
    ]

-- A name in a list of methods, with its bit in the table.
abbrev pub Names : List (List ℕ × ℕ) → List (List ℕ) → ℕ → Type 0
Names table [] key = ⊥
Names table (name ∷ names) key = (find_method table name ≡ some key) ⊎ Names table names key

add_methods-Names :
    (table : List (List ℕ × ℕ)) (taken : ℕ) (names : List (List ℕ)) (mask methods key : ℕ)
    → add_methods table taken names mask ≡ some methods
    → Names table names key
    → 0 < key
    → (meets taken key ≡ false) × (meets methods key ≡ true)
unfolding add_methods
add_methods-Names table taken [] mask methods key e n pos = absurd n
add_methods-Names table taken (name ∷ names) mask methods key e n pos =
    elim (Option-cases (find_method table name)) [
      | inl o ↦ absurd (ground (arith, e, o))
      | inr (key', f) ↦ elim (Bool-cases (meets taken key')) [
        | inl t ↦ absurd (ground (arith, e, f, t))
        | inr t ↦
            let rest : add_methods table taken names (bit_or mask key') ≡ some methods =
              ground (arith, e, f, t) in
            go key' f t rest
              (add_methods-Names table taken names (bit_or mask key') methods key rest) n
      ]
    ]
  where
    go :
        (key' : ℕ)
        → find_method table name ≡ some key'
        → meets taken key' ≡ false
        → add_methods table taken names (bit_or mask key') ≡ some methods
        → (Names table names key → 0 < key → (meets taken key ≡ false) × (meets methods key ≡ true))
        → (find_method table name ≡ some key) ⊎ Names table names key
        → (meets taken key ≡ false) × (meets methods key ≡ true)
    go key' f t rest later (inr k) = later k pos
    go key' f t rest later (inl g) =
        let same : key' ≡ key = ground (arith, f, g) in
        (
          subst (λ k. meets taken k ≡ false) same t,
          add_methods-named table taken names (bit_or mask key') methods rest key (
              subst (λ k. meets (bit_or mask k) key ≡ true) (sym same)
                (meets-bit_or mask key key
                  ∙ ap (λ b. meets mask key || b) (meets_self key pos)
                  ∙ or_true (meets mask key))),
        )

pub find_query-append :
    (k : ℕ) (qs : List Mixed) (q : Mixed)
    → find_query k (qs ++ (q ∷ []))
      ≡ (if has_row k qs then find_query k qs else if meets q.key k then some q else none)
unfolding find_query
find_query-append k [] q = refl
find_query-append k (p ∷ qs) q = ground (arith, find_query-append k qs q)

pub no-Names :
    (table : List (List ℕ × ℕ)) (key : ℕ) (names : List (List ℕ))
    → (length names == 0) ≡ true
    → ¬ Names table names key
no-Names table key [] z n = n
no-Names table key (name ∷ names) z n = absurd (ground (arith, z))

-- Before the directive none of its methods has a query; its row has each of them, and so has the mask after it.
pub row-meets :
    (m : HttpMethods) (names : List (List ℕ)) (sql : List ℕ) (conf conf' : LocConf) (key : ℕ)
    (r : AddsRow m names sql conf conf')
    → Names (http_methods m) names key
    → 0 < key
    → (meets conf.methods_set key ≡ false)
      × (meets r.0.key key ≡ true)
      × (meets conf'.methods_set key ≡ true)
row-meets m names sql conf conf' key (q, a, t, f) n pos =
    let (fresh, named) =
      add_methods-Names (http_methods m) conf.methods_set names 0 q.key key a n pos in
    (
      fresh,
      named,
      ap (λ c. meets c.methods_set key) f
          ∙ meets-bit_or conf.methods_set q.key key
          ∙ ap (λ b. meets conf.methods_set key || b) named
          ∙ or_true (meets conf.methods_set key),
    )

-- A method that a directive gave a query can be given none again: in the same configuration, a second directive that
-- names it is refused. The bits of the methods are not 0.
pub drizzle_query-again :
    (m : HttpMethods) (nginx nginx' : Compiler) (names names' : List (List ℕ)) (sql sql' : List ℕ)
    (conf conf' conf'' : LocConf) (key : ℕ)
    → drizzle_query m nginx names sql conf ≡ conf_ok conf'
    → Names (http_methods m) names key
    → Names (http_methods m) names' key
    → 0 < key
    → ¬ (drizzle_query m nginx' names' sql' conf' ≡ conf_ok conf'')
drizzle_query-again m nginx nginx' names names' sql sql' conf conf' conf'' key e n n' pos f =
    go (drizzle_query-ok m nginx names sql conf conf' e)
      (drizzle_query-ok m nginx' names' sql' conf' conf'' f)
  where
    go :
        AddsDefault names sql conf conf' ⊎ AddsRow m names sql conf conf'
        → AddsDefault names' sql' conf' conf'' ⊎ AddsRow m names' sql' conf' conf''
        → ⊥
    go (inl (q, z, _, _)) r = no-Names (http_methods m) key names z n
    go (inr a) (inl (q, z, _, _)) = no-Names (http_methods m) key names' z n'
    go (inr a) (inr b) =
        let (fresh, named, taken) = row-meets m names sql conf conf' key a n pos in
        let (fresh', named', taken') = row-meets m names' sql' conf' conf'' key b n' pos in
        absurd (cc)
