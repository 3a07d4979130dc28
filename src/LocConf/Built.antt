-- ===== src/LocConf/Built.antt =====
-- What directives and merges of locations make of the queries: src/ngx_http_drizzle_module.c.
use Prim.Native.Nat.{bit_or}
use drizzle_nginx_module.Prelude.{
  ℕ, ◌≡◌, refl, sym, ap, ◌∙◌, subst, ◌⊎◌, inl, inr, Bool, true, false, not, ◌&&◌, ◌||◌, List, [],
  ◌∷◌, ◌++◌, Option, none, some, length, ◌==◌, if◌then◌else◌, Bool-cases, arith,
}
use drizzle_nginx_module.Prelude.Bits.{meets, meets-bit_or, zero-meets}
use drizzle_nginx_module.LocConf.{
  Mixed, LocConf, is_null, create_loc_conf, merge_loc_conf, inherits_query,
}
use drizzle_nginx_module.LocConf.Query.{
  HttpMethods, http_methods, add_methods, Compiler, compile_query, ConfResult, conf_ok,
  is_duplicate, conf_error, rows, with_default, with_methods, query_for_methods, drizzle_query,
  find_query,
}

-- The text of a query.
abbrev pub text_of : Mixed → List ℕ
text_of q = elim q.cv [ none ↦ q.sv | some text ↦ text ]

-- What an accepted directive did.
abbrev pub AddsDefault : List (List ℕ) → List ℕ → LocConf → LocConf → Type 0
AddsDefault names sql conf conf' =
    (q : Mixed) × ((length names == 0) ≡ true)
    × (conf' ≡ record conf { default_query = some q })
    × (text_of q ≡ sql)

abbrev pub AddsRow : HttpMethods → List (List ℕ) → List ℕ → LocConf → LocConf → Type 0
AddsRow m names sql conf conf' =
    (q : Mixed) × (add_methods (http_methods m) conf.methods_set names 0 ≡ some q.key)
    × (text_of q ≡ sql)
    × (conf' ≡ record conf {
      methods_set = bit_or conf.methods_set q.key;
      queries = some (rows conf.queries ++ (q ∷ []));
    })

pub compile_query-eq :
    (nginx : Compiler) (methods : ℕ) (sql : List ℕ) (q : Mixed)
    → compile_query nginx methods sql ≡ some q
    → (q.key ≡ methods) × (text_of q ≡ sql)
unfolding compile_query
compile_query-eq nginx methods sql q e = ground (arith, e)

with_default-ok :
    (o : Option Mixed) (conf conf' : LocConf)
    → with_default o conf ≡ conf_ok conf'
    → (q : Mixed) × (o ≡ some q) × (conf' ≡ record conf { default_query = some q })
with_default-ok none conf conf' e = absurd (ground (arith, e))
with_default-ok (some q) conf conf' e = (q, refl, ground (arith, e))

with_methods-ok :
    (methods : ℕ) (o : Option Mixed) (conf conf' : LocConf)
    → with_methods methods o conf ≡ conf_ok conf'
    → (q : Mixed) × (o ≡ some q)
      × (conf' ≡ record conf {
        methods_set = bit_or conf.methods_set methods;
        queries = some (rows conf.queries ++ (q ∷ []));
      })
with_methods-ok methods none conf conf' e = absurd (ground (arith, e))
with_methods-ok methods (some q) conf conf' e = (q, refl, ground (arith, e))

query_for_methods-ok :
    (m : HttpMethods) (nginx : Compiler) (names : List (List ℕ)) (o : Option ℕ) (sql : List ℕ)
    (conf conf' : LocConf)
    → add_methods (http_methods m) conf.methods_set names 0 ≡ o
    → query_for_methods nginx o sql conf ≡ conf_ok conf'
    → AddsRow m names sql conf conf'
unfolding query_for_methods
query_for_methods-ok m nginx names none sql conf conf' a e = absurd (ground (arith, e))
query_for_methods-ok m nginx names (some methods) sql conf conf' a e =
    go ((is_null conf.queries && not nginx.array_memory) || not nginx.push_memory) e
  where
    go :
        (b : Bool)
        → (if b then conf_error else with_methods methods (compile_query nginx methods sql) conf)
          ≡ conf_ok conf'
        → AddsRow m names sql conf conf'
    go true h = absurd (ground (arith, h))
    go false h =
        let (q, f, g) = with_methods-ok methods (compile_query nginx methods sql) conf conf' h in
        let (key, text) = compile_query-eq nginx methods sql q f in
        (
          q,
          a ∙ ap some (sym key),
          text,
          subst
              (λ k. conf' ≡ record conf {
                methods_set = bit_or conf.methods_set k;
                queries = some (rows conf.queries ++ (q ∷ []));
              })
              (sym key) g,
        )

pub drizzle_query-ok :
    (m : HttpMethods) (nginx : Compiler) (names : List (List ℕ)) (sql : List ℕ)
    (conf conf' : LocConf)
    → drizzle_query m nginx names sql conf ≡ conf_ok conf'
    → AddsDefault names sql conf conf' ⊎ AddsRow m names sql conf conf'
unfolding drizzle_query
drizzle_query-ok m nginx names sql conf conf' e =
    go (length sql == 0) (length names == 0) (not (is_null conf.default_query))
      (not nginx.default_memory) refl e
  where
    last : ConfResult LocConf
    last = query_for_methods nginx (add_methods (http_methods m) conf.methods_set names 0) sql conf

    go :
        (a b c d : Bool)
        → (length names == 0) ≡ b
        → (if a
            then conf_error
            else if b
            then if c
              then is_duplicate
              else if d
              then conf_error
              else with_default (compile_query nginx 0xffff sql) conf
            else last)
          ≡ conf_ok conf'
        → AddsDefault names sql conf conf' ⊎ AddsRow m names sql conf conf'
    go true b c d z h = absurd (ground (arith, h))
    go false true true d z h = absurd (ground (arith, h))
    go false true false true z h = absurd (ground (arith, h))
    go false true false false z h =
        let (q, f, g) = with_default-ok (compile_query nginx 0xffff sql) conf conf' h in
        inl (q, z, g, (compile_query-eq nginx 0xffff sql q f).1)
    go false false c d z h = inr (query_for_methods-ok m nginx names _ sql conf conf' refl h)

-- The mask of the methods is that of the rows.
abbrev pub has_row : ℕ → List Mixed → Bool
has_row k [] = false
has_row k (q ∷ qs) = meets q.key k || has_row k qs

abbrev pub IsConsistent : LocConf → Type 0
IsConsistent conf = (k : ℕ) → meets conf.methods_set k ≡ has_row k (rows conf.queries)

has_row-append :
    (k : ℕ) (qs : List Mixed) (q : Mixed)
    → has_row k (qs ++ (q ∷ [])) ≡ has_row k qs || meets q.key k
has_row-append k [] q = ground arith
has_row-append k (p ∷ qs) q = ground (arith, has_row-append k qs q)

pub AddsRow-IsConsistent :
    (m : HttpMethods) (names : List (List ℕ)) (sql : List ℕ) (conf conf' : LocConf)
    → AddsRow m names sql conf conf'
    → IsConsistent conf
    → IsConsistent conf'
AddsRow-IsConsistent m names sql conf conf' (q, a, t, e) h k =
    ap (λ c. meets c.methods_set k) e
    ∙ meets-bit_or conf.methods_set q.key k
    ∙ ap (λ b. b || meets q.key k) (h k)
    ∙ sym (has_row-append k (rows conf.queries) q)
    ∙ ap (λ c. has_row k (rows c.queries)) (sym e)

AddsDefault-IsConsistent :
    (names : List (List ℕ)) (sql : List ℕ) (conf conf' : LocConf)
    → AddsDefault names sql conf conf'
    → IsConsistent conf
    → IsConsistent conf'
AddsDefault-IsConsistent names sql conf conf' (q, z, e, t) h k =
    ap (λ c. meets c.methods_set k) e ∙ h k ∙ ap (λ c. has_row k (rows c.queries)) (sym e)

-- Another directive changes no query.
abbrev pub SameQueries : LocConf → LocConf → Type 0
SameQueries conf conf' =
    (conf'.default_query ≡ conf.default_query)
    × (conf'.methods_set ≡ conf.methods_set)
    × (conf'.queries ≡ conf.queries)

same-IsConsistent :
    (conf conf' : LocConf) → SameQueries conf conf' → IsConsistent conf → IsConsistent conf'
same-IsConsistent conf conf' (d, s, q) h k =
    ap (λ n. meets n k) s ∙ h k ∙ ap (λ o. has_row k (rows o)) (sym q)

merge_loc_conf-same :
    (pagesize : ℕ) (prev conf merged : LocConf)
    → merge_loc_conf pagesize prev conf ≡ some merged
    → SameQueries prev merged ⊎ SameQueries conf merged
unfolding merge_loc_conf inherits_query
merge_loc_conf-same pagesize prev conf merged e = ground (arith, e)

-- The configurations that directives and merges make.
pub data Built (m : HttpMethods) : LocConf → Type 0 where
  created : Built m create_loc_conf
  queried :
      (nginx : Compiler) (names : List (List ℕ)) (sql : List ℕ) (conf conf' : LocConf)
      → Built m conf
      → drizzle_query m nginx names sql conf ≡ conf_ok conf'
      → Built m conf'
  configured : (conf conf' : LocConf) → Built m conf → SameQueries conf conf' → Built m conf'
  merged :
      (pagesize : ℕ) (prev conf conf' : LocConf)
      → Built m prev
      → Built m conf
      → merge_loc_conf pagesize prev conf ≡ some conf'
      → Built m conf'

pub Built-IsConsistent : (m : HttpMethods) (conf : LocConf) → Built m conf → IsConsistent conf
Built-IsConsistent m _ created = zero-meets
Built-IsConsistent m conf' (queried nginx names sql conf _ b e) =
    elim (drizzle_query-ok m nginx names sql conf conf' e) [
      | inl adds ↦ AddsDefault-IsConsistent names sql conf conf' adds (Built-IsConsistent m conf b)
      | inr row ↦ AddsRow-IsConsistent m names sql conf conf' row (Built-IsConsistent m conf b)
    ]
Built-IsConsistent m conf' (configured conf _ b s) =
    same-IsConsistent conf conf' s (Built-IsConsistent m conf b)
Built-IsConsistent m conf' (merged pagesize prev conf _ b c e) =
    elim (merge_loc_conf-same pagesize prev conf conf' e) [
      | inl s ↦ same-IsConsistent prev conf' s (Built-IsConsistent m prev b)
      | inr s ↦ same-IsConsistent conf conf' s (Built-IsConsistent m conf c)
    ]

pub find_query-has_row :
    (k : ℕ) (qs : List Mixed)
    → has_row k qs ≡ true
    → (q : Mixed) × (find_query k qs ≡ some q) × (meets q.key k ≡ true)
unfolding find_query
find_query-has_row k [] h = absurd (ground (arith, h))
find_query-has_row k (q ∷ qs) h = elim (Bool-cases (meets q.key k)) [
  | inl e ↦ (q, ground (arith, e), e)
  | inr e ↦
      let (p, f, g) = find_query-has_row k qs (ground (arith, e, h)) in (p, ground (arith, e, f), g)
]
