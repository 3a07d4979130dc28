-- ===== src/LocConf/Merged.antt =====
-- The query of a request, from the directive drizzle_query to the merge that precedes every request
-- (src/ngx_http_drizzle_module.c and src/ngx_http_drizzle_upstream.c).
use drizzle_nginx_module.Prelude.{
  ℕ, ◌<◌, ◌≡◌, sym, ap, ◌∙◌, ◌⊎◌, inl, inr, true, false, ◌||◌, List, [], ◌∷◌, ◌++◌, some, arith,
}
use drizzle_nginx_module.Prelude.Bits.{meets, meets-bit_or}
use drizzle_nginx_module.LocConf.{Mixed, LocConf, merge_loc_conf, inherits_query}
use drizzle_nginx_module.LocConf.Query.{
  HttpMethods, http_methods, Compiler, conf_ok, drizzle_query, chosen, choose_query, find_query,
  rows,
}
use drizzle_nginx_module.LocConf.Built.{
  Built, Built-IsConsistent, SameQueries, AddsDefault, AddsRow, drizzle_query-ok, has_row,
  IsConsistent, text_of,
}
use drizzle_nginx_module.LocConf.Choice.{Names, row-meets, find_query-append, no-Names}

-- The directives of a location that follow: further queries, and those that leave the queries alone.
pub data Follows (m : HttpMethods) (conf : LocConf) : LocConf → Type 0 where
  no_more : Follows m conf conf
  queries_too :
      (nginx : Compiler) (names : List (List ℕ)) (sql : List ℕ) (c c' : LocConf)
      → Follows m conf c
      → drizzle_query m nginx names sql c ≡ conf_ok c'
      → Follows m conf c'
  sets : (c c' : LocConf) → Follows m conf c → SameQueries c c' → Follows m conf c'

-- The location gives a method this query.
pub record Gives (key : ℕ) (q : Mixed) (conf : LocConf) : Type 0 where
  pub masked : meets conf.methods_set key ≡ true
  pub kept : (qs : List Mixed) × (conf.queries ≡ some qs) × (find_query key qs ≡ some q)

find_query-more :
    (k : ℕ) (qs : List Mixed) (p q : Mixed)
    → find_query k qs ≡ some q
    → find_query k (qs ++ (p ∷ [])) ≡ some q
unfolding find_query
find_query-more k [] p q e = absurd (ground (arith, e))
find_query-more k (x ∷ qs) p q e = ground (arith, e, find_query-more k qs p q)

same-Gives :
    (key : ℕ) (q : Mixed) (c c' : LocConf) → SameQueries c c' → Gives key q c → Gives key q c'
same-Gives key q c c' (d, s, qs) g =
    let (rs, e, f) = g.kept in
    record { masked = ap (λ n. meets n key) s ∙ g.masked; kept = (rs, qs ∙ e, f) }

query-Gives :
    (m : HttpMethods) (key : ℕ) (q : Mixed) (names : List (List ℕ)) (sql : List ℕ) (c c' : LocConf)
    → AddsDefault names sql c c' ⊎ AddsRow m names sql c c'
    → Gives key q c
    → Gives key q c'
query-Gives m key q names sql c c' (inl (p, z, e, t)) g =
    let (rs, f, found) = g.kept in
    record {
      masked = ap (λ c. meets c.methods_set key) e ∙ g.masked;
      kept = (rs, ap (λ c. c.queries) e ∙ f, found);
    }
query-Gives m key q names sql c c' (inr (p, a, t, e)) g =
    let (rs, f, found) = g.kept in
    record {
      masked =
          ap (λ c. meets c.methods_set key) e
          ∙ meets-bit_or c.methods_set p.key key
          ∙ ap (λ b. b || meets p.key key) g.masked;
      kept = (
        rs ++ (p ∷ []),
        ap (λ c. c.queries) e ∙ ap (λ o. some (rows o ++ (p ∷ []))) f,
        find_query-more key rs p q found,
      );
    }

Follows-Gives :
    (m : HttpMethods) (key : ℕ) (q : Mixed) (conf c : LocConf)
    → Follows m conf c
    → Gives key q conf
    → Gives key q c
Follows-Gives m key q conf _ no_more g = g
Follows-Gives m key q conf _ (queries_too nginx names sql c c' before e) g =
    query-Gives m key q names sql c c' (drizzle_query-ok m nginx names sql c c' e)
      (Follows-Gives m key q conf c before g)
Follows-Gives m key q conf _ (sets c c' before same) g =
    same-Gives key q c c' same (Follows-Gives m key q conf c before g)

-- A location with queries of its own keeps them.
merge_loc_conf-own :
    (pagesize : ℕ) (prev conf merged : LocConf) (qs : List Mixed)
    → conf.queries ≡ some qs
    → merge_loc_conf pagesize prev conf ≡ some merged
    → SameQueries conf merged
unfolding merge_loc_conf inherits_query
merge_loc_conf-own pagesize prev conf merged qs own e = ground (arith, own, e)

choose_query-Gives :
    (key : ℕ) (q : Mixed) (conf : LocConf) → Gives key q conf → choose_query conf key ≡ chosen q
unfolding choose_query
choose_query-Gives key q conf g = let (rs, e, f) = g.kept in ground (arith, g.masked, e, f)

row-Gives :
    (m : HttpMethods) (names : List (List ℕ)) (sql : List ℕ) (conf conf' : LocConf) (key : ℕ)
    (r : AddsRow m names sql conf conf')
    → IsConsistent conf
    → Names (http_methods m) names key
    → 0 < key
    → Gives key r.0 conf'
row-Gives m names sql conf conf' key (q, a, t, f) consistent n pos =
    let (fresh, named, taken) = row-meets m names sql conf conf' key (q, a, t, f) n pos in
    let old : has_row key (rows conf.queries) ≡ false = sym (consistent key) ∙ fresh in
    record {
      masked = taken;
      kept = (
        rows conf.queries ++ (q ∷ []),
        ap (λ c. c.queries) f,
        find_query-append key (rows conf.queries) q ∙ ground (arith, old, named),
      );
    }

-- After a directive that was accepted, in any configuration made before: whatever directives of the location follow,
-- and whatever configuration the location is then merged with, each method that the directive names is served its
-- query and no other one: the text is that of the directive. The bits of the methods are not 0.
pub drizzle_query-Follows :
    (m : HttpMethods) (nginx : Compiler) (names : List (List ℕ)) (sql : List ℕ) (pagesize : ℕ)
    (conf conf' conf'' prev merged : LocConf) (key : ℕ)
    → Built m conf
    → drizzle_query m nginx names sql conf ≡ conf_ok conf'
    → Names (http_methods m) names key
    → 0 < key
    → Follows m conf' conf''
    → merge_loc_conf pagesize prev conf'' ≡ some merged
    → (q : Mixed) × (choose_query merged key ≡ chosen q) × (text_of q ≡ sql)
drizzle_query-Follows m nginx names sql pagesize conf conf' conf'' prev merged key b e n pos follow
      merge =
    go (drizzle_query-ok m nginx names sql conf conf' e)
  where
    go :
        AddsDefault names sql conf conf' ⊎ AddsRow m names sql conf conf'
        → (q : Mixed) × (choose_query merged key ≡ chosen q) × (text_of q ≡ sql)
    go (inl (q, z, _, _)) = absurd (no-Names (http_methods m) key names z n)
    go (inr (q, a, t, f)) =
        let g =
          Follows-Gives m key q conf' conf'' follow (
            row-Gives m names sql conf conf' key (q, a, t, f) (Built-IsConsistent m conf b) n
              pos) in
        let same = merge_loc_conf-own pagesize prev conf'' merged g.kept.0 g.kept.1 merge in
        (q, choose_query-Gives key q merged (same-Gives key q conf'' merged same g), t)
