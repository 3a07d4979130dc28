-- ===== src/Status/Digits.antt =====
-- `ngx_http_drizzle_get_num_size` of src/ngx_http_drizzle_util.c: how many decimal digits a number has.
use drizzle_nginx_module.Prelude.{
  ℕ, zero, suc, ◌+◌, ◌*◌, ◌/◌, ◌≤◌, ◌<◌, ◌≡◌, refl, ◌⊎◌, inl, inr, arith,
}
use drizzle_nginx_module.Prelude.Order.{lt_wf}
use mathlib.Core.Logic.{dite, dif_pos, dif_neg}
use native.Mathlib.Bridge.{le_prop}
use mathlib.Core.WellFounded.{Acc}
use native.Mathlib.Decide.{dec_lt, dec_le}

-- `do { i = i / 10; n++; } while (i > 0);` from `n` on.
unfoldable pub num_size_from : (i n : ℕ) → Acc ◌<◌ i → ℕ
num_size_from i n (Acc.intro _ smaller) =
    dite (dec_lt 0 (i / 10)) (λ h. num_size_from (i / 10) (n + 1) (smaller (i / 10) (omega arith)))
      (λ _. n + 1)

unfoldable pub get_num_size : ℕ → ℕ
unfolding num_size_from lt_wf dec_lt
get_num_size i = num_size_from i 0 (lt_wf.apply i)

abbrev pub pow10 : ℕ → ℕ
pow10 zero = 1
pow10 (suc k) = 10 * pow10 k

-- `k` is the number of decimal digits of `n`, without leading zeros; 0 has one digit.
pub record IsSize (k n : ℕ) : Type 0 where
  pub pos : 0 < k
  pub below : n < pow10 k
  pub least : (k ≡ 1) ⊎ ((j : ℕ) × (k ≡ suc j) × (pow10 j ≤ n))

pow10-pos : (k : ℕ) → 0 < pow10 k
pow10-pos zero = omega arith
pow10-pos (suc k) = omega (arith, pow10-pos k)

pow10_mono : (a b : ℕ) → a ≤ b → pow10 a ≤ pow10 b
pow10_mono zero b h = pow10-pos b
pow10_mono (suc a) zero h = absurd (omega arith)
pow10_mono (suc a) (suc b) h = omega (arith, pow10_mono a b (omega arith))

pub IsSize-le : (j k : ℕ) {m n : ℕ} → IsSize j m → IsSize k n → m ≤ n → j ≤ k
IsSize-le j k {m} {n} u v h = elim (dec_le j k) [
  | yes le ↦ le
  | no gt ↦ elim (u.least) [
    | inl one ↦ absurd (omega (arith, v.pos))
    | inr (d, e, low) ↦ absurd (omega (arith, v.below, low, pow10_mono k d (omega arith)))
  ]
]

pub IsSize-unique : (j k : ℕ) {n : ℕ} → IsSize j n → IsSize k n → j ≡ k
IsSize-unique j k {n} u v = omega (
  arith,
  IsSize-le j k {m = n} {n = n} u v (omega arith),
  IsSize-le k j {m = n} {n = n} v u (omega arith),
)

-- A number with more than nine has a digit more than its tenth.
IsSize-suc : (k i : ℕ) → 0 < i / 10 → IsSize k (i / 10) → IsSize (suc k) i
IsSize-suc zero i h s = absurd (omega (arith, s.pos))
IsSize-suc (suc k) i h s = record {
  pos = omega arith;
  below = omega (arith, s.below);
  least = elim s.least [
    | inl one ↦ let z : k ≡ 0 = omega arith in inr (suc k, refl, rw z (omega arith))
    | inr (j, e, low) ↦ let z : k ≡ j = omega arith in inr (suc k, refl, rw z (omega (arith, low)))
  ];
}

num_size_from-IsSize :
    (i n : ℕ) (w : Acc ◌<◌ i) → (k : ℕ) × (num_size_from i n w ≡ n + k) × IsSize k i
unfolding num_size_from
num_size_from-IsSize i n (Acc.intro _ smaller) = elim (dec_lt 0 (i / 10)) [
  | yes h ↦
      let (k, e, s) = num_size_from-IsSize (i / 10) (n + 1) (smaller (i / 10) (omega arith)) in
      (suc k, rw (dif_pos _ le_prop h) (omega (arith, e)), IsSize-suc k i h s)
  | no h ↦
      (1, rw (dif_neg _ h), record { pos = omega arith; below = omega arith; least = inl refl })
]

-- The loop ends, for every number, with the number of its decimal digits without leading zeros, which is 1 for
-- 0.
pub get_num_size-IsSize : (n : ℕ) → IsSize (get_num_size n) n
unfolding get_num_size
get_num_size-IsSize n =
    let (k, e, s) = num_size_from-IsSize n 0 (lt_wf.apply n) in
    let same : num_size_from n 0 (lt_wf.apply n) ≡ k = omega (arith, e) in rw same s
