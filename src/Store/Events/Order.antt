-- ===== src/Store/Events/Order.antt =====
-- The keys of the event log stand in the order of their numbers.
use ulcer.Prelude.{
  ℕ, zero, suc, ◌+◌, ◌*◌, ◌/◌, ◌%◌, ◌^◌, ◌<◌, ◌≤◌, ◌≡◌, refl, true, false, Text, [], ◌∷◌, ◌++◌,
  arith, ap, ◌∙◌, ltb, text_lt, has_prefix, if◌then◌else◌, ◌==◌,
}
use native.Mathlib.Nat.{div-add-mod, mod-lt, mul-add-mod_self_left, mod-eq_of_lt}
use ulcer.Store.Keys.{zero_padded, event_key, event_prefix}

mul_gap : (x y t : ℕ) → x < y → x * t + t ≤ y * t
mul_gap x y t h = grind arith

expand : (t a b : ℕ) → t * (10 * a + b) ≡ 10 * t * a + b * t
expand t a b = grind arith

-- The digit before `t` and what is behind it decide the order.
digits_order :
    (t x y r s : ℕ)
    → r < t
    → s < t
    → ltb (x * t + r) (y * t + s) ≡ (if x == y then ltb r s else ltb x y)
digits_order t x y r s h k = ground (arith, mul_gap x y t, mul_gap y x t)

split_mod : (t n : ℕ) → 0 < t → n % (10 * t) ≡ (n / t % 10) * t + n % t
split_mod t n h =
    let q = n / t in
    let c = q % 10 * t + n % t in
    let whole : n ≡ 10 * t * (q / 10) + c = omega (
      arith,
      div-add-mod n t,
      div-add-mod q 10,
      expand t (q / 10) (q % 10),
      ap (λ (z : ℕ). t * z) (div-add-mod q 10),
    ) in
    let small : c < 10 * t = omega (arith, mul_gap (q % 10) 10 t, mod-lt n h) in
    ap (λ (z : ℕ). z % (10 * t)) whole
    ∙ mul-add-mod_self_left (10 * t) (q / 10) c
    ∙ mod-eq_of_lt small

power_pos : (w : ℕ) → 0 < 10 ^ w
power_pos zero = omega arith
power_pos (suc w) = omega (arith, power_pos w)

power_suc : (w : ℕ) → 10 ^ suc w ≡ 10 * 10 ^ w
power_suc w = omega arith

zero_padded-lt :
    (w a b : ℕ) → text_lt (zero_padded w a) (zero_padded w b) ≡ ltb (a % 10 ^ w) (b % 10 ^ w)
unfolding zero_padded
zero_padded-lt zero a b = ground arith
zero_padded-lt (suc w) a b =
    let t = 10 ^ w in
    rw (power_suc w, split_mod t a (power_pos w), split_mod t b (power_pos w))
      (ground (
        arith,
        zero_padded-lt w a b,
        digits_order t (a / t % 10) (b / t % 10) (a % t) (b % t) (mod-lt a (power_pos w))
            (mod-lt b (power_pos w)),
      ))

text_lt-append : (p s t : Text) → text_lt (p ++ s) (p ++ t) ≡ text_lt s t
text_lt-append [] s t = refl
text_lt-append (c ∷ p) s t = ground (arith, text_lt-append p s t)

-- The order of the keys is that of the numbers, as long as twenty digits are enough.
pub event_key-lt :
    (a b : ℕ) → a < 10 ^ 20 → b < 10 ^ 20 → text_lt (event_key a) (event_key b) ≡ ltb a b
unfolding event_key
event_key-lt a b h k =
    text_lt-append event_prefix (zero_padded 20 a) (zero_padded 20 b)
    ∙ zero_padded-lt 20 a b
    ∙ rw (mod-eq_of_lt h, mod-eq_of_lt k)

pub event_key-has_prefix : (n : ℕ) → has_prefix (event_key n) event_prefix ≡ true
unfolding event_key
event_key-has_prefix n = refl

-- A key between two keys with a prefix, the first one included, has it too.
pub has_prefix-between :
    (p s t u : Text)
    → has_prefix s p ≡ true
    → has_prefix u p ≡ true
    → text_lt t s ≡ false
    → text_lt t u ≡ true
    → has_prefix t p ≡ true
has_prefix-between [] s t u a b h k = ground arith
has_prefix-between (c ∷ p) [] t u a b h k = ground arith
has_prefix-between (c ∷ p) (d ∷ s) t [] a b h k = ground arith
has_prefix-between (c ∷ p) (d ∷ s) [] (f ∷ u) a b h k = ground arith
has_prefix-between (c ∷ p) (d ∷ s) (e ∷ t) (f ∷ u) a b h k =
    ground (arith, has_prefix-between p s t u)
