-- ===== src/Text/Digits.antt =====
-- Padded prints have a fixed width, and are ordered as bytes as their numbers are.
use thorium_frugal.Base.{
  ℕ, zero, suc, ◌+◌, ◌-◌, ◌*◌, ◌/◌, ◌%◌, ◌≤◌, ◌<◌, ◌≡◌, refl, ap, ◌∙◌, sym, inl, inr, Bool, false,
  true, ◌||◌, ◌&&◌, [], ◌∷◌, ◌++◌, arith, Bytes, ◌==◌, ltb, length, Bool-cases, append_assoc,
  append-nil, length-append,
}
use thorium_frugal.Text.Decimal.{digits_loop, to_string, zeros, pad_zeros}

-- The last `w` digits.
unfoldable pub fixed : ℕ → ℕ → Bytes
fixed zero n = []
fixed (suc w) n = fixed w (n / 10) ++ (b'0' + n % 10) ∷ []

-- 10 to the power of `w`.
abbrev pub power_of_ten : ℕ → ℕ
power_of_ten zero = 1
power_of_ten (suc w) = 10 * power_of_ten w

power_of_ten-pos : (w : ℕ) → 1 ≤ power_of_ten w
power_of_ten-pos zero = omega arith
power_of_ten-pos (suc w) = omega (arith, power_of_ten-pos w)

fixed-zeros : (w : ℕ) → (s : Bytes) → fixed w 0 ++ (b'0' ∷ s) ≡ b'0' ∷ (fixed w 0 ++ s)
unfolding fixed
fixed-zeros zero s = refl
fixed-zeros (suc w) s =
    append_assoc (fixed w 0) _ _
    ∙ fixed-zeros w _
    ∙ ap (◌∷◌ b'0') (sym (append_assoc (fixed w 0) _ _))

zeros-fixed : (w : ℕ) (s : Bytes) → zeros w ++ s ≡ fixed w 0 ++ s
unfolding zeros fixed
zeros-fixed zero s = refl
zeros-fixed (suc w) s =
    ap (◌∷◌ b'0') (zeros-fixed w s) ∙ sym (fixed-zeros w s) ∙ sym (append_assoc (fixed w 0) _ _)

digit-fixed :
    (w n : ℕ) (out : Bytes)
    → n < 10
    → zeros (suc w + length out - suc (length out)) ++ (b'0' + n % 10) ∷ out
      ≡ fixed (suc w) n ++ out
unfolding fixed
digit-fixed w n out h =
    let z : n / 10 ≡ 0 = omega arith in
    let k : suc w + length out - suc (length out) ≡ w = omega arith in
    rw (k, z) (zeros-fixed w ((b'0' + n % 10) ∷ out) ∙ sym (append_assoc (fixed w 0) _ _))

digits_loop-fixed :
    (fuel w n : ℕ) (out : Bytes)
    → n < fuel
    → n < power_of_ten (suc w)
    → zeros (suc w + length out - length (digits_loop fuel n out)) ++ digits_loop fuel n out
      ≡ fixed (suc w) n ++ out
unfolding digits_loop
digits_loop-fixed zero w n out h b = absurd (omega arith)
digits_loop-fixed (suc fuel) zero n out h b =
    let small : ltb n 10 ≡ true = ground arith in rw small (digit-fixed 0 n out (ground arith))
digits_loop-fixed (suc fuel) (suc w) n out h b = elim (Bool-cases (ltb n 10)) [
  | inl small ↦ rw small (digit-fixed (suc w) n out (ground arith))
  | inr large ↦
      let d : Bytes = (b'0' + n % 10) ∷ out in
      let rest = digits_loop-fixed fuel w (n / 10) d (ground arith) (omega arith) in
      let k : suc (suc w) + length out - length (digits_loop fuel (n / 10) d)
          ≡ suc w + length d - length (digits_loop fuel (n / 10) d) =
        omega arith in
      rw (large, k) (rest ∙ unfold fixed in sym (append_assoc (fixed (suc w) (n / 10)) _ out))
]

-- A number that fits is printed with as many digits as the width.
pub pad_zeros-fixed :
    (w n : ℕ) → n < power_of_ten (suc w) → pad_zeros (suc w) (to_string n) ≡ fixed (suc w) n
unfolding pad_zeros to_string
pad_zeros-fixed w n b =
    let k : suc w - length (digits_loop (n + 1) n [])
        ≡ suc w + length {A = ℕ} [] - length (digits_loop (n + 1) n []) =
      omega arith in
    rw k (digits_loop-fixed (n + 1) w n [] (omega arith) b ∙ append-nil (fixed (suc w) n))

digits_loop_whole :
    (fuel w n : ℕ) (out : Bytes)
    → n < fuel
    → power_of_ten w ≤ n
    → n < power_of_ten (suc w)
    → digits_loop fuel n out ≡ fixed (suc w) n ++ out
unfolding digits_loop
digits_loop_whole zero w n out h a b = absurd (omega arith)
digits_loop_whole (suc fuel) zero n out h a b =
    let small : ltb n 10 ≡ true = ground arith in unfold fixed in rw small refl
digits_loop_whole (suc fuel) (suc w) n out h a b =
    let large : ltb n 10 ≡ false = ground (arith, power_of_ten-pos w) in
    rw large (
      digits_loop_whole fuel w (n / 10) _ (omega arith) (omega arith) (omega arith)
      ∙ unfold fixed in sym (append_assoc (fixed (suc w) (n / 10)) _ out))

-- A number with as many digits needs no padding.
pub to_string-fixed :
    (w n : ℕ) → power_of_ten w ≤ n → n < power_of_ten (suc w) → to_string n ≡ fixed (suc w) n
unfolding to_string
to_string-fixed w n a b =
    digits_loop_whole (n + 1) w n [] (omega arith) a b ∙ append-nil (fixed (suc w) n)

length-fixed : (w n : ℕ) → length (fixed w n) ≡ w
unfolding fixed
length-fixed zero n = refl
length-fixed (suc w) n =
    omega (arith, length-fixed w (n / 10), length-append (fixed w (n / 10)) ((b'0' + n % 10) ∷ []))

pub length-fixed_append : (w n : ℕ) (s : Bytes) → length (fixed w n ++ s) ≡ w + length s
length-fixed_append w n s = omega (arith, length-fixed w n, length-append (fixed w n) s)

-- `operator<` of two strings.
unfoldable pub str_less : Bytes → Bytes → Bool
str_less [] [] = false
str_less [] (b ∷ t) = true
str_less (a ∷ s) [] = false
str_less (a ∷ s) (b ∷ t) = ltb a b || (a == b && str_less s t)

-- The last digit decides where the others are equal.
last_digit :
    (m n : ℕ) (less : Bool)
    → (ltb (m / 10) (n / 10)
        || (m / 10 == n / 10
            && (ltb (b'0' + m % 10) (b'0' + n % 10) || (b'0' + m % 10 == b'0' + n % 10 && less))))
      ≡ (ltb m n || (m == n && less))
last_digit m n less = ground arith

-- Behind prints of one width, the order of the numbers comes first.
pub str_less-fixed :
    (w m n : ℕ) (s t : Bytes)
    → m < power_of_ten w
    → n < power_of_ten w
    → str_less (fixed w m ++ s) (fixed w n ++ t) ≡ (ltb m n || (m == n && str_less s t))
unfolding fixed str_less
str_less-fixed zero m n s t hm hn =
    let zm : m ≡ 0 = omega arith in let zn : n ≡ 0 = omega arith in rw (zm, zn) refl
str_less-fixed (suc w) m n s t hm hn =
    rw (append_assoc (fixed w (m / 10)), append_assoc (fixed w (n / 10)))
      (str_less-fixed w (m / 10) (n / 10) _ _ (omega arith) (omega arith)
        ∙ last_digit m n (str_less s t))
