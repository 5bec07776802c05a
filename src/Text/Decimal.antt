-- ===== src/Text/Decimal.antt =====
-- `std::to_string`, and `std::setfill('0') << std::setw(w)`.
use thorium_frugal.Base.{
  ℕ, zero, suc, ◌+◌, ◌-◌, ◌*◌, ◌/◌, ◌%◌, ◌<◌, ◌≡◌, refl, ap, ◌∙◌, sym, [], ◌∷◌, ◌++◌, arith, Bytes,
  codes, ltb, if◌then◌else◌, length, Bool-cases, inl, inr,
}

unfoldable pub digits_loop : ℕ → ℕ → Bytes → Bytes
digits_loop zero n out = out
digits_loop (suc fuel) n out =
    let more = digits_loop fuel (n / 10) ((b'0' + n % 10) ∷ out) in
    if ltb n 10 then (b'0' + n % 10) ∷ out else more

unfoldable pub to_string : ℕ → Bytes
unfolding digits_loop
to_string n = digits_loop (n + 1) n []

-- Zeros in front, up to a width; a longer text stays.
unfoldable pub zeros : ℕ → Bytes
zeros zero = []
zeros (suc n) = b'0' ∷ zeros n

unfoldable pub pad_zeros : ℕ → Bytes → Bytes
unfolding zeros
pad_zeros width s = zeros (width - length s) ++ s

-- The number that a text of digits spells behind `n`.
read : ℕ → Bytes → ℕ
read n [] = n
read n (c ∷ s) = read (n * 10 + (c - b'0')) s

read-digits_loop :
    (fuel n : ℕ) (out : Bytes) → n < fuel → read 0 (digits_loop fuel n out) ≡ read n out
unfolding digits_loop read
read-digits_loop zero n out h = absurd (omega arith)
read-digits_loop (suc fuel) n out h = elim (Bool-cases (ltb n 10)) [
  | inl small ↦ rw small (ap (λ (m : ℕ). read m out) (ground arith))
  | inr large ↦ rw large (
      read-digits_loop fuel (n / 10) ((b'0' + n % 10) ∷ out) (ground arith)
      ∙ ap (λ (m : ℕ). read m out) (omega arith))
]

read-zeros : (k : ℕ) (s : Bytes) → read 0 (zeros k ++ s) ≡ read 0 s
unfolding read zeros
read-zeros zero s = refl
read-zeros (suc k) s = read-zeros k s

read-pad_zeros : (width n : ℕ) → read 0 (pad_zeros width (to_string n)) ≡ n
unfolding pad_zeros to_string
read-pad_zeros width n =
    read-zeros (width - length (digits_loop (n + 1) n [])) (digits_loop (n + 1) n [])
    ∙ read-digits_loop (n + 1) n [] (omega arith)
    ∙ unfold read in refl

-- Different numbers have different padded prints.
pub pad_zeros-injective :
    (width m n : ℕ) → pad_zeros width (to_string m) ≡ pad_zeros width (to_string n) → m ≡ n
pad_zeros-injective width m n e =
    sym (read-pad_zeros width m) ∙ ap (read 0) e ∙ read-pad_zeros width n

padded : pad_zeros 6 (to_string 1234) ≡ codes "001234"
unfolding pad_zeros to_string
padded = refl
