-- ===== src/Text.antt =====
-- The operations of `std::string` and the loop over `std::getline` that the C++ sources use, on
-- byte strings. `none` stands for `std::string::npos`.
pub mod Find
pub mod Cut
pub mod Pieces
pub mod Getlines
pub mod Lower
pub mod Decimal
pub mod Digits
pub mod Ends
use Prim.Native.Nat.{pred}
use thorium_frugal.Base.{
  ℕ, zero, suc, ◌+◌, Bool, true, false, ◌||◌, ◌&&◌, List, [], ◌∷◌, ◌++◌, map, Option, none, some,
  Bytes, codes, ◌==◌, leb, ltb, if◌then◌else◌, take, drop, any, ◌≡◌, refl,
}
use mathlib.Core.Option

-- `std::tolower` in the "C" locale.
unfoldable pub tolower : ℕ → ℕ
tolower c = if leb b'A' c && leb c b'Z' then c + 32 else c

-- `std::transform` over the whole string; the sources define this `ToLower` in five files.
unfoldable pub to_lower : Bytes → Bytes
to_lower = map tolower

-- The position of the last byte that passes the test.
unfoldable pub find_last_if : (ℕ → Bool) → Bytes → Option ℕ
find_last_if p [] = none
find_last_if p (c ∷ s) = elim (find_last_if p s) [
  | some i ↦ some (suc i)
  | none ↦ if p c then some 0 else none
]

-- The position of the first byte that passes the test.
unfoldable pub find_if : (ℕ → Bool) → Bytes → Option ℕ
find_if p [] = none
find_if p (c ∷ s) = if p c then some 0 else Option.map suc (find_if p s)

-- `s.find(c, pos)`.
unfoldable pub find : Bytes → ℕ → ℕ → Option ℕ
find s c pos = Option.map (λ i. pos + i) (find_if (λ b. b == c) (drop pos s))

-- `s.find_first_of(chars, pos)`.
unfoldable pub find_first_of : Bytes → Bytes → ℕ → Option ℕ
find_first_of s chars pos =
    Option.map (λ i. pos + i) (find_if (λ b. any (λ c. b == c) chars) (drop pos s))

-- `s.rfind(prefix, 0) == 0`.
unfoldable pub starts_with : Bytes → Bytes → Bool
starts_with s [] = true
starts_with [] (p ∷ ps) = false
starts_with (c ∷ s) (p ∷ ps) = c == p && starts_with s ps

-- `s.find(pattern)`.
unfoldable pub find_str : Bytes → Bytes → Option ℕ
find_str [] pat = if starts_with [] pat then some 0 else none
find_str (c ∷ s) pat =
    let rest = find_str s pat in if starts_with (c ∷ s) pat then some 0 else Option.map suc rest

-- `s.substr(pos, n)`; `s.substr(pos)` is `drop pos s`.
abbrev pub substr : Bytes → ℕ → ℕ → Bytes
substr s pos n = take n (drop pos s)

-- `s.back()` compared with a byte, false of the empty string, and `s.pop_back()`.
unfoldable pub ends_with_byte : Bytes → ℕ → Bool
ends_with_byte [] b = false
ends_with_byte (c ∷ []) b = c == b
ends_with_byte (c ∷ d ∷ s) b = ends_with_byte (d ∷ s) b

-- `s[0] == b`, false of the empty string.
unfoldable pub begins_with_byte : Bytes → ℕ → Bool
begins_with_byte [] b = false
begins_with_byte (c ∷ s) b = c == b

unfoldable pub pop_back : Bytes → Bytes
pop_back [] = []
pop_back (c ∷ []) = []
pop_back (c ∷ d ∷ s) = c ∷ pop_back (d ∷ s)

unfoldable pub is_empty {ℓ} : {A : Type ℓ} → List A → Bool
is_empty [] = true
is_empty (x ∷ xs) = false

-- What `while (std::getline(ss, item, d))` reads: the pieces between the delimiters, but no piece
-- behind a last delimiter.
push : ℕ → List Bytes → List Bytes
push c [] = (c ∷ []) ∷ []
push c (p ∷ ps) = (c ∷ p) ∷ ps

unfoldable pub getlines : ℕ → Bytes → List Bytes
unfolding push
getlines d [] = []
getlines d (c ∷ s) = let rest = getlines d s in if c == d then [] ∷ rest else push c rest

-- `for (i …) { if (i > 0) out += sep; out += parts[i]; }`.
unfoldable pub join : Bytes → List Bytes → Bytes
join sep [] = []
join sep (p ∷ []) = p
join sep (p ∷ q ∷ ps) = p ++ (sep ++ join sep (q ∷ ps))

getlines_runs : getlines b'&' (codes "a=1&&b&") ≡ codes "a=1" ∷ [] ∷ codes "b" ∷ []
unfolding getlines
getlines_runs = refl

find_runs : find (codes "a/b/c") b'/' 2 ≡ some 3
unfolding find find_if
find_runs = refl
