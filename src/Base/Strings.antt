-- ===== src/Base/Strings.antt =====
-- C strings as the list of their bytes before the terminator, and the byte order of the network.
use Prim.Native.Nat.{ℕ, ◌+◌, ◌*◌, ◌/◌, ◌%◌, ◌^◌, ◌<◌}
use Prim.Native.Char.{code}
use Prim.Native.String.{String}
use mathlib.Core.Path.{◌≡◌, refl}
use mathlib.Core.Bool.{Bool, true, false, ◌&&◌}
use mathlib.Core.List.{List, [], ◌∷◌, ◌++◌}
use native.Mathlib.Omega.{arith}
use cse.Base.Lists.{All}
use cse.Base.Tests.{◌==◌, ==_iff, if◌then◌else◌}

abbrev pub Bytes : Type 0
Bytes = List ℕ

abbrev pub codes : String → Bytes
codes String.[] = []
codes (String.◌∷◌ c s) = code c ∷ codes s

-- `strcmp(a, b) == 0`.
unfoldable pub same : Bytes → Bytes → Bool
same [] [] = true
same (x ∷ xs) (y ∷ ys) = (x == y) && same xs ys
same _ _ = false

pub same_refl : (a : Bytes) → same a a ≡ true
unfolding same
same_refl [] = refl
same_refl (x ∷ xs) = ground (arith, same_refl xs)

pub same→eq : (a b : Bytes) → same a b ≡ true → a ≡ b
unfolding same
same→eq [] [] h = refl
same→eq [] (y ∷ ys) h = absurd (ground arith)
same→eq (x ∷ xs) [] h = absurd (ground arith)
same→eq (x ∷ xs) (y ∷ ys) h = ground (arith, same→eq xs ys, ==_iff x y)

-- An array of characters as a string: up to the first 0.
unfoldable pub before_nul : Bytes → Bytes
before_nul [] = []
before_nul (x ∷ xs) = let rest = before_nul xs in if x == 0 then [] else x ∷ rest

-- Text without a byte 0.
abbrev pub IsText : Bytes → Type 0
IsText = All (λ x. 0 < x)

pub before_nul-append : (xs ys : Bytes) → IsText xs → before_nul (xs ++ ys) ≡ xs ++ before_nul ys
unfolding before_nul
before_nul-append [] ys h = refl
before_nul-append (x ∷ xs) ys h = ground (arith, before_nul-append xs ys h.1)

pub before_nul-text : (xs : Bytes) → IsText xs → before_nul xs ≡ xs
unfolding before_nul
before_nul-text [] h = refl
before_nul-text (x ∷ xs) h = ground (arith, before_nul-text xs h.1)

abbrev pub u32 : ℕ → ℕ
u32 n = n % 2 ^ 32

-- `htonl` and `ntohl` on a little-endian host: the four bytes in the other order.
unfoldable pub htonl : ℕ → ℕ
htonl n =
    (n % 256) * 16777216 + (n / 256 % 256) * 65536 + (n / 65536 % 256) * 256 + n / 16777216 % 256

unfoldable pub ntohl : ℕ → ℕ
unfolding htonl
ntohl n = htonl n

pub ntohl-htonl : (n : ℕ) → n < 2 ^ 32 → ntohl (htonl n) ≡ n
unfolding ntohl htonl
ntohl-htonl n h = omega arith

pub htonl-lt : (n : ℕ) → htonl n < 2 ^ 32
unfolding htonl
htonl-lt n = omega arith

-- The same for the two bytes of a short number.
unfoldable pub htons : ℕ → ℕ
htons n = (n % 256) * 256 + n / 256 % 256

unfoldable pub ntohs : ℕ → ℕ
unfolding htons
ntohs n = htons n

pub ntohs-htons : (n : ℕ) → n < 2 ^ 16 → ntohs (htons n) ≡ n
unfolding ntohs htons
ntohs-htons n h = omega arith
