-- ===== src/Common/Bytes.antt =====
-- Bytes, and the little-endian layout of machine words (`to_le_bytes`, `from_le_bytes`).
use Prim.Native.Nat.{ℕ, zero, suc, ◌+◌, ◌*◌, ◌/◌, ◌%◌, ◌^◌, ◌<◌}
use mathlib.Core.Path.{◌≡◌, refl, ap}
use mathlib.Core.List.{List, [], ◌∷◌, ◌++◌}
use native.Mathlib.Omega.{arith}
use native.Mathlib.Nat.{pow-suc}
use hap_rust.Common.Lists.{length, All, replicate}

abbrev pub IsByte : ℕ → Type 0
IsByte b = b < 256

-- The low `width` bytes of a word, lowest first.
unfoldable pub to_le_bytes : ℕ → ℕ → List ℕ
to_le_bytes zero n = []
to_le_bytes (suc width) n = (n % 256) ∷ to_le_bytes width (n / 256)

unfoldable pub from_le_bytes : List ℕ → ℕ
from_le_bytes [] = 0
from_le_bytes (b ∷ bs) = b + 256 * from_le_bytes bs

pub length-to_le_bytes : (width n : ℕ) → length (to_le_bytes width n) ≡ width
unfolding to_le_bytes
length-to_le_bytes zero n = refl
length-to_le_bytes (suc width) n = ap suc (length-to_le_bytes width (n / 256))

pub to_le_bytes-IsByte : (width n : ℕ) → All IsByte (to_le_bytes width n)
unfolding to_le_bytes
to_le_bytes-IsByte zero n = tt
to_le_bytes-IsByte (suc width) n = (omega arith, to_le_bytes-IsByte width (n / 256))

pub from_le_bytes-to_le_bytes :
    (width n : ℕ) → n < 256 ^ width → from_le_bytes (to_le_bytes width n) ≡ n
unfolding to_le_bytes from_le_bytes
from_le_bytes-to_le_bytes zero n h = omega arith
from_le_bytes-to_le_bytes (suc width) n h =
    let small : n / 256 < 256 ^ width = omega (arith, pow-suc 256 width) in
    omega (arith, from_le_bytes-to_le_bytes width (n / 256) small)

pub from_le_bytes-lt : (bs : List ℕ) → All IsByte bs → from_le_bytes bs < 256 ^ length bs
unfolding from_le_bytes
from_le_bytes-lt [] h = omega arith
from_le_bytes-lt (b ∷ bs) h = omega (arith, pow-suc 256 (length bs), from_le_bytes-lt bs h.1, h.0)

-- Zero bytes behind the word change nothing.
pub from_le_bytes_padded :
    (bs : List ℕ) (k : ℕ) → from_le_bytes (bs ++ replicate k 0) ≡ from_le_bytes bs
unfolding from_le_bytes
from_le_bytes_padded [] zero = refl
from_le_bytes_padded [] (suc k) = omega (arith, from_le_bytes_padded [] k)
from_le_bytes_padded (b ∷ bs) k = omega (arith, from_le_bytes_padded bs k)
