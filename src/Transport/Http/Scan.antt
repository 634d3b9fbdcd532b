-- ===== src/Transport/Http/Scan.antt =====
-- crates/hap-transport/src/http.rs: the results of parsing, and the search for lines.
pub mod Stable
use Prim.Native.String.{String}
use hap_rust.Common.{
  ℕ, zero, suc, ◌+◌, ◌-◌, ◌%◌, ◌^◌, List, [], ◌∷◌, ◌++◌, Option, none, some, Result, ok, err, stuck,
  ◌>>=◌, ◌>>◌, ok_or, guard, Bool, true, false, ◌&&◌, ◌||◌, not, length, take, drop, ltb, leb, ◌==◌,
  if◌then◌else◌, is_utf8,
}
use hap_rust.Crypto.PairVerify.{bytes_eq}
use hap_rust.Transport.Types.{TransportError, malformed_http, unsupported_encoding}
use hap_rust.Transport.Text.{from_utf8_lossy, trim, to_ascii_lowercase, from_str_radix, decimal}

pub record HapResponse : Type 0 where
  pub status : ℕ
  pub content_type : List ℕ
  pub body : List ℕ

pub data ParseOutcome : Type 0 where
  complete : HapResponse → (consumed : ℕ) → ParseOutcome
  incomplete : ParseOutcome

-- How a call can fail: with an error, or by a panic, where a slice is taken out of range.
pub data Failure : Type 0 where
  failed : TransportError → Failure
  panicked : Failure

-- `EVENT/1.0`, `HTTP/1.1`, and an end of line.
abbrev pub event_prefix : List ℕ
event_prefix = 69 ∷ 86 ∷ 69 ∷ 78 ∷ 84 ∷ 47 ∷ 49 ∷ 46 ∷ 48 ∷ []

abbrev pub http_prefix : List ℕ
http_prefix = 72 ∷ 84 ∷ 84 ∷ 80 ∷ 47 ∷ 49 ∷ 46 ∷ 49 ∷ []

abbrev pub crlf : List ℕ
crlf = 13 ∷ 10 ∷ []

unfoldable pub starts_with : (front xs : List ℕ) → Bool
starts_with [] xs = true
starts_with (p ∷ ps) [] = false
starts_with (p ∷ ps) (x ∷ xs) = (p == x) && starts_with ps xs

abbrev suc_option : Option ℕ → Option ℕ
suc_option none = none
suc_option (some i) = some (suc i)

-- The needle has a byte at least.
unfoldable pub find_subslice : (needle haystack : List ℕ) → Option ℕ
unfolding starts_with
find_subslice needle [] = none
find_subslice needle (x ∷ xs) =
    let later = suc_option (find_subslice needle xs) in
    if starts_with needle (x ∷ xs) then some 0 else later

abbrev onto_first : ℕ → List (List ℕ) → List (List ℕ)
onto_first b [] = (b ∷ []) ∷ []
onto_first b (line ∷ rest) = (b ∷ line) ∷ rest

-- `split(|&b| b == sep)`: one piece at least.
unfoldable pub split : ℕ → List ℕ → List (List ℕ)
split sep [] = [] ∷ []
split sep (b ∷ bs) = let rest = split sep bs in if b == sep then [] ∷ rest else onto_first b rest

unfoldable pub strip_cr : List ℕ → List ℕ
strip_cr [] = []
strip_cr (b ∷ []) = if b == 13 then [] else b ∷ []
strip_cr (b ∷ c ∷ cs) = b ∷ strip_cr (c ∷ cs)

abbrev strip_all : List (List ℕ) → List (List ℕ)
strip_all [] = []
strip_all (line ∷ rest) = strip_cr line ∷ strip_all rest

unfoldable pub split_crlf : List ℕ → List (List ℕ)
unfolding split strip_cr
split_crlf block = strip_all (split 10 block)

abbrev pub malformed : {A : Type 0} → String → Result Failure A
malformed text = err (failed (malformed_http text))

-- `usize` has 64 bits.
abbrev pub usize_max : ℕ
usize_max = 2 ^ 64 - 1
