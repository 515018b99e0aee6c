-- ===== src/Store/Etag.antt =====
-- `strong_etag` of crates/store/src/lib.rs: a 64-bit FNV-1a hash and the number of bytes. Its last
-- argument, `extra`, is `None` in every call and is kept as an `Option`.
pub mod Laws
pub mod Plain
use Prim.Native.Nat.{bit_xor}
use ajar_gateway.Common.{ℕ, ◌*◌, ◌%◌, ◌^◌, Option, none, some, List, [], ◌∷◌, ◌++◌, length}
use ajar_gateway.Text.{Text, codes}
use ajar_gateway.Text.Number.{decimal, hex}
use ajar_gateway.Store.Model.{Bytes}

abbrev pub offset_basis : ℕ
offset_basis = 14_695_981_039_346_656_037

abbrev pub fnv_prime : ℕ
fnv_prime = 1_099_511_628_211

-- One round of the loop: `hash ^= byte; hash = hash.wrapping_mul(prime)`.
pub fnv_round : ℕ → ℕ → ℕ
fnv_round hash byte = bit_xor hash byte * fnv_prime % 2 ^ 64

pub fnv_from : ℕ → Bytes → ℕ
fnv_from hash [] = hash
fnv_from hash (byte ∷ bytes) = fnv_from (fnv_round hash byte) bytes

abbrev unwrap_or_empty : Option Bytes → Bytes
unwrap_or_empty none = []
unwrap_or_empty (some extra) = extra

abbrev pub format_etag : ℕ → ℕ → Text
format_etag hash size = codes "\"" ++ (hex 16 hash ++ (codes "-" ++ (decimal size ++ codes "\"")))

unfoldable pub strong_etag : Bytes → Bytes → Option Bytes → Text
unfolding fnv_from fnv_round decimal hex
strong_etag prefix bytes extra =
    format_etag (fnv_from offset_basis (prefix ++ bytes ++ unwrap_or_empty extra)) (length bytes)
