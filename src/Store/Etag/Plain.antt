-- ===== src/Store/Etag/Plain.antt =====
-- The form of a tag of `strong_etag` of crates/store/src/lib.rs.
use ajar_gateway.Common.{◌≡◌, refl, none, ◌∷◌, ◌++◌, [], All-append, length, arith}
use ajar_gateway.Store.Model.{Bytes}
use ajar_gateway.Store.Etag.{strong_etag, fnv_from, offset_basis}
use ajar_gateway.Text.{Text}
use ajar_gateway.Text.Number.{decimal, hex}
use ajar_gateway.Text.Number.Plain.{IsPlain, IsPlainChar, hex-IsPlain, decimal-IsPlain}

-- A tag behind its first quotation mark.
pub tag_rest : Bytes → Bytes → Text
tag_rest prefix bytes =
    hex 16 (fnv_from offset_basis (prefix ++ bytes ++ []))
    ++ (b'-' ∷ (decimal (length bytes) ++ b'"' ∷ []))

pub strong_etag-tag_rest :
    (prefix bytes : Bytes) → strong_etag prefix bytes none ≡ b'"' ∷ tag_rest prefix bytes
unfolding strong_etag tag_rest
strong_etag-tag_rest prefix bytes = refl

pub tag_rest-IsPlain : (prefix bytes : Bytes) → IsPlain (tag_rest prefix bytes)
unfolding tag_rest
tag_rest-IsPlain prefix bytes =
    All-append IsPlainChar (hex 16 (fnv_from offset_basis (prefix ++ bytes ++ []))) _
      (hex-IsPlain 16 (fnv_from offset_basis (prefix ++ bytes ++ [])))
      (
        ground arith,
        All-append IsPlainChar (decimal (length bytes)) (b'"' ∷ []) (decimal-IsPlain (length bytes))
            (ground arith, tt),
      )
