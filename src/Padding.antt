-- ===== src/Padding.antt =====
-- Response padding (src/longjing/utils/response-padding.util.ts). A response is the list of its code
-- points, an unpaired surrogate among them, and its size is that of its UTF-8 encoding.
mod Tests
pub mod Sizes
pub mod RoundTrip
use zk_api.Common.{
  ℕ, zero, suc, ◌+◌, ◌-◌, ◌*◌, ◌^◌, ◌<◌, Option, none, some, List, [], ◌∷◌, ◌++◌, Bool, ltb, leb,
  ◌==◌, if◌then◌else◌, or_else, find, replicate,
}
use zk_api.Common.Text.{Text}

abbrev pub size_classes : List ℕ
size_classes = 512 ∷ 1024 ∷ 2048 ∷ 4096 ∷ 8192 ∷ 16384 ∷ 32768 ∷ 65536 ∷ 131072 ∷ 262144 ∷ []

-- '\x00'
abbrev pub padding_marker : ℕ
padding_marker = 0

-- The bytes of a code point in UTF-8.
abbrev pub utf8_width : ℕ → ℕ
utf8_width c = if ltb c 0x80 then 1 else if ltb c 0x800 then 2 else if ltb c 0x10000 then 3 else 4

-- `Buffer.byteLength(content, 'utf8')`
pub byte_length : Text → ℕ
byte_length [] = 0
byte_length (c ∷ s) = utf8_width c + byte_length s

-- `Math.ceil(Math.log2(n))` for n > 0, exactly: the least k with n ≤ 2 ^ k, found within the fuel.
pub ceil_log2_from : (fuel k n : ℕ) → ℕ
ceil_log2_from zero k n = k
ceil_log2_from (suc fuel) k n =
    let next = ceil_log2_from fuel (k + 1) n in if leb n (2 ^ k) then k else next

-- n rounds are enough, since n ≤ 2 ^ n.
pub ceil_log2 : ℕ → ℕ
ceil_log2 n = ceil_log2_from n 0 n

unfoldable pub get_size_class : ℕ → ℕ
unfolding ceil_log2 ceil_log2_from
get_size_class content_length =
    or_else (find (λ size. leb content_length size) size_classes) (2 ^ ceil_log2 content_length)

-- `padResponse`: its target size is computed as `getSizeClass` computes it.
unfoldable pub pad_response : Text → Text
pad_response content =
    let current_size = byte_length content in
    let final_target_size = get_size_class current_size in
    let padding_size = final_target_size - current_size in
    if leb final_target_size current_size
    then content
    else content ++ replicate padding_size padding_marker

-- The content before the first marker, the whole of it if there is none.
unfoldable pub unpad_response : Text → Text
unpad_response [] = []
unpad_response (c ∷ s) = let rest = unpad_response s in if c == padding_marker then [] else c ∷ rest
