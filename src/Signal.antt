-- ===== src/Signal.antt =====
-- Field elements as text and the binding of the signal x to the payload
-- (src/longjing/utils/payload-signal.util.ts). SHA-256 and Poseidon are parameters.
mod Tests
pub mod Canonical
use mathlib.Core.WellFounded.{Acc}
use mathlib.Core.Logic.{dite}
use native.Mathlib.Decide.{dec_lt}
use zk_api.Common.{
  ℕ, zero, suc, ◌+◌, ◌-◌, ◌*◌, ◌/◌, ◌%◌, ◌<◌, Bool, true, false, not, ◌&&◌, ◌||◌, Option, none,
  some, List, [], ◌∷◌, arith, ltb, leb, ◌==◌, if◌then◌else◌, any, all,
}
use zk_api.Common.Order.{lt_wf}
use zk_api.Common.Text.{Text, codes}

abbrev pub bn254_scalar_field : ℕ
bn254_scalar_field = 21888242871839275222246405745257275088548364400416034343698204186575808495617

-- The white space and line terminators that `String.prototype.trim` removes.
abbrev pub is_space : ℕ → Bool
is_space c =
    (leb 9 c && leb c 13)
    || c == 32
    || c == 160
    || c == 0x1680
    || (leb 0x2000 c && leb c 0x200a)
    || c == 0x2028
    || c == 0x2029
    || c == 0x202f
    || c == 0x205f
    || c == 0x3000
    || c == 0xfeff

abbrev pub is_nil : Text → Bool
is_nil [] = true
is_nil (c ∷ s) = false

unfoldable pub trim_start : Text → Text
trim_start [] = []
trim_start (c ∷ s) = let rest = trim_start s in if is_space c then rest else c ∷ s

unfoldable pub trim_end : Text → Text
trim_end [] = []
trim_end (c ∷ s) = let rest = trim_end s in if is_space c && is_nil rest then [] else c ∷ rest

unfoldable pub trim : Text → Text
unfolding trim_start trim_end
trim s = trim_end (trim_start s)

abbrev pub is_digit : ℕ → Bool
is_digit c = leb b'0' c && leb c b'9'

-- The value of a digit, in bases ten and sixteen.
abbrev pub decimal_digit : ℕ → Option ℕ
decimal_digit c = if is_digit c then some (c - b'0') else none

abbrev pub hex_digit : ℕ → Option ℕ
hex_digit c =
    if is_digit c
    then some (c - b'0')
    else if leb b'a' c && leb c b'f'
    then some (c - b'a' + 10)
    else if leb b'A' c && leb c b'F'
    then some (c - b'A' + 10)
    else none

unfoldable pub read_digits : (ℕ → Option ℕ) → ℕ → ℕ → Text → Option ℕ
read_digits digit base n [] = some n
read_digits digit base n (c ∷ s) = elim (digit c) [
  | none ↦ none
  | some d ↦ read_digits digit base (n * base + d) s
]

-- `BigInt('0x' + s)`; `none` is the SyntaxError, for an empty text or another character.
unfoldable pub big_int_hex : Text → Option ℕ
unfolding read_digits
big_int_hex [] = none
big_int_hex (c ∷ s) = read_digits hex_digit 16 0 (c ∷ s)

-- `BigInt(s)` of a text that matches /^\d+$/.
unfoldable pub big_int_decimal : Text → Option ℕ
unfolding read_digits
big_int_decimal s = read_digits decimal_digit 10 0 s

-- What follows the prefix `0x`, where the text has it.
abbrev pub after_0x : Text → Option Text
after_0x [] = none
after_0x (a ∷ []) = none
after_0x (a ∷ b ∷ s) = if a == b'0' && b == b'x' then some s else none

-- /^\d+$/
abbrev pub is_decimal : Text → Bool
is_decimal s = not (is_nil s) && all is_digit s

-- The body of `parseFieldElement` on the trimmed text; `none` is the SyntaxError of `BigInt`.
unfoldable pub parse_trimmed : Text → Option ℕ
unfolding big_int_hex big_int_decimal
parse_trimmed str = elim (after_0x str) [
  | some digits ↦ big_int_hex digits
  | none ↦ if is_decimal str then big_int_decimal str else big_int_hex str
]

unfoldable pub parse_field_element : Text → Option ℕ
unfolding parse_trimmed trim
parse_field_element value = parse_trimmed (trim value)

pub print_from : (n : ℕ) → Acc ◌<◌ n → Text → Text
print_from n (Acc.intro _ smaller) out =
    dite (dec_lt 9 n)
      (λ h. print_from (n / 10) (smaller (n / 10) (omega arith)) ((b'0' + n % 10) ∷ out))
      (λ _. (b'0' + n) ∷ out)

-- `n.toString()` of a bigint that is not negative.
unfoldable pub to_string : ℕ → Text
unfolding print_from lt_wf dec_lt
to_string n = print_from n (lt_wf.apply n) []

module _ (sha256 : Text → ℕ) (poseidon : ℕ → ℕ → ℕ) where
  pub payload_digest : Text → ℕ
  payload_digest payload = sha256 payload % bn254_scalar_field

  unfoldable pub payload_signal_x : Text → ℕ → ℕ
  unfolding payload_digest
  payload_signal_x payload nonce = poseidon (payload_digest payload) nonce

  -- The comparison, once both texts have parsed.
  unfoldable pub check_signal : Text → Option ℕ → Option ℕ → Bool
  unfolding payload_signal_x
  check_signal payload (some x) (some rho) =
      if leb bn254_scalar_field rho then false else x == payload_signal_x payload rho
  check_signal payload _ _ = false

  unfoldable pub signal_x_matches_request : Text → Text → Text → Bool
  unfolding check_signal
  signal_x_matches_request signal_x payload nonce =
      check_signal payload (parse_field_element signal_x) (parse_field_element nonce)
