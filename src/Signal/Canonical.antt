-- ===== src/Signal/Canonical.antt =====
-- The canonical form of a field element: `parseFieldElement(value).toString()`.
use mathlib.Core.WellFounded.{Acc}
use mathlib.Core.Logic.{dif_pos, dif_neg}
use mathlib.Core.Option
use native.Mathlib.Bridge.{le_prop}
use native.Mathlib.Decide.{dec_lt}
use zk_api.Common.{
  ℕ, ◌+◌, ◌/◌, ◌%◌, ◌<◌, ◌≡◌, ◌↔◌, refl, ap, ◌∙◌, true, false, Option, none, some, [], ◌∷◌, arith,
  all,
}
use zk_api.Common.Order.{lt_wf}
use zk_api.Common.Text.{Text}
use zk_api.Signal.{
  is_nil, is_digit, is_decimal, big_int_decimal, after_0x, trim_start, trim_end, decimal_digit,
  read_digits, big_int_hex, parse_trimmed, parse_field_element, print_from, to_string,
}

-- Reading the printed digits of `n` from zero is reading on from `n`.
read-print_from :
    (n : ℕ) (w : Acc ◌<◌ n) (out : Text)
    → read_digits decimal_digit 10 0 (print_from n w out) ≡ read_digits decimal_digit 10 n out
unfolding print_from read_digits
read-print_from n (Acc.intro _ smaller) out = elim (dec_lt 9 n) [
  | yes more ↦ rw (dif_pos (dec_lt 9 n) le_prop more) (
      ground
        (arith, read-print_from (n / 10) (smaller (n / 10) (omega arith)) ((b'0' + n % 10) ∷ out)))
  | no last ↦ rw (dif_neg (dec_lt 9 n) last) (ground arith)
]

all_digits-print_from :
    (n : ℕ) (w : Acc ◌<◌ n) (out : Text)
    → all is_digit out ≡ true
    → all is_digit (print_from n w out) ≡ true
unfolding print_from
all_digits-print_from n (Acc.intro _ smaller) out h = elim (dec_lt 9 n) [
  | yes more ↦ rw (dif_pos (dec_lt 9 n) le_prop more) (
      all_digits-print_from (n / 10) (smaller (n / 10) (omega arith)) ((b'0' + n % 10) ∷ out)
        (ground arith))
  | no last ↦ rw (dif_neg (dec_lt 9 n) last) (ground arith)
]

print_from_nonempty : (n : ℕ) (w : Acc ◌<◌ n) (out : Text) → is_nil (print_from n w out) ≡ false
unfolding print_from
print_from_nonempty n (Acc.intro _ smaller) out = elim (dec_lt 9 n) [
  | yes more ↦
      rw (dif_pos (dec_lt 9 n) le_prop more)
        (print_from_nonempty (n / 10) (smaller (n / 10) (omega arith)) ((b'0' + n % 10) ∷ out))
  | no last ↦ rw (dif_neg (dec_lt 9 n) last) refl
]

trim_start-digits : (s : Text) → all is_digit s ≡ true → trim_start s ≡ s
unfolding trim_start
trim_start-digits [] h = refl
trim_start-digits (c ∷ s) h = ground (arith, trim_start-digits s)

trim_end-digits : (s : Text) → all is_digit s ≡ true → trim_end s ≡ s
unfolding trim_end
trim_end-digits [] h = refl
trim_end-digits (c ∷ s) h = ground (arith, trim_end-digits s)

after_0x-digits : (s : Text) → all is_digit s ≡ true → after_0x s ≡ none
after_0x-digits [] h = refl
after_0x-digits (a ∷ []) h = refl
after_0x-digits (a ∷ b ∷ s) h = ground arith

parse_trimmed-digits :
    (s : Text)
    → all is_digit s ≡ true
    → is_nil s ≡ false
    → parse_trimmed s ≡ read_digits decimal_digit 10 0 s
unfolding parse_trimmed
parse_trimmed-digits s h k = ground (arith, after_0x-digits s h)

-- A text of decimal digits is read in base ten.
parse-digits :
    (s : Text)
    → all is_digit s ≡ true
    → is_nil s ≡ false
    → parse_field_element s ≡ read_digits decimal_digit 10 0 s
unfolding parse_field_element
parse-digits s h k = rw (trim_start-digits s h, trim_end-digits s h) (parse_trimmed-digits s h k)

-- Parsing what `toString` printed gives the number back, for every number.
pub parse_field_element-to_string : (n : ℕ) → parse_field_element (to_string n) ≡ some n
unfolding to_string read_digits
parse_field_element-to_string n =
    let w = lt_wf.apply n in
    parse-digits (print_from n w []) (all_digits-print_from n w [] refl)
      (print_from_nonempty n w [])
    ∙ read-print_from n w []

-- `parseFieldElement(value).toString()`, the key under which a nullifier is stored.
abbrev pub canonical : Text → Option Text
canonical value = Option.map to_string (parse_field_element value)

to_string_injective : (m n : ℕ) → to_string m ≡ to_string n → m ≡ n
to_string_injective m n e =
    cc (parse_field_element-to_string m, parse_field_element-to_string n, ap parse_field_element e)

-- Two texts have the same canonical form exactly when they parse to the same number, or both fail.
pub canonical_iff :
    (a b : Text) → (canonical a ≡ canonical b) ↔ (parse_field_element a ≡ parse_field_element b)
canonical_iff a b = (λ e. same _ _ e, ap (Option.map to_string))
  where
    same : (o p : Option ℕ) → Option.map to_string o ≡ Option.map to_string p → o ≡ p
    same none none e = refl
    same none (some n) e = cc
    same (some m) none e = cc
    same (some m) (some n) e = ap some (to_string_injective m n (cc))

pub parse_trimmed_negative : (s : Text) → parse_trimmed (b'-' ∷ s) ≡ none
unfolding parse_trimmed big_int_hex read_digits
parse_trimmed_negative [] = refl
parse_trimmed_negative (c ∷ s) = refl

-- A text that begins with a minus sign does not parse.
pub parse_field_element_negative : (s : Text) → parse_field_element (b'-' ∷ s) ≡ none
unfolding parse_field_element trim_start trim_end
parse_field_element_negative s = parse_trimmed_negative (trim_end s)

-- What `toString` prints is a decimal text.
pub is_decimal-to_string : (n : ℕ) → is_decimal (to_string n) ≡ true
unfolding to_string
is_decimal-to_string n =
    let w = lt_wf.apply n in
    ground (arith, all_digits-print_from n w [] refl, print_from_nonempty n w [])

-- `BigInt` of what `toString` printed gives the number back.
pub big_int_decimal-to_string : (n : ℕ) → big_int_decimal (to_string n) ≡ some n
unfolding to_string big_int_decimal read_digits
big_int_decimal-to_string n = read-print_from n (lt_wf.apply n) []
