-- ===== src/Providers/Requests.antt =====
-- What the providers log, retry and refuse (src/providers/core/base.provider.ts).
use native.Mathlib.Nat.{mul-le-mul_left, pow-le-pow_right}
use zk_api.Common.{
  ap, ◌∙◌, ℕ, ◌*◌, ◌^◌, ◌≤◌, ◌≡◌, refl, Bool, true, false, Option, none, some, [], ◌∷◌, arith,
  if◌then◌else◌, inl, inr, Bool-cases,
}
use zk_api.Common.Dict.{Dict, lookup}
use zk_api.Common.Eq.{text_eq, text_beq, text_beq_iff}
use zk_api.Common.Text.{Text, codes}
use zk_api.Providers.{sanitize_headers, is_sensitive, calculate_retry_delay}

-- A header that is logged: under a sensitive name without its value, and otherwise as it is.
abbrev pub logged : Bool → Option Text → Option Text
logged b none = none
logged true (some value) = some (codes "[REDACTED]")
logged false (some value) = some value

redacted :
    (b : Bool) (value : Text)
    → some (if b then codes "[REDACTED]" else value) ≡ logged b (some value)
redacted true value = refl
redacted false value = refl

-- What is logged of the headers has the names of the request's, in whatever case, and the values of those only
-- that are not sensitive.
pub lookup-sanitize_headers :
    (key : Text) (headers : Dict Text Text)
    → lookup key (sanitize_headers headers) ≡ logged (is_sensitive key) (lookup key headers)
unfolding sanitize_headers
lookup-sanitize_headers key [] = refl
lookup-sanitize_headers key ((k, value) ∷ headers) = elim (Bool-cases (text_beq k key)) [
  | inl same ↦ rw (same) (
      redacted (is_sensitive k) value
      ∙ ap (λ t. logged (is_sensitive t) (some value)) ((text_beq_iff k key).0 same))
  | inr other ↦ rw (other) (lookup-sanitize_headers key headers)
]

-- A later attempt waits no less, and no attempt waits more than ten seconds.
pub calculate_retry_delay_bounds :
    (a b base_delay : ℕ)
    → a ≤ b
    → (calculate_retry_delay a base_delay ≤ calculate_retry_delay b base_delay)
      × (calculate_retry_delay b base_delay ≤ 10000)
unfolding calculate_retry_delay
calculate_retry_delay_bounds a b base h =
    let grows : base * 2 ^ a ≤ base * 2 ^ b =
      mul-le-mul_left base (pow-le-pow_right (omega arith) h) in
    omega (arith, grows)
