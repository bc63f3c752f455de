-- ===== src/Padding/RoundTrip.antt =====
-- Unpadding after padding (padResponse, unpadResponse).
use zk_api.Common.{
  ℕ, zero, suc, ◌-◌, ◌≡◌, ◌↔◌, refl, ap, ◌∙◌, [], ◌∷◌, ◌++◌, Bool, false, leb, ◌==◌, replicate, any,
  arith, Bool-cases, inl, inr, append-nil,
}
use zk_api.Common.Text.{Text}
use zk_api.Padding.{padding_marker, byte_length, get_size_class, pad_response, unpad_response}

-- Whether the content holds the marker itself.
abbrev pub has_marker : Text → Bool
has_marker s = any (λ c. c == padding_marker) s

unpad-markers : (n : ℕ) → unpad_response (replicate n padding_marker) ≡ []
unfolding unpad_response
unpad-markers zero = refl
unpad-markers (suc n) = refl

unpad-append_markers :
    (s : Text) (n : ℕ) → unpad_response (s ++ replicate n padding_marker) ≡ unpad_response s
unfolding unpad_response
unpad-append_markers [] n = unpad-markers n
unpad-append_markers (c ∷ s) n = ground (arith, unpad-append_markers s n)

unpad-pad : (content : Text) → unpad_response (pad_response content) ≡ unpad_response content
unfolding pad_response
unpad-pad content =
    elim (Bool-cases (leb (get_size_class (byte_length content)) (byte_length content))) [
      | inl full ↦
          rw full (ap unpad_response (append_none content) ∙ unpad-append_markers content 0)
      | inr short ↦ rw short (
          unpad-append_markers content (get_size_class (byte_length content) - byte_length content))
    ]
  where
    append_none : (s : Text) → s ≡ s ++ replicate 0 padding_marker
    append_none s = rw append-nil

unpad-eq : (s : Text) → (unpad_response s ≡ s) ↔ (has_marker s ≡ false)
unfolding unpad_response
unpad-eq [] = ground arith
unpad-eq (c ∷ s) = ground (arith, unpad-eq s)

-- Unpadding a padded response gives the content back exactly when the content holds no NUL
-- character, and in any case what unpadding that content without the padding gives.
pub unpad-pad_iff :
    (content : Text)
    → ((unpad_response (pad_response content) ≡ content) ↔ (has_marker content ≡ false))
      × (unpad_response (pad_response content) ≡ unpad_response content)
unpad-pad_iff content = (rw (unpad-pad content) (unpad-eq content), unpad-pad content)
