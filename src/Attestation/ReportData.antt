-- ===== src/Attestation/ReportData.antt =====
-- The report data that a quote commits to (src/attestation/report-data.ts). SHA-256 is a parameter.
mod Tests
pub mod Encoding
use zk_api.Common.{
  ℕ, ◌-◌, Bool, true, false, ◌&&◌, ◌||◌, not, Option, none, some, List, [], ◌∷◌, ◌++◌, leb, ◌==◌,
  if◌then◌else◌, or_else, length, replicate, all,
}
use zk_api.Common.Exec.{Result, ok, err}
use zk_api.Common.Text.{Text, codes}
use zk_api.Attestation.{Bytes, from_hex, strip_0x, uint32_be}
use zk_api.Signal.{is_nil, is_digit}

abbrev pub report_data_label : Bytes
report_data_label = codes "longjing-report-v1"

abbrev pub nonce_length : ℕ
nonce_length = 32

pub record ReportDataInputs : Type 0 where
  pub mlkem_public_key : Bytes
  pub identity_public_key : Option Bytes
  pub refund_signer_public_key : Option Bytes
  pub tls_certificate_der : Option Bytes

-- `lengthPrefixed`
unfoldable pub length_prefixed : Bytes → Bytes
length_prefixed bytes = uint32_be (length bytes) ++ bytes

abbrev pub hashed : (Bytes → Bytes) → Option Bytes → Bytes
hashed sha256 none = []
hashed sha256 (some certificate) = sha256 certificate

-- What the commitment is the hash of.
unfoldable pub committed : (Bytes → Bytes) → ReportDataInputs → Bytes
unfolding length_prefixed
committed sha256 inputs =
    length_prefixed report_data_label
    ++ (length_prefixed inputs.mlkem_public_key
        ++ (length_prefixed (or_else inputs.identity_public_key [])
            ++ (length_prefixed (or_else inputs.refund_signer_public_key [])
                ++ length_prefixed (hashed sha256 inputs.tls_certificate_der))))

-- `buildReportData`; `none` is its exception.
unfoldable pub build_report_data : (Bytes → Bytes) → ReportDataInputs → Option Bytes → Option Bytes
unfolding committed
build_report_data sha256 inputs none =
    some (sha256 (committed sha256 inputs) ++ replicate nonce_length 0)
build_report_data sha256 inputs (some nonce) =
    if length nonce == nonce_length then some (sha256 (committed sha256 inputs) ++ nonce) else none

-- `[0-9a-fA-F]`
abbrev pub is_hex : ℕ → Bool
is_hex c = is_digit c || leb b'a' c && leb c b'f' || leb b'A' c && leb c b'F'

-- `coordinate`; `none` is its exception.
unfoldable pub coordinate : Text → Option Bytes
unfolding from_hex strip_0x
coordinate value =
    let hex = strip_0x value in
    if not (is_nil hex) && leb (length hex) 64 && all is_hex hex
    then some (from_hex (replicate (64 - length hex) b'0' ++ hex))
    else none

-- `encodeRefundSignerPublicKey`
unfoldable pub encode_refund_signer_public_key : Text → Text → Option Bytes
unfolding coordinate
encode_refund_signer_public_key x y = elim (coordinate x) [
  | none ↦ none
  | some a ↦ elim (coordinate y) [ none ↦ none | some b ↦ some (a ++ b) ]
]

pub data NonceError : Type 0 where
  bad_nonce : NonceError

-- `parseNonce`
unfoldable pub parse_nonce : Option Text → Result NonceError (Option Bytes)
unfolding from_hex strip_0x
parse_nonce none = ok none
parse_nonce (some []) = ok none
parse_nonce (some (c ∷ s)) =
    let hex = strip_0x (c ∷ s) in
    if length hex == 64 && all is_hex hex then ok (some (from_hex hex)) else err bad_nonce
