-- ===== src/Attestation/Binding.antt =====
-- The check that an attestation commits to the keys it returns (src/attestation/key-binding.ts, and
-- `tdxQuoteReportData` in src/attestation/platforms/phala.platform.ts). SHA-256, SHA-384, base64, JSON and
-- the recovery of a signer are parameters.
mod Tests
pub mod Soundness
use zk_api.Common.{
  ℕ, ◌+◌, Bool, true, false, not, ◌&&◌, ◌||◌, Option, none, some, List, [], ◌∷◌, ◌++◌, map, ltb,
  ◌==◌, if◌then◌else◌, or_else, length, take, drop, replicate,
}
use zk_api.Common.Eq.{◌===◌, text_eq}
use zk_api.Common.Text.{Text, codes}
use zk_api.Attestation.{Bytes, from_hex, to_hex, strip_0x}
use zk_api.Attestation.Quote.{TdxEvent, LogFailure, verify_event_log, parse_tdx_measurements}
use zk_api.Attestation.ReportData.{
  ReportDataInputs, build_report_data, encode_refund_signer_public_key,
}
use zk_api.Config.{to_lower}

abbrev pub tdx_report_data_offset : ℕ
tdx_report_data_offset = 48 + 520

abbrev pub tdx_report_data_length : ℕ
tdx_report_data_length = 64

-- `tdxQuoteReportData`; `none` is its exception.
unfoldable pub tdx_quote_report_data : Bytes → Option Bytes
tdx_quote_report_data quote =
    if ltb (length quote) (tdx_report_data_offset + tdx_report_data_length)
    then none
    else some (take tdx_report_data_length (drop tdx_report_data_offset quote))

-- The coordinates of a key, as texts.
pub record Coordinates : Type 0 where
  pub x : Text
  pub y : Text

pub record BoundKeys : Type 0 where
  pub mlkem_public_key : Text
  pub identity_public_key : Option Text
  pub refund_signer_public_key : Option Coordinates
  pub tls_certificate : Option Text

pub record KeyBindingEvidence : Type 0 where
  pub platform : Text
  pub quote : Text
  pub report_data : Text
  pub keys : BoundKeys
  pub event_log : Option Text

pub record KeyManifest : Type 0 where
  pub mlkem_public_key_hash : Text
  pub refund_signer : Coordinates
  pub tls_certificate_hash : Text

pub data BindingFailure : Type 0 where
  report_data_differs certificate_not_bound certificate_differs : BindingFailure
  quote_report_data_differs quote_too_short log_unreadable : BindingFailure
  log_failure : LogFailure → BindingFailure
  manifest_mlkem manifest_refund_signer manifest_certificate : BindingFailure
  no_identity_key not_signed_by_identity bad_signature : BindingFailure

-- What the libraries compute: `number_of` is `BigInt` of a coordinate, `signer_of` the address that signed the
-- manifest, `none` where the signature is invalid, and `address_of` the address of a public key.
pub record Libraries : Type 0 where
  pub sha256 : Bytes → Bytes
  pub sha384 : Bytes → Bytes
  pub utf8 : Text → Bytes
  pub from_base64 : Text → Bytes
  pub parse_events : Text → Option (List TdxEvent)
  pub number_of : Text → ℕ
  pub signer_of : KeyManifest → Option Text
  pub address_of : Bytes → Text

abbrev pub fail_unless : Bool → BindingFailure → List BindingFailure
fail_unless true f = []
fail_unless false f = f ∷ []

abbrev pub map_option {ℓ} : {A B : Type ℓ} → (A → B) → Option A → Option B
map_option f none = none
map_option f (some a) = some (f a)

-- A text that is empty counts as missing.
abbrev pub present : Option Text → Option Text
present none = none
present (some []) = none
present (some (c ∷ s)) = some (c ∷ s)

module _ (lib : Libraries) where
  abbrev pub certificate_of : BoundKeys → Option Bytes
  certificate_of keys = map_option lib.from_base64 (present keys.tls_certificate)

  abbrev pub identity_of : BoundKeys → Option Bytes
  identity_of keys = map_option (λ k. from_hex (strip_0x k)) (present keys.identity_public_key)

  abbrev pub inputs_with : BoundKeys → Option Bytes → ReportDataInputs
  inputs_with keys refund_signer = record {
    mlkem_public_key = lib.from_base64 keys.mlkem_public_key;
    identity_public_key = identity_of keys;
    refund_signer_public_key = refund_signer;
    tls_certificate_der = certificate_of keys;
  }

  -- The inputs of buildReportData; `none` where a coordinate is refused.
  unfoldable pub inputs_of : BoundKeys → Option ReportDataInputs
  unfolding encode_refund_signer_public_key
  inputs_of keys = elim keys.refund_signer_public_key [
    | none ↦ some (inputs_with keys none)
    | some c ↦ elim (encode_refund_signer_public_key c.x c.y) [
      | none ↦ none
      | some bytes ↦ some (inputs_with keys (some bytes))
    ]
  ]

  unfoldable pub certificate_failures : BoundKeys → Option Bytes → List BindingFailure
  certificate_failures keys none = []
  certificate_failures keys (some served) = elim (certificate_of keys) [
    | none ↦ certificate_not_bound ∷ []
    | some bound ↦ fail_unless (served === bound) certificate_differs
  ]

  -- The failures of the event log; `none` is the exception of parseTdxMeasurements.
  unfoldable pub log_failures : Bytes → Option Text → Option (List BindingFailure)
  unfolding verify_event_log parse_tdx_measurements
  log_failures quote none = some []
  log_failures quote (some log) = elim (lib.parse_events log) [
    | none ↦ elim (parse_tdx_measurements quote) [
      | none ↦ none
      | some m ↦ some (log_unreadable ∷ [])
    ]
    | some events ↦
        map_option (map (λ f. log_failure f)) (verify_event_log lib.sha384 lib.utf8 quote events)
  ]

  abbrev pub report_failures : Bytes → Option Bytes → List BindingFailure
  report_failures expected none = quote_too_short ∷ []
  report_failures expected (some data_of) =
      fail_unless (data_of === expected) quote_report_data_differs

  abbrev pub is_tdx : Text → Bool
  is_tdx platform = platform === codes "phala" || platform === codes "intel-tdx"

  unfoldable pub quote_failures : KeyBindingEvidence → Bytes → Option (List BindingFailure)
  unfolding tdx_quote_report_data log_failures
  quote_failures evidence expected =
      let quote = lib.from_base64 evidence.quote in
      if is_tdx evidence.platform
      then map_option (λ fs. report_failures expected (tdx_quote_report_data quote) ++ fs)
          (log_failures quote evidence.event_log)
      else some []

  -- `sha256Hex`
  abbrev pub sha256_hex : Bytes → Text
  sha256_hex bytes = codes "0x" ++ to_hex (lib.sha256 bytes)

  abbrev pub certificate_hash : Option Bytes → Text
  certificate_hash none = codes "0x" ++ replicate 64 b'0'
  certificate_hash (some certificate) = sha256_hex certificate

  abbrev pub same_refund_signer : KeyManifest → Option Coordinates → Bool
  same_refund_signer m none = false
  same_refund_signer m (some c) =
      lib.number_of m.refund_signer.x == lib.number_of c.x
      && lib.number_of m.refund_signer.y == lib.number_of c.y

  abbrev pub signature_failures : KeyManifest → Option Bytes → List BindingFailure
  signature_failures m none = no_identity_key ∷ []
  signature_failures m (some identity) = elim (lib.signer_of m) [
    | none ↦ bad_signature ∷ []
    | some signer ↦ fail_unless (signer === lib.address_of identity) not_signed_by_identity
  ]

  -- The checks of `verifyManifest` on what the manifest commits to.
  unfoldable pub commitment_failures : BoundKeys → KeyManifest → List BindingFailure
  unfolding to_hex
  commitment_failures keys m =
      fail_unless
        (map to_lower m.mlkem_public_key_hash
          === sha256_hex (lib.from_base64 keys.mlkem_public_key))
        manifest_mlkem
      ++ fail_unless (same_refund_signer m keys.refund_signer_public_key) manifest_refund_signer
      ++ fail_unless
          (map to_lower m.tls_certificate_hash === certificate_hash (certificate_of keys))
          manifest_certificate

  -- `verifyManifest`, where a manifest is given.
  unfoldable pub verify_manifest : BoundKeys → Option KeyManifest → List BindingFailure
  unfolding commitment_failures
  verify_manifest keys none = []
  verify_manifest keys (some m) =
      commitment_failures keys m ++ signature_failures m (identity_of keys)

  -- The failures in the order they are found, once the report data is built.
  unfoldable pub failures_of :
      KeyBindingEvidence → Option Bytes → Option KeyManifest → Bytes → Option (List BindingFailure)
  unfolding quote_failures certificate_failures verify_manifest from_hex strip_0x
  failures_of evidence served key_manifest expected =
      map_option
        (λ fs.
          fail_unless (from_hex (strip_0x evidence.report_data) === expected) report_data_differs
          ++ (certificate_failures evidence.keys served
              ++ (fs ++ verify_manifest evidence.keys key_manifest)))
        (quote_failures evidence expected)

  -- `verifyKeyBinding`; `none` is an exception.
  unfoldable pub verify_key_binding :
      KeyBindingEvidence
      → (nonce served_certificate : Option Bytes) → Option KeyManifest
      → Option (List BindingFailure)
  unfolding inputs_of build_report_data failures_of
  verify_key_binding evidence nonce served key_manifest = elim (inputs_of evidence.keys) [
    | none ↦ none
    | some inputs ↦ elim (build_report_data lib.sha256 inputs nonce) [
      | none ↦ none
      | some expected ↦ failures_of evidence served key_manifest expected
    ]
  ]
