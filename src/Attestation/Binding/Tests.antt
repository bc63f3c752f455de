-- ===== src/Attestation/Binding/Tests.antt =====
-- Instances with a hash of constant value, and base64 as the identity.
use zk_api.Common.{
  ℕ, ◌≡◌, ◌≢◌, refl, ◌⊎◌, none, some, [], ◌∷◌, ◌++◌, arith, length, length-replicate, replicate,
}
use zk_api.Common.Text.{codes}
use zk_api.Attestation.{Bytes, to_hex, from_hex, strip_0x}
use zk_api.Attestation.Binding.{
  KeyBindingEvidence, BoundKeys, KeyManifest, Libraries, verify_key_binding, inputs_of, failures_of,
  quote_failures, log_failures, certificate_failures, tdx_quote_report_data, verify_manifest,
  commitment_failures,
}
use zk_api.Attestation.Binding.Soundness.{IsBound, verify_key_binding-IsBound, one_quote_binds_once}
use zk_api.Attestation.ReportData.{
  ReportDataInputs, build_report_data, encode_refund_signer_public_key, coordinate,
}
use zk_api.Attestation.ReportData.Encoding.{IsSized, SameTerms, nonce_part}

abbrev lib : Libraries
lib = record {
  sha256 = λ b. replicate 32 7;
  sha384 = λ b. replicate 48 1;
  utf8 = λ t. t;
  from_base64 = λ t. t;
  parse_events = λ t. none;
  number_of = λ t. length t;
  signer_of = λ m. some (codes "0x0a");
  address_of = λ k. codes "0x0a";
}

abbrev lib_size : (b : Bytes) → length (lib.sha256 b) ≡ 32
lib_size b = length-replicate {A = ℕ} 32 7

abbrev keys : BoundKeys
keys = record {
  mlkem_public_key = codes "ek";
  identity_public_key = some (codes "0x04");
  refund_signer_public_key = some (record { x = codes "0x1"; y = codes "0x2" });
  tls_certificate = none;
}

abbrev report : Bytes
report = replicate 32 7 ++ replicate 32 0

abbrev evidence : KeyBindingEvidence
evidence = record {
  platform = codes "phala";
  quote = replicate 568 0 ++ report;
  report_data = to_hex report;
  keys = keys;
  event_log = none;
}

abbrev manifest : KeyManifest
manifest = record {
  mlkem_public_key_hash = codes "0x" ++ to_hex (replicate 32 7);
  refund_signer = record { x = codes "0x1"; y = codes "0x2" };
  tls_certificate_hash = codes "0x" ++ replicate 64 b'0';
}

evidence_verified : verify_key_binding lib evidence none none (some manifest) ≡ some []
unfolding verify_key_binding inputs_of encode_refund_signer_public_key coordinate strip_0x from_hex
    build_report_data failures_of quote_failures log_failures certificate_failures
    tdx_quote_report_data verify_manifest commitment_failures to_hex
evidence_verified = refl

verify_key_binding-IsBound_example : IsBound lib evidence none none (some manifest)
verify_key_binding-IsBound_example =
    verify_key_binding-IsBound lib evidence none none (some manifest) refl evidence_verified

abbrev bound_inputs : ReportDataInputs
bound_inputs = record {
  mlkem_public_key = codes "ek";
  identity_public_key = some (4 ∷ []);
  refund_signer_public_key = some (replicate 31 0 ++ (1 ∷ replicate 31 0) ++ (2 ∷ []));
  tls_certificate_der = none;
}

keys_inputs : inputs_of lib keys ≡ some bound_inputs
unfolding inputs_of encode_refund_signer_public_key coordinate strip_0x from_hex
keys_inputs = refl

inputs_report : build_report_data lib.sha256 bound_inputs none ≡ some report
unfolding build_report_data
inputs_report = refl

report_returned : from_hex (strip_0x evidence.report_data) ≡ report
unfolding from_hex strip_0x to_hex
report_returned = refl

report_quoted : tdx_quote_report_data (lib.from_base64 evidence.quote) ≡ some report
unfolding tdx_quote_report_data
report_quoted = refl

abbrev bound : IsBound lib evidence none none none
bound = record {
  inputs = bound_inputs;
  expected = report;
  inputs_built = keys_inputs;
  report_built = inputs_report;
  report_returned = report_returned;
  report_quoted = report_quoted;
  session = tt;
  manifest = tt;
}

inputs-IsSized : IsSized bound_inputs
inputs-IsSized = omega arith

one_quote_binds_once_example :
    (SameTerms lib.sha256 bound.inputs bound.inputs
      × (nonce_part lib.sha256 lib_size none ≡ nonce_part lib.sha256 lib_size none))
    ⊎ ((x : Bytes) × (y : Bytes) × (x ≢ y) × (lib.sha256 x ≡ lib.sha256 y))
one_quote_binds_once_example =
    one_quote_binds_once lib lib_size evidence evidence none none none none none none bound bound
      refl inputs-IsSized inputs-IsSized
