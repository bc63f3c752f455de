-- ===== src/Attestation/ReportData/Tests.antt =====
-- Instances with a hash of constant value.
use zk_api.Common.{
  ℕ, ◌≡◌, ◌≢◌, refl, ◌⊎◌, false, none, some, [], ◌∷◌, ◌++◌, arith, length, length-replicate,
  replicate, ◌==◌,
}
use zk_api.Attestation.{Bytes}
use zk_api.Attestation.ReportData.{ReportDataInputs, build_report_data}
use zk_api.Attestation.ReportData.Encoding.{
  IsSized, SameTerms, nonce_part, report_data_determines, length-build_report_data,
}

abbrev hash : Bytes → Bytes
hash b = replicate 32 7

hash-length : (b : Bytes) → length (hash b) ≡ 32
hash-length b = length-replicate {A = ℕ} 32 7

abbrev inputs : ReportDataInputs
inputs = record {
  mlkem_public_key = 1 ∷ 2 ∷ [];
  identity_public_key = some (3 ∷ []);
  refund_signer_public_key = none;
  tls_certificate_der = some (4 ∷ []);
}

abbrev others : ReportDataInputs
others = record inputs { identity_public_key = none }

abbrev report : Bytes
report = replicate 32 7 ++ replicate 32 0

inputs_report : build_report_data hash inputs none ≡ some report
unfolding build_report_data
inputs_report = refl

others-report : build_report_data hash others none ≡ some report
unfolding build_report_data
others-report = refl

inputs-IsSized : IsSized inputs
inputs-IsSized = omega arith

others-IsSized : IsSized others
others-IsSized = omega arith

report_data_determines_test :
    (SameTerms hash inputs others
      × (nonce_part hash hash-length none ≡ nonce_part hash hash-length none))
    ⊎ ((a : Bytes) × (b : Bytes) × (a ≢ b) × (hash a ≡ hash b))
report_data_determines_test =
    report_data_determines hash hash-length inputs others none none report inputs-IsSized
      others-IsSized inputs_report others-report

length-build_report_data_test :
    ((r : Bytes) × (build_report_data hash inputs (some (5 ∷ [])) ≡ some r) × (length r ≡ 64))
    ⊎ ((build_report_data hash inputs (some (5 ∷ [])) ≡ none)
        × ((length (nonce_part hash hash-length (some (5 ∷ []))) == 32) ≡ false))
length-build_report_data_test = length-build_report_data hash hash-length inputs (some (5 ∷ []))
