-- ===== src/Attestation/Binding/Soundness.antt =====
-- What an attestation that passes every check binds (`verifyKeyBinding` in src/attestation/key-binding.ts).
use zk_api.Common.{
  append_empty, ◌≡◌, refl, sym, ap, ◌∙◌, ◌⊎◌, inl, inr, ◌≢◌, Bool, true, false, Option, none, some,
  List, [], ◌++◌, map, replicate, arith, length, Option-cases,
}
use zk_api.Common.Eq.{◌===◌, text_eq, text_beq_iff}
use zk_api.Common.Text.{Text, codes}
use zk_api.Config.{to_lower}
use zk_api.Attestation.{Bytes, to_hex, from_hex, strip_0x}
use zk_api.Attestation.Binding.{
  KeyBindingEvidence, BoundKeys, KeyManifest, Libraries, BindingFailure, fail_unless, map_option,
  certificate_of, identity_of, inputs_of, certificate_failures, log_failures, report_failures,
  is_tdx, quote_failures, signature_failures, verify_manifest, failures_of, verify_key_binding,
  tdx_quote_report_data, quote_report_data_differs, report_data_differs, commitment_failures,
  certificate_differs, not_signed_by_identity, Coordinates, manifest_mlkem, manifest_refund_signer,
  manifest_certificate, sha256_hex, certificate_hash, same_refund_signer,
}
use zk_api.Attestation.ReportData.{ReportDataInputs, build_report_data}
use zk_api.Attestation.ReportData.Encoding.{IsSized, SameTerms, nonce_part, report_data_determines}

fail_unless_none : (b : Bool) (f : BindingFailure) → fail_unless b f ≡ [] → b ≡ true
fail_unless_none true f h = refl
fail_unless_none false f h = ground arith

mapped_some :
    {A : Type 0} (f : A → List BindingFailure) (o : Option A)
    → map_option f o ≡ some []
    → (a : A) × (o ≡ some a) × (f a ≡ [])
mapped_some f none h = ground arith
mapped_some f (some a) h = (a, refl, ground (arith, h))

module _ (lib : Libraries) where
  -- The certificate of the session, where one is given, is the one bound.
  abbrev pub SessionBound : BoundKeys → Option Bytes → Type 0
  SessionBound keys none = Unit
  SessionBound keys (some served) = certificate_of lib keys ≡ some served

  -- What a manifest says of the certificate: its hash, or 32 zero bytes where there is none.
  abbrev pub HashesCertificate : Text → Option Bytes → Type 0
  HashesCertificate hash none = hash ≡ codes "0x" ++ replicate 64 b'0'
  HashesCertificate hash (some certificate) = hash ≡ codes "0x" ++ to_hex (lib.sha256 certificate)

  -- A manifest is of these keys, and is signed by the identity key.
  pub record IsManifestOf (keys : BoundKeys) (m : KeyManifest) : Type 0 where
    pub same_mlkem :
        map to_lower m.mlkem_public_key_hash
        ≡ codes "0x" ++ to_hex (lib.sha256 (lib.from_base64 keys.mlkem_public_key))
    pub signer : Coordinates
    pub has_signer : keys.refund_signer_public_key ≡ some signer
    pub same_x : lib.number_of m.refund_signer.x ≡ lib.number_of signer.x
    pub same_y : lib.number_of m.refund_signer.y ≡ lib.number_of signer.y
    pub same_certificate :
        HashesCertificate (map to_lower m.tls_certificate_hash) (certificate_of lib keys)
    pub identity : Bytes
    pub has_identity : identity_of lib keys ≡ some identity
    pub signed : lib.signer_of m ≡ some (lib.address_of identity)

  abbrev pub ManifestBound : BoundKeys → Option KeyManifest → Type 0
  ManifestBound keys none = Unit
  ManifestBound keys (some m) = IsManifestOf keys m

  certificate_bound :
      (keys : BoundKeys) (served : Option Bytes)
      → certificate_failures lib keys served ≡ []
      → SessionBound keys served
  unfolding certificate_failures
  certificate_bound keys none h = tt
  certificate_bound keys (some served) h = elim (Option-cases (certificate_of lib keys)) [
    | inl e ↦ ground (arith, h, e)
    | inr (bound, e) ↦
        e
        ∙ ap some (
            sym (
              (text_beq_iff served bound).0
                (fail_unless_none (served === bound) certificate_differs (ground (arith, h, e)))))
  ]

  certificate_hashed :
      (hash : Text) (o : Option Bytes)
      → (hash === certificate_hash lib o) ≡ true
      → HashesCertificate hash o
  certificate_hashed hash none h = (text_beq_iff hash _).0 h
  certificate_hashed hash (some certificate) h = (text_beq_iff hash _).0 h

  same_signer :
      (m : KeyManifest) (o : Option Coordinates)
      → same_refund_signer lib m o ≡ true
      → (c : Coordinates) × (o ≡ some c)
        × (lib.number_of m.refund_signer.x ≡ lib.number_of c.x)
        × (lib.number_of m.refund_signer.y ≡ lib.number_of c.y)
  same_signer m none h = ground arith
  same_signer m (some c) h = (c, refl, ground arith, ground arith)

  manifest_signed :
      (keys : BoundKeys) (m : KeyManifest)
      → signature_failures lib m (identity_of lib keys) ≡ []
      → (identity : Bytes) × (identity_of lib keys ≡ some identity)
        × (lib.signer_of m ≡ some (lib.address_of identity))
  manifest_signed keys m signed = elim (Option-cases (identity_of lib keys)) [
    | inl e ↦ ground (arith, signed, e)
    | inr (identity, e) ↦ elim (Option-cases (lib.signer_of m)) [
      | inl e' ↦ ground (arith, signed, e, e')
      | inr (signer, e') ↦ (
        identity,
        e,
        e'
            ∙ ap some (
                (text_beq_iff signer (lib.address_of identity)).0 (
                  fail_unless_none (signer === lib.address_of identity) not_signed_by_identity
                    (ground (arith, signed, e, e')))),
      )
    ]
  ]

  manifest_bound :
      (keys : BoundKeys) (m : Option KeyManifest)
      → verify_manifest lib keys m ≡ []
      → ManifestBound keys m
  unfolding verify_manifest commitment_failures
  manifest_bound keys none h = tt
  manifest_bound keys (some m) h =
      let (committed, signed) =
        append_empty (commitment_failures lib keys m)
          (signature_failures lib m (identity_of lib keys)) h in
      let mlkem =
        map to_lower m.mlkem_public_key_hash
        === sha256_hex lib (lib.from_base64 keys.mlkem_public_key) in
      let signer = same_refund_signer lib m keys.refund_signer_public_key in
      let certificate =
        map to_lower m.tls_certificate_hash === certificate_hash lib (certificate_of lib keys) in
      let (ab, c) =
        append_empty (fail_unless mlkem manifest_mlkem ++ fail_unless signer manifest_refund_signer)
          (fail_unless certificate manifest_certificate) committed in
      let (a, b) =
        append_empty (fail_unless mlkem manifest_mlkem) (fail_unless signer manifest_refund_signer)
          ab in
      let (coordinates, has_signer, x, y) =
        same_signer m keys.refund_signer_public_key
          (fail_unless_none signer manifest_refund_signer b) in
      let (identity, has_identity, signature) = manifest_signed keys m signed in
      record {
        same_mlkem = (text_beq_iff _ _).0 (fail_unless_none mlkem manifest_mlkem a);
        signer = coordinates;
        has_signer = has_signer;
        same_x = x;
        same_y = y;
        same_certificate =
            certificate_hashed _ (certificate_of lib keys)
              (fail_unless_none certificate manifest_certificate c);
        identity = identity;
        has_identity = has_identity;
        signed = signature;
      }

  report_passed :
      (expected : Bytes) (o : Option Bytes) (fs : List BindingFailure)
      → report_failures lib expected o ++ fs ≡ []
      → o ≡ some expected
  report_passed expected none fs h = ground arith
  report_passed expected (some d) fs h =
      let (passed, rest) =
        append_empty (fail_unless (d === expected) quote_report_data_differs) fs h in
      ap some (
        (text_beq_iff d expected).0
          (fail_unless_none (d === expected) quote_report_data_differs passed))

  quote_bound :
      (evidence : KeyBindingEvidence) (expected : Bytes)
      → is_tdx lib evidence.platform ≡ true
      → quote_failures lib evidence expected ≡ some []
      → tdx_quote_report_data (lib.from_base64 evidence.quote) ≡ some expected
  unfolding quote_failures
  quote_bound evidence expected tdx h =
      let quoted = tdx_quote_report_data (lib.from_base64 evidence.quote) in
      let (fs, e, nothing) =
        mapped_some (λ fs. report_failures lib expected quoted ++ fs)
          (log_failures lib (lib.from_base64 evidence.quote) evidence.event_log)
          (sym (checked evidence expected tdx) ∙ h) in
      report_passed expected quoted fs nothing
    where
      checked :
          (evidence : KeyBindingEvidence) (expected : Bytes)
          → is_tdx lib evidence.platform ≡ true
          → quote_failures lib evidence expected
            ≡ map_option
                (λ fs.
                  report_failures lib expected
                    (tdx_quote_report_data (lib.from_base64 evidence.quote))
                  ++ fs)
                (log_failures lib (lib.from_base64 evidence.quote) evidence.event_log)
      checked evidence expected tdx = rw (tdx, quote_failures) refl

  -- The report data and what it was built from.
  pub record IsBound (evidence : KeyBindingEvidence) (nonce served : Option Bytes)
      (key_manifest : Option KeyManifest) : Type 0 where
    pub inputs : ReportDataInputs
    pub expected : Bytes
    pub inputs_built : inputs_of lib evidence.keys ≡ some inputs
    pub report_built : build_report_data lib.sha256 inputs nonce ≡ some expected
    pub report_returned : from_hex (strip_0x evidence.report_data) ≡ expected
    pub report_quoted : tdx_quote_report_data (lib.from_base64 evidence.quote) ≡ some expected
    pub session : SessionBound evidence.keys served
    pub manifest : ManifestBound evidence.keys key_manifest

  -- An attestation of a TDX platform that passes every check: its report data is built from the returned keys
  -- and the nonce, and stands in the evidence and in the quote; the session's certificate, where it is given, is
  -- the one bound; and the manifest, where it is given, states the returned ML-KEM key, refund signer and
  -- certificate, by hash or by number, and is signed by the identity key.
  pub verify_key_binding-IsBound :
      (evidence : KeyBindingEvidence) (nonce served : Option Bytes) (m : Option KeyManifest)
      → is_tdx lib evidence.platform ≡ true
      → verify_key_binding lib evidence nonce served m ≡ some []
      → IsBound evidence nonce served m
  unfolding verify_key_binding failures_of
  verify_key_binding-IsBound evidence nonce served m tdx h =
      elim (Option-cases (inputs_of lib evidence.keys)) [
        | inl e ↦ ground (arith, h, e)
        | inr (inputs, built) ↦ elim (Option-cases (build_report_data lib.sha256 inputs nonce)) [
          | inl e ↦ ground (arith, h, built, e)
          | inr (expected, report) ↦
              bound inputs built expected report (ground (arith, h, built, report))
        ]
      ]
    where
      bound :
          (inputs : ReportDataInputs)
          → inputs_of lib evidence.keys ≡ some inputs
          → (expected : Bytes) → build_report_data lib.sha256 inputs nonce ≡ some expected
          → failures_of lib evidence served m expected ≡ some []
          → IsBound evidence nonce served m
      bound inputs built expected report e =
          let returned = from_hex (strip_0x evidence.report_data) === expected in
          let (fs, quoted, nothing) =
            mapped_some
              (λ fs.
                fail_unless returned report_data_differs
                ++ (certificate_failures lib evidence.keys served
                    ++ (fs ++ verify_manifest lib evidence.keys m)))
              (quote_failures lib evidence expected) e in
          let (a, bcd) =
            append_empty (fail_unless returned report_data_differs)
              (certificate_failures lib evidence.keys served
                ++ (fs ++ verify_manifest lib evidence.keys m))
              nothing in
          let (b, cd) =
            append_empty (certificate_failures lib evidence.keys served)
              (fs ++ verify_manifest lib evidence.keys m) bcd in
          let (c, d) = append_empty fs (verify_manifest lib evidence.keys m) cd in
          record {
            inputs = inputs;
            expected = expected;
            inputs_built = built;
            report_built = report;
            report_returned =
                (text_beq_iff _ expected).0 (fail_unless_none returned report_data_differs a);
            report_quoted = quote_bound evidence expected tdx (quoted ∙ ap some c);
            session = certificate_bound evidence.keys served b;
            manifest = manifest_bound evidence.keys m d;
          }

  -- Two attestations that bind keys under one TDX quote bind the same keys, certificate hash and nonce, a
  -- missing one counting as an empty one, unless SHA-256 has a collision, which is given then.
  pub one_quote_binds_once :
      (size : (b : Bytes) → length (lib.sha256 b) ≡ 32) (e e' : KeyBindingEvidence)
      (n n' s s' : Option Bytes) (m m' : Option KeyManifest) (b : IsBound e n s m)
      (b' : IsBound e' n' s' m')
      → e.quote ≡ e'.quote
      → IsSized b.inputs
      → IsSized b'.inputs
      → (SameTerms lib.sha256 b.inputs b'.inputs
          × (nonce_part lib.sha256 size n ≡ nonce_part lib.sha256 size n'))
        ⊎ ((x : Bytes) × (y : Bytes) × (x ≢ y) × (lib.sha256 x ≡ lib.sha256 y))
  one_quote_binds_once size e e' n n' s s' m m' b b' same h h' =
      let quoted : some b'.expected ≡ some b.expected =
        sym b'.report_quoted
        ∙ ap (λ q. tdx_quote_report_data (lib.from_base64 q)) (sym same)
        ∙ b.report_quoted in
      report_data_determines lib.sha256 size b.inputs b'.inputs n n' b.expected h h' b.report_built
        (b'.report_built ∙ quoted)
