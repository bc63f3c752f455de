-- ===== src/Attestation/ReportData/Encoding.antt =====
-- What the report data determines, and the sizes of its parts (src/attestation/report-data.ts).
use zk_api.Common.{
  true_and_false, ℕ, ◌/◌, ◌%◌, ◌<◌, ◌≡◌, refl, sym, ap, ◌∙◌, ◌⊎◌, inl, inr, ◌≢◌, false, Option,
  none, some, [], ◌∷◌, ◌++◌, arith, ◌==◌, or_else, length, length-append, replicate, Bool-cases,
  ==_iff,
}
use zk_api.Common.Eq.{text_beq, text_beq_iff}
use zk_api.Attestation.{Bytes, uint32_be}
use zk_api.Attestation.ReportData.{
  ReportDataInputs, nonce_length, report_data_label, length_prefixed, hashed, committed,
  build_report_data,
}

bytes_inj :
    (n m : ℕ)
    → n < 4294967296
    → m < 4294967296
    → n / 16777216 % 256 ≡ m / 16777216 % 256
    → n / 65536 % 256 ≡ m / 65536 % 256
    → n / 256 % 256 ≡ m / 256 % 256
    → n % 256 ≡ m % 256
    → n ≡ m
bytes_inj n m h k a b c d = omega arith

-- A prefix of four bytes gives the length back.
uint32_be_inj :
    (n m : ℕ) (p q : Bytes)
    → n < 4294967296
    → m < 4294967296
    → uint32_be n ++ p ≡ uint32_be m ++ q
    → (n ≡ m) × (p ≡ q)
uint32_be_inj n m p q h k e = (
  bytes_inj n m h k (ground (arith, e)) (ground (arith, e)) (ground (arith, e)) (ground (arith, e)),
  ground (arith, e),
)

append_inj_left :
    (xs ys p q : Bytes) → length xs ≡ length ys → xs ++ p ≡ ys ++ q → (xs ≡ ys) × (p ≡ q)
append_inj_left [] [] p q h e = (refl, e)
append_inj_left [] (y ∷ ys) p q h e = ground (arith, h)
append_inj_left (x ∷ xs) [] p q h e = ground (arith, h)
append_inj_left (x ∷ xs) (y ∷ ys) p q h e =
    let i = append_inj_left xs ys p q (ground (arith, h)) (ground (arith, e)) in
    ground (arith, i, e)

length_prefixed_inj :
    (a b p q : Bytes)
    → length a < 4294967296
    → length b < 4294967296
    → length_prefixed a ++ p ≡ length_prefixed b ++ q
    → (a ≡ b) × (p ≡ q)
unfolding length_prefixed
length_prefixed_inj a b p q h k e =
    let (sizes, rest) = uint32_be_inj (length a) (length b) (a ++ p) (b ++ q) h k e in
    append_inj_left a b p q sizes rest

length_prefixed_inj_last :
    (a b : Bytes)
    → length a < 4294967296
    → length b < 4294967296
    → length_prefixed a ≡ length_prefixed b
    → a ≡ b
length_prefixed_inj_last a b h k e = (length_prefixed_inj a b [] [] h k (ap (λ x. x ++ []) e)).0

-- Terms whose lengths the prefixes can hold.
pub record IsSized (i : ReportDataInputs) : Type 0 where
  pub mlkem_sized : length i.mlkem_public_key < 4294967296
  pub identity_sized : length (or_else i.identity_public_key []) < 4294967296
  pub refund_signer_sized : length (or_else i.refund_signer_public_key []) < 4294967296

-- The same keys and certificate, an absent one being an empty one.
pub record SameTerms (sha256 : Bytes → Bytes) (i j : ReportDataInputs) : Type 0 where
  pub same_mlkem : i.mlkem_public_key ≡ j.mlkem_public_key
  pub same_identity : or_else i.identity_public_key [] ≡ or_else j.identity_public_key []
  pub same_refund_signer :
      or_else i.refund_signer_public_key [] ≡ or_else j.refund_signer_public_key []
  pub same_certificate : hashed sha256 i.tls_certificate_der ≡ hashed sha256 j.tls_certificate_der

module _ (sha256 : Bytes → Bytes) (size : (b : Bytes) → length (sha256 b) ≡ 32) where
  hashed_sized : (o : Option Bytes) → length (hashed sha256 o) < 4294967296
  hashed_sized none = omega arith
  hashed_sized (some c) = omega (arith, size c)

  -- What follows the refund signer, the identity, and the key of ML-KEM.
  abbrev after_identity : ReportDataInputs → Bytes
  after_identity i =
      length_prefixed (or_else i.refund_signer_public_key [])
      ++ length_prefixed (hashed sha256 i.tls_certificate_der)

  abbrev after_mlkem : ReportDataInputs → Bytes
  after_mlkem i = length_prefixed (or_else i.identity_public_key []) ++ after_identity i

  abbrev after_label : ReportDataInputs → Bytes
  after_label i = length_prefixed i.mlkem_public_key ++ after_mlkem i

  committed_eq :
      (i : ReportDataInputs)
      → committed sha256 i ≡ length_prefixed report_data_label ++ after_label i
  unfolding committed
  committed_eq i = refl

  committed_inj :
      (i j : ReportDataInputs)
      → IsSized i
      → IsSized j
      → committed sha256 i ≡ committed sha256 j
      → SameTerms sha256 i j
  committed_inj i j h k e =
      let (l, e1) =
        length_prefixed_inj report_data_label report_data_label (after_label i) (after_label j)
          (omega arith) (omega arith) (sym (committed_eq i) ∙ e ∙ committed_eq j) in
      let (a, e2) =
        length_prefixed_inj i.mlkem_public_key j.mlkem_public_key (after_mlkem i) (after_mlkem j)
          h.mlkem_sized k.mlkem_sized e1 in
      let (b, e3) =
        length_prefixed_inj (or_else i.identity_public_key []) (or_else j.identity_public_key [])
          (after_identity i) (after_identity j) h.identity_sized k.identity_sized e2 in
      let (c, e4) =
        length_prefixed_inj (or_else i.refund_signer_public_key [])
          (or_else j.refund_signer_public_key [])
          (length_prefixed (hashed sha256 i.tls_certificate_der))
          (length_prefixed (hashed sha256 j.tls_certificate_der)) h.refund_signer_sized
          k.refund_signer_sized e3 in
      record {
        same_mlkem = a;
        same_identity = b;
        same_refund_signer = c;
        same_certificate =
            length_prefixed_inj_last (hashed sha256 i.tls_certificate_der)
              (hashed sha256 j.tls_certificate_der) (hashed_sized i.tls_certificate_der)
              (hashed_sized j.tls_certificate_der) e4;
      }

  abbrev pub nonce_part : Option Bytes → Bytes
  nonce_part none = replicate nonce_length 0
  nonce_part (some nonce) = nonce

  built :
      (i : ReportDataInputs) (n : Option Bytes) (r : Bytes)
      → build_report_data sha256 i n ≡ some r
      → (r ≡ sha256 (committed sha256 i) ++ nonce_part n) × (length (nonce_part n) ≡ 32)
  unfolding build_report_data
  built i none r h = ground (arith, h)
  built i (some nonce) r h = ground (arith, h)

  -- One report data commits to one ML-KEM key, identity, refund signer, certificate hash and nonce, where a
  -- missing term counts as an empty one and a missing nonce as zeros, unless SHA-256 has a collision, which
  -- is given then.
  pub report_data_determines :
      (i j : ReportDataInputs) (m n : Option Bytes) (r : Bytes)
      → IsSized i
      → IsSized j
      → build_report_data sha256 i m ≡ some r
      → build_report_data sha256 j n ≡ some r
      → (SameTerms sha256 i j × (nonce_part m ≡ nonce_part n))
        ⊎ ((a : Bytes) × (b : Bytes) × (a ≢ b) × (sha256 a ≡ sha256 b))
  report_data_determines i j m n r h k e f =
      let (e', em) = built i m r e in
      let (f', fn) = built j n r f in
      let (hashes, nonces) =
        append_inj_left (sha256 (committed sha256 i)) (sha256 (committed sha256 j)) (nonce_part m)
          (nonce_part n) (size (committed sha256 i) ∙ sym (size (committed sha256 j)))
          (sym e' ∙ f') in
      elim (Bool-cases (text_beq (committed sha256 i) (committed sha256 j))) [
        | inl same ↦ inl (committed_inj i j h k ((text_beq_iff _ _).0 same), nonces)
        | inr differ ↦ inr (
          committed sha256 i,
          committed sha256 j,
          (λ same. true_and_false _ ((text_beq_iff _ _).1 same) differ),
          hashes,
        )
      ]

  -- The report data has 64 bytes, and is refused exactly where a nonce is given that has not 32.
  pub length-build_report_data :
      (i : ReportDataInputs) (n : Option Bytes)
      → ((r : Bytes) × (build_report_data sha256 i n ≡ some r) × (length r ≡ 64))
        ⊎ ((build_report_data sha256 i n ≡ none) × ((length (nonce_part n) == 32) ≡ false))
  unfolding build_report_data
  length-build_report_data i none = inl (
    sha256 (committed sha256 i) ++ replicate nonce_length 0,
    refl,
    length-append (sha256 (committed sha256 i)) _ ∙ omega (arith, size (committed sha256 i)),
  )
  length-build_report_data i (some nonce) = elim (Bool-cases (length nonce == 32)) [
    | inr other ↦ inr (ground (arith, other), other)
    | inl right ↦ inl (
      sha256 (committed sha256 i) ++ nonce,
      ground (arith, right),
      length-append (sha256 (committed sha256 i)) nonce
          ∙ omega (arith, size (committed sha256 i), (==_iff (length nonce) 32).0 right),
    )
  ]
