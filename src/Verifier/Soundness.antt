-- ===== src/Verifier/Soundness.antt =====
-- What an accepted proof has passed (verify), and which number a text stands for on both sides.
use zk_api.Common.{
  ℕ, ◌≡◌, ◌⊎◌, refl, ap, sym, ◌∙◌, Bool, true, false, not, ◌&&◌, Option, none, some, List, [], ◌∷◌,
  arith, Bool-cases, Option-cases, inl, inr, ltb, ◌==◌, length,
}
use zk_api.Common.Int.{ℤ, pos}
use zk_api.Common.Eq.{string_eq}
use zk_api.Common.Exec.{ok}
use zk_api.Common.Text.{Text}
use zk_api.Exceptions.{Exception}
use zk_api.Limiter.{run_task, enter}
use zk_api.Signal.Canonical.{parse_trimmed_negative}
use zk_api.Signal.{
  parse_field_element, trim, after_0x, big_int_hex, big_int_decimal, parse_trimmed, to_string,
}
use zk_api.Verifier.{
  verification_slot, VerifierEnv, ProofVerifier, ProofData, RequestPublicInputs, Parsed, proof,
  RootAnswer, answered, unreachable, verify, verify_parsed, verify_against, verify_circuit, judge,
  to_big_int, to_big_int_trimmed, to_big_ints, to_snarkjs, signals_of, is_well_formed, accepted, at,
  row_at, positive,
}

-- What stands behind an acceptance.
pub record IsVerified (env : VerifierEnv) (text : Text) (inputs : RequestPublicInputs)
    : Type 0 where
  pub data_of : ProofData
  pub signals : List ℤ
  pub parsed : env.parse_json text ≡ proof data_of
  pub protocol : data_of.protocol ≡ "groth16"
  pub sizes :
      (length data_of.pi_a ≡ 3)
      × (length data_of.pi_b ≡ 2)
      × (length (row_at 0 data_of.pi_b) ≡ 3)
      × (length (row_at 1 data_of.pi_b) ≡ 3)
      × (length data_of.pi_c ≡ 3)
  pub artifacts : env.snarkjs_available ≡ true
  pub root :
      (env.is_known_root inputs.merkle_root ≡ answered true)
      ⊎ ((env.is_prod ≡ false) × (env.is_known_root inputs.merkle_root ≡ unreachable))
  pub converted :
      to_big_ints (
        inputs.nullifier
        ∷ inputs.signal_y
        ∷ inputs.accumulator_x
        ∷ inputs.accumulator_y
        ∷ inputs.merkle_root
        ∷ to_string inputs.max_cost
        ∷ inputs.signal_x
        ∷ env.server_key_x
        ∷ env.server_key_y
        ∷ [])
      ≡ some signals
  pub checked :
      env.groth16_verify signals (record {
        pi_a = at 0 data_of.pi_a ∷ at 1 data_of.pi_a ∷ [];
        pi_b =
            (at 1 (row_at 0 data_of.pi_b) ∷ at 0 (row_at 0 data_of.pi_b) ∷ [])
            ∷ (at 1 (row_at 1 data_of.pi_b) ∷ at 0 (row_at 1 data_of.pi_b) ∷ [])
            ∷ [];
        pi_c = at 0 data_of.pi_c ∷ at 1 data_of.pi_c ∷ [];
        protocol = "groth16";
      })
      ≡ some true

shape_of :
    (p : ProofData)
    → is_well_formed p ≡ true
    → (p.protocol ≡ "groth16")
      × (length p.pi_a ≡ 3)
      × (length p.pi_b ≡ 2)
      × (length (row_at 0 p.pi_b) ≡ 3)
      × (length (row_at 1 p.pi_b) ≡ 3)
      × (length p.pi_c ≡ 3)
unfolding is_well_formed
shape_of p h = ground (arith, string_eq.beq_iff p.protocol "groth16")

accepted_iff : (o : Option Bool) → accepted o ≡ true → o ≡ some true
accepted_iff (some true) h = refl
accepted_iff (some false) h = cc
accepted_iff none h = cc

module _ (env : VerifierEnv) where
  judge-true :
      (p : ProofData) (o : Option (List ℤ)) (v : ProofVerifier)
      → (judge env p o v).0 ≡ ok true
      → (signals : List ℤ) × (o ≡ some signals)
        × (env.groth16_verify signals (to_snarkjs p) ≡ some true)
  unfolding judge
  judge-true p none v h = cc
  judge-true p (some signals) v h =
      (signals, refl, accepted_iff (env.groth16_verify signals (to_snarkjs p)) (ground arith))

  circuit-true :
      (p : ProofData) (inputs : RequestPublicInputs) (v : ProofVerifier)
      → (verify_circuit env p inputs v).0 ≡ ok true
      → (env.snarkjs_available ≡ true)
        × ((signals : List ℤ) × (to_big_ints (signals_of env inputs) ≡ some signals)
            × (env.groth16_verify signals (to_snarkjs p) ≡ some true))
  unfolding verify_circuit
  circuit-true p inputs v h = elim (Bool-cases env.snarkjs_available) [
    | inl present ↦ (present, judge-true p _ _ (rw present at h))
    | inr missing ↦ ground arith
  ]

  against-true :
      (p : ProofData) (inputs : RequestPublicInputs) (answer : RootAnswer) (v : ProofVerifier)
      → (verify_against env p inputs answer v).0 ≡ ok true
      → ((answer ≡ answered true) ⊎ ((env.is_prod ≡ false) × (answer ≡ unreachable)))
        × ((v' : ProofVerifier) × ((verify_circuit env p inputs v').0 ≡ ok true))
  unfolding verify_against
  against-true p inputs (answered true) v h = (inl refl, (v, h))
  against-true p inputs (answered false) v h = cc
  against-true p inputs unreachable v h = elim (Bool-cases env.is_prod) [
    | inl prod ↦ ground arith
    | inr local ↦ (inr (local, refl), (v, rw local at h))
  ]

  run_task-true :
      (p : ProofData) (inputs : RequestPublicInputs) (answer : RootAnswer) (busy : Exception)
      (v : ProofVerifier)
      → (run_task verification_slot busy (verify_against env p inputs answer) v).0 ≡ ok true
      → (v' : ProofVerifier) × ((verify_against env p inputs answer v').0 ≡ ok true)
  unfolding run_task
  run_task-true p inputs answer busy v h = elim (Option-cases (enter v.verification)) [
    | inl full ↦ ground arith
    | inr (l, e) ↦ (record v { verification = l }, ground arith)
  ]

  parsed-true :
      (text : Text) (parsed : Parsed) (inputs : RequestPublicInputs) (v : ProofVerifier)
      → env.parse_json text ≡ parsed
      → (verify_parsed env parsed inputs v).0 ≡ ok true
      → IsVerified env text inputs
  unfolding verify_parsed to_snarkjs
  parsed-true text Parsed.not_json inputs v e h = cc
  parsed-true text Parsed.json_null inputs v e h = cc
  parsed-true text (proof p) inputs v e h = elim (Bool-cases (is_well_formed p)) [
    | inl fine ↦
        let (v1, h1) =
          run_task-true p inputs (env.is_known_root inputs.merkle_root) _ v (rw fine at h) in
        let (root, (v2, h2)) = against-true p inputs (env.is_known_root inputs.merkle_root) v1 h1 in
        let (present, (signals, converted, checked)) = circuit-true p inputs v2 h2 in
        let (protocol, a, b, b0, b1, c) = shape_of p fine in
        record {
          data_of = p;
          signals = signals;
          parsed = e;
          protocol = protocol;
          sizes = (a, b, b0, b1, c);
          artifacts = present;
          root = root;
          converted = converted;
          checked =
              ap (λ q. env.groth16_verify signals (record (to_snarkjs p) { protocol = q }))
                (sym protocol)
              ∙ checked;
        }
    | inr bad ↦ ground arith
  ]

  -- A proof is accepted only if it parses and has the shape of a Groth16 proof, the verification key
  -- is loaded, the contract answers that the root is recent (outside production also if the contract
  -- cannot be reached), and snarkjs accepts it for exactly the nine public signals of the request, of
  -- C_MAX and of this server's key, in the circuit's order.
  pub verify_sound :
      (text : Text) (inputs : RequestPublicInputs) (v : ProofVerifier)
      → (verify env text inputs v).0 ≡ ok true
      → IsVerified env text inputs
  unfolding verify
  verify_sound text inputs v h = elim (Bool-cases (env.is_prod && not env.snarkjs_available)) [
    | inl refused ↦ ground arith
    | inr usable ↦ elim (Bool-cases (ltb (length text) 10)) [
      | inl short ↦ ground arith
      | inr long ↦ parsed-true text (env.parse_json text) inputs v refl (rw (usable, long) at h)
    ]
  ]

positive-hex : (o : Option ℕ) (n : ℕ) → o ≡ some n → positive o ≡ some (pos n)
positive-hex o n e = rw e refl

agree_trimmed :
    (str : Text) (n : ℕ) → parse_trimmed str ≡ some n → to_big_int_trimmed str ≡ some (pos n)
unfolding parse_trimmed to_big_int_trimmed
agree_trimmed [] n h = let nothing : big_int_hex [] ≡ none = (unfold big_int_hex in refl) in cc
agree_trimmed (a ∷ s) n h = elim (Bool-cases (a == b'-')) [
  | inl minus ↦
      let e : a ≡ b'-' = ground arith in
      let nothing : parse_trimmed (a ∷ s) ≡ none = rw e (parse_trimmed_negative s) in cc
  | inr plain ↦ elim (Option-cases (after_0x (a ∷ s))) [
    | inl bare ↦
        ground
          (arith, positive-hex (big_int_decimal (a ∷ s)) n, positive-hex (big_int_hex (a ∷ s)) n)
    | inr (digits, e) ↦ ground (arith, positive-hex (big_int_hex digits) n)
  ]
]

-- A text that the request handler parses stands for the same number in the public signals: the
-- nullifier, the signal and the accumulator that a proof is checked against are those that are
-- recorded and signed.
pub to_big_int-parse_field_element :
    (s : Text) (n : ℕ) → parse_field_element s ≡ some n → to_big_int s ≡ some (pos n)
unfolding parse_field_element to_big_int
to_big_int-parse_field_element [] n h = cc
to_big_int-parse_field_element (c ∷ s) n h = agree_trimmed (trim (c ∷ s)) n h
