-- ===== src/Verifier/Tests.antt =====
-- Instances of the verifier, with a snarkjs that accepts everything.
use zk_api.Common.{List, ◌+◌, ◌≡◌, refl, true, false, some, [], ◌∷◌, arith}
use zk_api.Common.Exec.{ok}
use zk_api.Common.Int.{pos}
use zk_api.Common.Text.{Text, codes}
use zk_api.Signal.{parse_field_element, trim, big_int_decimal, big_int_hex, to_string}
use zk_api.Verifier.{
  RequestPublicInputs, ProofData, proof, answered, VerifierEnv, ProofVerifier, is_well_formed,
  to_big_int, verify,
}
use zk_api.Verifier.Metrics.{Counts, verify-Counts, missing_key_counted_twice}
use zk_api.Verifier.Soundness.{IsVerified, verify_sound, to_big_int-parse_field_element}

abbrev triple : List Text
triple = codes "1" ∷ codes "2" ∷ codes "1" ∷ []

abbrev some_proof : ProofData
some_proof = record {
  protocol = "groth16";
  pi_a = triple;
  pi_b = triple ∷ triple ∷ [];
  pi_c = triple;
}

abbrev proof_text : Text
proof_text = codes "{\"pi_a\":[]}"

abbrev some_inputs : RequestPublicInputs
some_inputs = record {
  nullifier = codes "17";
  signal_y = codes "-5";
  accumulator_x = codes "0";
  accumulator_y = codes "1";
  merkle_root = codes "0xff";
  max_cost = 1000;
  signal_x = codes "12";
}

abbrev accepting : VerifierEnv
accepting = record {
  is_prod = true;
  snarkjs_available = true;
  parse_json = λ text. proof some_proof;
  is_known_root = λ root. answered true;
  server_key_x = codes "3";
  server_key_y = codes "4";
  groth16_verify = λ signals p. some true;
}

abbrev keyless : VerifierEnv
keyless = record accepting { is_prod = false; snarkjs_available = false }

abbrev idle_verifier : ProofVerifier
idle_verifier = record {
  verification_count = 0;
  successful_verifications = 0;
  failed_verifications = 0;
  verification = record { max = 8; active = 0 };
}

accepting-verify : (verify accepting proof_text some_inputs idle_verifier).0 ≡ ok true
unfolding verify to_big_int trim big_int_decimal big_int_hex to_string
accepting-verify = refl

verify_sound_example : IsVerified accepting proof_text some_inputs
verify_sound_example = verify_sound accepting proof_text some_inputs idle_verifier accepting-verify

verify-Counts_test : Counts idle_verifier (verify accepting proof_text some_inputs idle_verifier).1
verify-Counts_test = verify-Counts accepting refl proof_text some_inputs idle_verifier

some_proof-is_well_formed : is_well_formed some_proof ≡ true
unfolding is_well_formed
some_proof-is_well_formed = refl

missing_key_counted_twice_test :
    let v' = (verify keyless proof_text some_inputs idle_verifier).1 in
    (v'.verification_count ≡ 0 + 1) × (v'.failed_verifications ≡ 0 + 2)
missing_key_counted_twice_test =
    missing_key_counted_twice keyless some_proof proof_text some_inputs idle_verifier refl refl refl
      refl some_proof-is_well_formed refl (omega arith)

sixteen-parse : parse_field_element (codes " 0x10") ≡ some 16
unfolding parse_field_element
sixteen-parse = refl

to_big_int-parse_field_element_test : to_big_int (codes " 0x10") ≡ some (pos 16)
to_big_int-parse_field_element_test =
    to_big_int-parse_field_element (codes " 0x10") 16 sixteen-parse
