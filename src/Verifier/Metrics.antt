-- ===== src/Verifier/Metrics.antt =====
-- The counters and the limiter of the verifier (verify, getMetrics).
use zk_api.Common.{
  ◌+◌, ◌≡◌, ◌<◌, refl, true, false, not, ◌&&◌, Option, none, some, List, arith, Bool-cases, inl,
  inr, ltb, length,
}
use zk_api.Common.Int.{ℤ}
use zk_api.Common.Text.{Text}
use zk_api.Exceptions.{Exception}
use zk_api.Limiter.{run_task}
use zk_api.Verifier.{
  verification_slot, VerifierEnv, ProofVerifier, ProofData, RequestPublicInputs, Parsed, proof,
  RootAnswer, answered, unreachable, verify, verify_parsed, verify_against, verify_circuit, judge,
  is_well_formed, to_big_ints, signals_of, accepted, to_snarkjs,
}

-- The change from `v` to `v'`: the limiter is as before, and as many verdicts as verifications were
-- counted.
pub record Counts (v v' : ProofVerifier) : Type 0 where
  pub same_limiter : v'.verification ≡ v.verification
  pub one_verdict_each :
      v'.successful_verifications + v'.failed_verifications + v.verification_count
      ≡ v.successful_verifications + v.failed_verifications + v'.verification_count

module _ (env : VerifierEnv) (present : env.snarkjs_available ≡ true) where
  judge-Counts :
      (p : ProofData) (o : Option (List ℤ)) (v : ProofVerifier)
      → Counts v (judge env p o (record v { verification_count = v.verification_count + 1 })).1
  unfolding judge
  judge-Counts p none v = record { same_limiter = refl; one_verdict_each = omega arith }
  judge-Counts p (some signals) v =
      elim (Bool-cases (accepted (env.groth16_verify signals (to_snarkjs p)))) [
        | inl good ↦ rw good (record { same_limiter = refl; one_verdict_each = omega arith })
        | inr bad ↦ rw bad (record { same_limiter = refl; one_verdict_each = omega arith })
      ]

  circuit-Counts :
      (p : ProofData) (inputs : RequestPublicInputs) (v : ProofVerifier)
      → Counts v (verify_circuit env p inputs v).1
  unfolding verify_circuit
  circuit-Counts p inputs v = rw present (judge-Counts p (to_big_ints (signals_of env inputs)) v)

  against-Counts :
      (p : ProofData) (inputs : RequestPublicInputs) (answer : RootAnswer) (v : ProofVerifier)
      → Counts v (verify_against env p inputs answer v).1
  unfolding verify_against
  against-Counts p inputs (answered true) v = circuit-Counts p inputs v
  against-Counts p inputs (answered false) v = ground arith
  against-Counts p inputs unreachable v = ground (arith, circuit-Counts p inputs v)

  run_task-Counts :
      (p : ProofData) (inputs : RequestPublicInputs) (answer : RootAnswer) (busy : Exception)
      (v : ProofVerifier)
      → Counts v (run_task verification_slot busy (verify_against env p inputs answer) v).1
  unfolding run_task
  run_task-Counts p inputs answer busy v = ground (
    arith,
    against-Counts p inputs answer
        (record v { verification = record v.verification { active = v.verification.active + 1 } }),
  )

  parsed-Counts :
      (parsed : Parsed) (inputs : RequestPublicInputs) (v : ProofVerifier)
      → Counts v (verify_parsed env parsed inputs v).1
  unfolding verify_parsed
  parsed-Counts Parsed.not_json inputs v = ground arith
  parsed-Counts Parsed.json_null inputs v = ground arith
  parsed-Counts (proof p) inputs v = elim (Bool-cases (is_well_formed p)) [
    | inl fine ↦ rw fine (run_task-Counts p inputs (env.is_known_root inputs.merkle_root) _ v)
    | inr bad ↦ rw bad (ground arith)
  ]

  -- With the verification key loaded, every call, whether it returns or throws, gives its place in
  -- the limiter back and counts as many verdicts as verifications.
  pub verify-Counts :
      (text : Text) (inputs : RequestPublicInputs) (v : ProofVerifier)
      → Counts v (verify env text inputs v).1
  unfolding verify
  verify-Counts text inputs v = elim (Bool-cases (env.is_prod && not env.snarkjs_available)) [
    | inl refused ↦ ground arith
    | inr usable ↦ elim (Bool-cases (ltb (length text) 10)) [
      | inl short ↦ rw (usable, short) (ground arith)
      | inr long ↦ rw (usable, long) (parsed-Counts (env.parse_json text) inputs v)
    ]
  ]

-- Outside production and without the verification key, a well-formed proof under a root that is not
-- known to be stale, with a free place in the limiter, is one verification and two failures.
pub missing_key_counted_twice :
    (env : VerifierEnv) (p : ProofData) (text : Text) (inputs : RequestPublicInputs)
    (v : ProofVerifier)
    → env.is_prod ≡ false
    → env.snarkjs_available ≡ false
    → ltb (length text) 10 ≡ false
    → env.parse_json text ≡ proof p
    → is_well_formed p ≡ true
    → env.is_known_root inputs.merkle_root ≡ answered true
    → v.verification.active < v.verification.max
    → let v' = (verify env text inputs v).1 in
      (v'.verification_count ≡ v.verification_count + 1)
      × (v'.failed_verifications ≡ v.failed_verifications + 2)
unfolding verify verify_parsed verify_against verify_circuit run_task
missing_key_counted_twice env p text inputs v local missing long parsed fine known room =
    rw (local, long, parsed, fine, known) (ground arith)
