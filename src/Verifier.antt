-- ===== src/Verifier.antt =====
-- Verification of request proofs (src/longjing/proof-verifier.service.ts, with the conversion of
-- src/longjing/snarkjs-proof.service.ts). `JSON.parse`, snarkjs and the chain are parameters.
mod Tests
pub mod Soundness
pub mod Metrics
use zk_api.Common.{
  ℕ, zero, suc, ◌+◌, ◌-◌, ◌*◌, ◌<◌, Bool, true, false, not, ◌&&◌, ◌||◌, Option, none, some, List,
  [], ◌∷◌, map, String, ltb, leb, ◌==◌, if◌then◌else◌, length, all,
}
use zk_api.Common.Int.{ℤ, pos, sub_ℕ}
use zk_api.Common.Eq.{◌===◌, string_eq}
use zk_api.Common.Exec.{Exec, Result, ok, err, pure, throw}
use zk_api.Common.Text.{Text}
use zk_api.Exceptions.{Exception, http, internal}
use zk_api.Limiter.{ConcurrencyLimiter, Slot, run_task}
use zk_api.Signal.{
  bn254_scalar_field, trim, is_nil, is_decimal, after_0x, big_int_hex, big_int_decimal, to_string,
}

pub record RequestPublicInputs : Type 0 where
  pub nullifier : Text
  pub signal_y : Text
  pub accumulator_x : Text
  pub accumulator_y : Text
  pub merkle_root : Text
  pub max_cost : ℕ
  pub signal_x : Text

-- The members that the code reads of a parsed proof. A member that is missing is the empty text or
-- list here: it fails the same test as one of the wrong length. So is a row of pi_b that is null, where the
-- source throws a TypeError: neither is accepted.
pub record ProofData : Type 0 where
  pub protocol : String
  pub pi_a : List Text
  pub pi_b : List (List Text)
  pub pi_c : List Text

pub data Parsed : Type 0 where
  not_json json_null : Parsed
  proof : ProofData → Parsed

pub data RootAnswer : Type 0 where
  answered : Bool → RootAnswer
  unreachable : RootAnswer

-- The circuit's affine proof, as snarkjs takes it.
pub record SnarkProof : Type 0 where
  pub pi_a : List Text
  pub pi_b : List (List Text)
  pub pi_c : List Text
  pub protocol : String

-- What the service asks of the rest of the world. `groth16_verify` is `none` where snarkjs throws.
pub record VerifierEnv : Type 0 where
  pub is_prod : Bool
  pub snarkjs_available : Bool
  pub parse_json : Text → Parsed
  pub is_known_root : Text → RootAnswer
  pub server_key_x : Text
  pub server_key_y : Text
  pub groth16_verify : List ℤ → SnarkProof → Option Bool

pub record ProofVerifier : Type 0 where
  pub verification_count : ℕ
  pub successful_verifications : ℕ
  pub failed_verifications : ℕ
  pub verification : ConcurrencyLimiter

abbrev pub verification_slot : Slot ProofVerifier
verification_slot = record {
  limiter = λ v. v.verification;
  set_limiter = λ l v. record v { verification = l };
}

-- The text after a leading minus sign.
abbrev pub after_minus : Text → Option Text
after_minus [] = none
after_minus (c ∷ s) = if c == b'-' then some s else none

abbrev pub positive : Option ℕ → Option ℤ
positive none = none
positive (some n) = some (pos n)

-- `FIELD_MODULUS + num`, where num is minus the number read; minus zero is zero.
abbrev pub negated : Option ℕ → Option ℤ
negated none = none
negated (some zero) = some (pos 0)
negated (some (suc n)) = some (sub_ℕ bn254_scalar_field (suc n))

-- `toBigInt` of a trimmed text that is not empty before trimming.
pub to_big_int_trimmed : Text → Option ℤ
to_big_int_trimmed str = elim (after_0x str) [
  | some digits ↦ positive (big_int_hex digits)
  | none ↦ elim (after_minus str) [
    | some digits ↦ if is_decimal digits then negated (big_int_decimal digits) else none
    | none ↦ if is_decimal str then positive (big_int_decimal str) else positive (big_int_hex str)
  ]
]

-- `toBigInt`; `none` is a SyntaxError of `BigInt`.
unfoldable pub to_big_int : Text → Option ℤ
unfolding to_big_int_trimmed
to_big_int [] = some (pos 0)
to_big_int (c ∷ s) = to_big_int_trimmed (trim (c ∷ s))

abbrev pub consed : Option ℤ → Option (List ℤ) → Option (List ℤ)
consed (some n) (some ns) = some (n ∷ ns)
consed _ _ = none

-- `signals.map(toBigInt)`
pub to_big_ints : List Text → Option (List ℤ)
unfolding to_big_int
to_big_ints [] = some []
to_big_ints (s ∷ ss) = consed (to_big_int s) (to_big_ints ss)

abbrev pub at : ℕ → List Text → Text
at i [] = []
at zero (x ∷ xs) = x
at (suc i) (x ∷ xs) = at i xs

abbrev pub row_at : ℕ → List (List Text) → List Text
row_at i [] = []
row_at zero (x ∷ xs) = x
row_at (suc i) (x ∷ xs) = row_at i xs

-- The conversion in `verifyProof`: affine coordinates, the pairs of pi_b swapped.
unfoldable pub to_snarkjs : ProofData → SnarkProof
to_snarkjs p = record {
  pi_a = at 0 p.pi_a ∷ at 1 p.pi_a ∷ [];
  pi_b =
      (at 1 (row_at 0 p.pi_b) ∷ at 0 (row_at 0 p.pi_b) ∷ [])
      ∷ (at 1 (row_at 1 p.pi_b) ∷ at 0 (row_at 1 p.pi_b) ∷ [])
      ∷ [];
  pi_c = at 0 p.pi_c ∷ at 1 p.pi_c ∷ [];
  protocol = p.protocol;
}

-- The structure test of `verify`; `protocol !== 'groth16'` covers a missing protocol.
unfoldable pub is_well_formed : ProofData → Bool
is_well_formed p =
    p.protocol === "groth16"
    && length p.pi_a == 3
    && length p.pi_b == 2
    && length (row_at 0 p.pi_b) == 3
    && length (row_at 1 p.pi_b) == 3
    && length p.pi_c == 3

abbrev pub accepted : Option Bool → Bool
accepted (some true) = true
accepted _ = false

module _ (env : VerifierEnv) where
  -- The order of the circuit: outputs first, then inputs.
  abbrev pub signals_of : RequestPublicInputs → List Text
  signals_of inputs =
      inputs.nullifier
      ∷ inputs.signal_y
      ∷ inputs.accumulator_x
      ∷ inputs.accumulator_y
      ∷ inputs.merkle_root
      ∷ to_string inputs.max_cost
      ∷ inputs.signal_x
      ∷ env.server_key_x
      ∷ env.server_key_y
      ∷ []

  -- The end of the `try`, once the texts have been converted or have failed to be.
  pub judge : ProofData → Option (List ℤ) → Exec Exception ProofVerifier Bool
  judge p none v = (
    err (internal "Failed to convert public inputs to field elements"),
    record v { failed_verifications = v.failed_verifications + 1 },
  )
  judge p (some signals) v =
      if accepted (env.groth16_verify signals (to_snarkjs p))
      then (ok true, record v { successful_verifications = v.successful_verifications + 1 })
      else (ok false, record v { failed_verifications = v.failed_verifications + 1 })

  -- Step 3. A missing verification key is counted as a failure twice: where it is found, and in the
  -- `catch` round it.
  pub verify_circuit : ProofData → RequestPublicInputs → Exec Exception ProofVerifier Bool
  unfolding judge to_big_ints
  verify_circuit p inputs v =
      let v' = record v { verification_count = v.verification_count + 1 } in
      if env.snarkjs_available then judge p (to_big_ints (signals_of inputs)) v' else (
        err (internal "Proof verification not available. Circuit artifacts not loaded."),
        record v' { failed_verifications = v'.failed_verifications + 1 + 1 },
      )

  -- `isKnownRoot` and what `verifyAgainstChainAndCircuit` makes of it: null skips the check.
  pub verify_against :
      ProofData → RequestPublicInputs → RootAnswer → Exec Exception ProofVerifier Bool
  unfolding verify_circuit
  verify_against p inputs (answered false) v = (ok false, v)
  verify_against p inputs (answered true) v = verify_circuit p inputs v
  verify_against p inputs unreachable v =
      if env.is_prod
      then (err (http 503 "Cannot verify the Merkle root against the chain"), v)
      else verify_circuit p inputs v

  pub verify_parsed : Parsed → RequestPublicInputs → Exec Exception ProofVerifier Bool
  unfolding is_well_formed verify_against run_task
  verify_parsed not_json inputs v = (ok false, v)
  verify_parsed json_null inputs v = (err (internal "Cannot read properties of null"), v)
  verify_parsed (proof p) inputs v =
      if is_well_formed p
      then run_task verification_slot (http 503 "Server busy, retry later")
          (verify_against p inputs (env.is_known_root inputs.merkle_root)) v
      else (ok false, v)

  unfoldable pub verify : Text → RequestPublicInputs → Exec Exception ProofVerifier Bool
  unfolding verify_parsed
  verify proof_text inputs v =
      if env.is_prod && not env.snarkjs_available
      then (
        err (
            internal
              "Proof verification not available in production mode. Configure circuit artifacts."),
        v,
      )
      else if ltb (length proof_text) 10
      then (ok false, v)
      else verify_parsed (env.parse_json proof_text) inputs v
