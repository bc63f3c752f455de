-- ===== src/Longjing/Checks.antt =====
-- What the checks of `handleRequest` establish, and that they consume nothing.
use zk_api.Common.{ℕ, ◌≤◌, ◌<◌, length, ◌≡◌, refl, Bool, true, Option, none, some, arith, leb}
use zk_api.Common.Ensures.{
  Ensures, Ensures-bind, Ensures-or_throw, Ensures-throw_unless, ◌>>=◌, ◌>>◌,
}
use zk_api.Common.Exec.{Result, ok, err, pure, or_throw, throw_unless}
use zk_api.Common.Text.{Text}
use zk_api.Exceptions.{Exception, http}
use zk_api.Longjing.{
  LongjingRequest, Env, World, Handler, Checked, with_store, calculate_cost_in_eth,
  worst_case_cost_in_eth, verify_proof, check_request, chosen_model, rate_or_throw,
}
use zk_api.Nullifiers.{check_rate_limit, recent, rate_limit_max_attempts}
use zk_api.Signal.{signal_x_matches_request}
use zk_api.Signal.Canonical.{canonical}
use zk_api.EthRate.{EthRateOracle, usd_to_wei}
use zk_api.Verifier.{ProofVerifier, RequestPublicInputs, verify}
use zk_api.Pricing.Claude.{ClaudeModel}
use zk_api.Verifier.Soundness.{IsVerified, verify_sound}

-- Nothing that a note pays with, or that is sent, has changed.
pub record IsUnconsumed (w w' : World) : Type 0 where
  pub same_nullifiers : w'.store.nullifiers ≡ w.store.nullifiers
  pub same_responses : w'.store.responses ≡ w.store.responses
  pub same_sent : w'.sent ≡ w.sent
  pub same_calls : w'.provider_calls ≡ w.provider_calls

-- The public inputs of the proof that a request must carry.
abbrev pub inputs_of : LongjingRequest → ℕ → RequestPublicInputs
inputs_of req c_max = record {
  nullifier = req.nullifier;
  signal_y = req.signal_y;
  accumulator_x = req.accumulator_x;
  accumulator_y = req.accumulator_y;
  merkle_root = req.merkle_root;
  max_cost = c_max;
  signal_x = req.signal_x;
}

-- What holds of a request that passed: fewer than three calls for its nullifier are in the last minute of the
-- rate limit, its signal is bound to the payload, a worst case that was
-- computed for it is covered by C_MAX, and its proof is verified.
pub record IsChecked (env : Env) (req : LongjingRequest) (w : World) (c : Checked) : Type 0 where
  pub supported : chosen_model req.model ≡ some c.model
  pub named : canonical req.nullifier ≡ some c.nullifier
  pub within : length (recent env.rate_limit_at c.nullifier w.store) < rate_limit_max_attempts
  pub bound :
      signal_x_matches_request env.sha256 env.poseidon req.signal_x req.payload req.nonce ≡ true
  pub read : env.c_max ≡ some c.c_max
  pub worst : ℕ
  pub priced : (worst_case_cost_in_eth env.worst_case_feeds req.payload c.model w).0 ≡ ok worst
  pub covered : worst ≤ c.c_max
  pub verified : IsVerified env.verifier_env req.proof (inputs_of req c.c_max)

-- After the rate limit the oracle is as before too.
record IsEarly (w w' : World) : Type 0 where
  pub unconsumed : IsUnconsumed w w'
  pub same_oracle : w'.oracle ≡ w.oracle

rate-keeps :
    (now : ℕ) (n : Text) (w : World)
    → Ensures
        (λ within w'.
          (within ≡ true → length (recent now n w.store) < rate_limit_max_attempts) × IsEarly w w')
        (λ _. IsUnconsumed w)
        (with_store (check_rate_limit now n) w)
unfolding check_rate_limit
rate-keeps now n w = ground arith

cost-keeps :
    (env : Env) (req : LongjingRequest) (c : Checked) (w w' : World)
    → IsEarly w w'
    → Ensures
        (λ worst w''.
          ((worst_case_cost_in_eth env.worst_case_feeds req.payload c.model w).0 ≡ ok worst)
          × IsUnconsumed w w'')
        (λ _. IsUnconsumed w)
        (worst_case_cost_in_eth env.worst_case_feeds req.payload c.model w')
unfolding worst_case_cost_in_eth calculate_cost_in_eth
cost-keeps env req c w w' h =
    rw h.same_oracle (priced_as (usd_to_wei env.worst_case_feeds _ w.oracle))
  where
    priced_as :
        (p : Option ℕ × EthRateOracle)
        → Ensures
            (λ worst w''. (rate_or_throw p.0 ≡ ok worst) × IsUnconsumed w w'')
            (λ _. IsUnconsumed w)
            (rate_or_throw p.0, record w' { oracle = p.1 })
    priced_as (none, o) = ground arith
    priced_as (some wei, o) = ground arith

proof-keeps :
    (env : Env) (req : LongjingRequest) (c_max : ℕ) (w w' : World)
    → IsUnconsumed w w'
    → Ensures
        (λ valid w''.
          (valid ≡ true → IsVerified env.verifier_env req.proof (inputs_of req c_max))
          × IsUnconsumed w w'')
        (λ _. IsUnconsumed w)
        (verify_proof env req c_max w')
unfolding verify_proof
proof-keeps env req c_max w w' h =
    verdict (verify env.verifier_env req.proof (inputs_of req c_max) w'.verifier) refl
  where
    verdict :
        (p : Result Exception Bool × ProofVerifier)
        → verify env.verifier_env req.proof (inputs_of req c_max) w'.verifier ≡ p
        → Ensures
            (λ valid w''.
              (valid ≡ true → IsVerified env.verifier_env req.proof (inputs_of req c_max))
              × IsUnconsumed w w'')
            (λ _. IsUnconsumed w)
            (p.0, record w' { verifier = p.1 })
    verdict (ok valid, v) e = (
      λ yes.
          verify_sound env.verifier_env req.proof (inputs_of req c_max) w'.verifier
            (rw (e, yes) refl),
      ground arith,
    )
    verdict (err x, v) e = ground arith

-- The checks after the rate limit.
abbrev paid_checks : Env → LongjingRequest → ClaudeModel → Text → Handler Checked
paid_checks env req model nullifier = do
  throw_unless (signal_x_matches_request env.sha256 env.poseidon req.signal_x req.payload req.nonce)
      (http 400 "Signal x does not match the payload and nonce")
  c_max ← or_throw env.c_max (http 503 "Cannot read C_MAX from the contract")
  worst ← worst_case_cost_in_eth env.worst_case_feeds req.payload model
  throw_unless (leb worst c_max) (http 400 "The worst-case cost exceeds C_MAX")
  valid ← verify_proof env req c_max
  throw_unless valid (http 401 "Invalid ZK proof")
  pure (record { model = model; nullifier = nullifier; c_max = c_max })

paid :
    (env : Env) (req : LongjingRequest) (w : World) (model : ClaudeModel) (nullifier : Text)
    (w1 : World)
    → IsEarly w w1
    → chosen_model req.model ≡ some model
    → canonical req.nullifier ≡ some nullifier
    → length (recent env.rate_limit_at nullifier w.store) < rate_limit_max_attempts
    → Ensures
        (λ c w'. IsChecked env req w c × IsUnconsumed w w')
        (λ _. IsUnconsumed w)
        (paid_checks env req model nullifier w1)
paid env req w model nullifier w1 early supported named within =
    Ensures-bind Matching Good Unchanged _ _ w1
      (Ensures-throw_unless Matching Unchanged matches _ w1 (λ e. (e, early))
        (λ _. early.unconsumed))
      λ _ w2 (bound, early2).
        Ensures-bind Read Good Unchanged _ _ w2
          (Ensures-or_throw Read Unchanged env.c_max _ w2 (λ n e. (e, early2))
            (λ _. early2.unconsumed))
          λ c_max w3 (read, early3).
            Ensures-bind (Priced model) Good Unchanged _ _ w3
              (cost-keeps env req (record { model = model; nullifier = nullifier; c_max = c_max }) w
                w3 early3)
              λ worst w4 (priced, same4).
                Ensures-bind (Covered worst c_max) Good Unchanged _ _ w4
                  (Ensures-throw_unless (Covered worst c_max) Unchanged (leb worst c_max) _ w4
                    (λ e. (e, same4)) (λ _. same4))
                  λ _ w5 (covered, same5).
                    Ensures-bind (Verdict c_max) Good Unchanged _ _ w5
                      (proof-keeps env req c_max w w5 same5)
                      λ valid w6 (sound, same6).
                        Ensures-bind (Accepted valid) Good Unchanged _
                          (λ _.
                            pure (record { model = model; nullifier = nullifier; c_max = c_max }))
                          w6
                          (Ensures-throw_unless (Accepted valid) Unchanged valid _ w6
                            (λ e. (e, same6)) (λ _. same6))
                          λ _ w7 (accepted, same7). (
                            record {
                              supported = supported;
                              named = named;
                              within = within;
                              bound = bound;
                              read = read;
                              worst = worst;
                              priced = priced;
                              covered = ground arith;
                              verified = sound accepted;
                            },
                            same7,
                          )
  where
    matches : Bool
    matches = signal_x_matches_request env.sha256 env.poseidon req.signal_x req.payload req.nonce

    Good : Checked → World → Type 0
    Good c w' = IsChecked env req w c × IsUnconsumed w w'

    Unchanged : Exception → World → Type 0
    Unchanged _ w' = IsUnconsumed w w'

    Matching : Unit {0} → World → Type 0
    Matching _ w' = (matches ≡ true) × IsEarly w w'

    Read : ℕ → World → Type 0
    Read n w' = (env.c_max ≡ some n) × IsEarly w w'

    Priced : ClaudeModel → ℕ → World → Type 0
    Priced m worst w' =
        ((worst_case_cost_in_eth env.worst_case_feeds req.payload m w).0 ≡ ok worst)
        × IsUnconsumed w w'

    Covered : ℕ → ℕ → Unit {0} → World → Type 0
    Covered worst c_max _ w' = (leb worst c_max ≡ true) × IsUnconsumed w w'

    Accepted : Bool → Unit {0} → World → Type 0
    Accepted valid _ w' = (valid ≡ true) × IsUnconsumed w w'

    Verdict : ℕ → Bool → World → Type 0
    Verdict c_max valid w' =
        (valid ≡ true → IsVerified env.verifier_env req.proof (inputs_of req c_max))
        × IsUnconsumed w w'

-- The checks either pass, with all that they establish, or throw; nothing is consumed in either case.
pub check_request-Ensures :
    (env : Env) (req : LongjingRequest) (w : World)
    → Ensures
        (λ c w'. IsChecked env req w c × IsUnconsumed w w')
        (λ _. IsUnconsumed w)
        (check_request env req w)
unfolding check_request
check_request-Ensures env req w =
    Ensures-bind Model Good Unchanged _ _ w
      (Ensures-or_throw Model Unchanged (chosen_model req.model) _ w (λ m e. (e, refl))
        (λ _. unchanged))
      λ model w1 (supported, e1).
        Ensures-bind Name Good Unchanged _ _ w1
          (Ensures-or_throw Name Unchanged (canonical req.nullifier) _ w1 (λ n e. (e, e1))
            (λ _. kept w1 e1))
          λ nullifier w2 (named, e2).
            Ensures-bind (Limited nullifier) Good Unchanged _ _ w2
              (rw e2 (rate-keeps env.rate_limit_at nullifier w))
              λ within w3 (limit, early).
                Ensures-bind (Allowed within) Good Unchanged _ _ w3
                  (Ensures-throw_unless (Allowed within) Unchanged within _ w3 (λ e. (e, early))
                    (λ _. early.unconsumed))
                  λ _ w4 (allowed, early4).
                    paid env req w model nullifier w4 early4 supported named (limit allowed)
  where
    Good : Checked → World → Type 0
    Good c w' = IsChecked env req w c × IsUnconsumed w w'

    Unchanged : Exception → World → Type 0
    Unchanged _ w' = IsUnconsumed w w'

    Model : ClaudeModel → World → Type 0
    Model m w' = (chosen_model req.model ≡ some m) × (w' ≡ w)

    Name : Text → World → Type 0
    Name n w' = (canonical req.nullifier ≡ some n) × (w' ≡ w)

    Limited : Text → Bool → World → Type 0
    Limited n within w' =
        (within ≡ true → length (recent env.rate_limit_at n w.store) < rate_limit_max_attempts)
        × IsEarly w w'

    Allowed : Bool → Unit {0} → World → Type 0
    Allowed within _ w' = (within ≡ true) × IsEarly w w'

    unchanged : IsUnconsumed w w
    unchanged = record {
      same_nullifiers = refl;
      same_responses = refl;
      same_sent = refl;
      same_calls = refl;
    }

    kept : (v : World) → v ≡ w → IsUnconsumed w v
    kept v e = rw e unchanged
