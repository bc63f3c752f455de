-- ===== src/Longjing/Refunds.antt =====
-- What a request that is served costs, and what it is given back (steps 6 to 8).
use zk_api.Common.{ℕ, ◌+◌, ◌≡◌, ap, inl, inr, Option-cases, min, refl, Option, none, some, arith}
use zk_api.Common.Ensures.{Ensures}
use zk_api.Common.Exec.{Result, ok}
use zk_api.Accumulator
use zk_api.Accumulator.{apply_refund}
use zk_api.EthRate.{EthRateOracle, usd_to_wei}
use zk_api.Exceptions.{Exception, http, bad_gateway, internal}
use zk_api.Longjing.{
  LongjingRequest, Usage, Answer, Response, served, failed, Env, World, Checked, next_accumulator,
}
use zk_api.Longjing.Serve.{published_accumulator, refund_of, refund_everything, respond, serve}
use zk_api.Nullifiers.{StoredSignal, remember_response}
use zk_api.Padding.{pad_response}
use zk_api.Pricing.Claude.{claude_cost_usd}
use zk_api.Signal.{to_string}
use zk_api.Longjing.Endings.{
  refund_everything-err, respond-unpriced, respond-err, next_of, next-signed, next-unsigned,
  refund_everything-ok, priced, respond-ok, called, usage_of, execute-none, execute-some,
  serve-unparsed, serve-failed, serve-answered,
}

-- A served request, and what was kept of it.
pub record IsRefunded (env : Env) (req : LongjingRequest) (c : Checked) (signal : StoredSignal)
    (w : World) (r : Response) (w' : World) : Type 0 where
  pub published : Accumulator.Point
  pub answer : Answer
  pub cost : ℕ
  pub refund : ℕ
  pub parsed : published_accumulator req ≡ some published
  pub answered : env.provider req.payload c.model ≡ some answer
  pub priced :
      (usd_to_wei env.actual_feeds
        (claude_cost_usd c.model answer.input_tokens answer.output_tokens)
        w.oracle).0
      ≡ some cost
  pub balanced : refund + min cost c.c_max ≡ c.c_max
  pub printed : r.refund ≡ to_string refund
  pub advanced : next_accumulator env published refund ≡ ok r.accumulator
  pub padded : r.response ≡ pad_response answer.content
  pub kept : w'.store ≡ remember_response env.kept_at c.nullifier signal (served r) w.store

-- How serving may throw: the provider failed, and then all of C_MAX is given back and the exception is
-- kept; or something else failed, and then nothing is kept.
abbrev pub IsFailure :
    Env → LongjingRequest → Checked → StoredSignal → World → Exception → World → Type 0
IsFailure env req c signal w (http status message) w' = w'.store ≡ w.store
IsFailure env req c signal w (internal message) w' = w'.store ≡ w.store
IsFailure env req c signal w (bad_gateway message refund accumulator) w' =
    (published : Accumulator.Point) × (published_accumulator req ≡ some published)
    × (env.provider req.payload c.model ≡ none)
    × (refund ≡ to_string c.c_max)
    × (next_accumulator env published c.c_max ≡ ok accumulator)
    × (w'.store
        ≡ remember_response env.kept_at c.nullifier signal
            (failed (bad_gateway message refund accumulator)) w.store)

-- The refund and what is paid, capped at C_MAX, make up C_MAX.
refund-min : (c_max cost : ℕ) → refund_of c_max cost + min cost c_max ≡ c_max
unfolding refund_of
refund-min c_max cost = ground arith

module _ (env : Env) (req : LongjingRequest) (c : Checked) (signal : StoredSignal) (w : World)
    (published : Accumulator.Point) (parsed : published_accumulator req ≡ some published) where
  abbrev Outcome : Result Exception Response × World → Type 0
  Outcome = Ensures (IsRefunded env req c signal w) (IsFailure env req c signal w)

  refund_everything-Outcome :
      (w1 : World)
      → w1.store ≡ w.store
      → env.provider req.payload c.model ≡ none
      → Outcome (refund_everything env c signal published w1)
  refund_everything-Outcome w1 same e =
      elim (Option-cases (env.sign (next_of env published c.c_max))) [
        | inl none_signed ↦
            rw
              (refund_everything-err env c signal published w1 _
                (next-unsigned env c signal published w1 c.c_max none_signed))
              same
        | inr (s, es) ↦
            let en = next-signed env c signal published w1 c.c_max s es in
            rw (refund_everything-ok env c signal published w1 _ en) (
              published,
              parsed,
              e,
              refl,
              en,
              ap (remember_response env.kept_at c.nullifier signal _) same,
            )
      ]

  respond-Outcome :
      (answer : Answer) (usage : Usage) (w1 : World)
      → w1.store ≡ w.store
      → w1.oracle ≡ w.oracle
      → env.provider req.payload c.model ≡ some answer
      → Outcome (respond env c signal published answer usage w1)
  respond-Outcome answer usage w1 same same_oracle e =
      costing (priced env c signal published w1 answer usage) refl
    where
      costing :
          (p : Option ℕ × EthRateOracle)
          → priced env c signal published w1 answer usage ≡ p
          → Outcome (respond env c signal published answer usage w1)
      costing (none, o) e2 = rw (respond-unpriced env c signal published w1 answer usage o e2) same
      costing (some cost, o) e2 =
          elim (Option-cases (env.sign (next_of env published (refund_of c.c_max cost)))) [
            | inl unsigned ↦
                rw
                  (respond-err env c signal published w1 answer usage cost o _ e2
                    (next-unsigned env c signal published w1 _ unsigned))
                  same
            | inr (s, es) ↦
                let en = next-signed env c signal published w1 _ s es in
                rw (respond-ok env c signal published w1 answer usage cost o _ e2 en) record {
                  published = published;
                  answer = answer;
                  cost = cost;
                  refund = refund_of c.c_max cost;
                  parsed = parsed;
                  answered = e;
                  priced = ap (λ p. p.0) (rw same_oracle at e2);
                  balanced = refund-min c.c_max cost;
                  printed = refl;
                  advanced = en;
                  padded = refl;
                  kept = ap (remember_response env.kept_at c.nullifier signal _) same;
                }
          ]

-- Serving a request ends in one of these ways. It returns the padded answer of the provider with a
-- refund v, printed, such that v and the actual cost in wei, capped at C_MAX, make up C_MAX, and with
-- the signed accumulator for the published one plus v·G + J; and this response is
-- kept for a retry. Or the provider failed, the 502 carries all of C_MAX and the accumulator signed for
-- it, and this exception is kept. Or another exception is thrown, and the store is as it was.
pub serve_refunds :
    (env : Env) (req : LongjingRequest) (c : Checked) (signal : StoredSignal) (w : World)
    → Ensures
        (IsRefunded env req c signal w)
        (IsFailure env req c signal w)
        (serve env req c signal w)
serve_refunds env req c signal w = elim (Option-cases (published_accumulator req)) [
  | inl bad ↦ rw (serve-unparsed env req c signal w bad) refl
  | inr (published, parsed) ↦ elim (Option-cases (env.provider req.payload c.model)) [
    | inl down ↦
        rw
          (serve-failed env req c signal w published parsed
            (execute-none env req.payload c.model w down))
          (refund_everything-Outcome env req c signal w published parsed (called w) refl down)
    | inr (answer, up) ↦
        let usage = usage_of c.model answer in
        let e = execute-some env req.payload c.model w answer up in
        rw (serve-answered env req c signal w published answer usage parsed e)
          (respond-Outcome env req c signal w published parsed answer usage (called w) refl refl up)
  ]
]
