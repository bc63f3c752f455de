-- ===== src/Attestation/Quote/Replay.antt =====
-- The replay of an event log against a reference, and what a verified log determines
-- (src/attestation/tdx-quote.ts).
use zk_api.Common.{
  not_ltb, ℕ, zero, suc, ◌-◌, ◌≤◌, ◌<◌, ◌≡◌, refl, ap, ◌∙◌, inl, inr, Bool, true, false, Option,
  none, some, List, [], ◌∷◌, ◌++◌, arith, ◌==◌, if◌then◌else◌, length, length-append,
  length-replicate, replicate, All, All-filtered, ==_iff,
}
use zk_api.Common.Eq.{text_eq}
use zk_api.Common.Exec.{ok, Result-cases}
use zk_api.Common.Int.{ℤ, pos, negsuc}
use zk_api.Common.Text.{Text}
use zk_api.Attestation.{Bytes, from_hex}
use zk_api.Attestation.Quote.{
  TdxEvent, measurement_length, register_of, set_at, at, padded, checked, check_event, extend,
  replay_from, replay_rtmrs,
}

-- Whether an event extends the register i.
abbrev pub extends : ℕ → TdxEvent → Bool
extends i e = elim (register_of e.imr) [ none ↦ false | some j ↦ j == i ]

-- The digests that extend the register i, padded, the last first.
abbrev pub extended_onto : ℕ → List TdxEvent → List Bytes → List Bytes
extended_onto i [] before = before
extended_onto i (e ∷ es) before =
    extended_onto i es (if extends i e then padded e.digest ∷ before else before)

abbrev pub extended : ℕ → List TdxEvent → List Bytes
extended i events = extended_onto i events []

abbrev pub zeros : Bytes
zeros = replicate measurement_length 0

length-set_at : (i : ℕ) (b : Bytes) (rs : List Bytes) → length (set_at i b rs) ≡ length rs
length-set_at i b [] = refl
length-set_at zero b (r ∷ rs) = refl
length-set_at (suc i) b (r ∷ rs) = ap suc (length-set_at i b rs)

not_lt_zero : (j : ℕ) → j < 0 → ⊥
not_lt_zero j h = omega arith

at-set_at :
    (i j : ℕ) (b : Bytes) (rs : List Bytes)
    → j < length rs
    → at i (set_at j b rs) ≡ (if j == i then b else at i rs)
at-set_at i j b [] h = absurd (not_lt_zero j h)
at-set_at zero zero b (r ∷ rs) h = refl
at-set_at zero (suc j) b (r ∷ rs) h = ground arith
at-set_at (suc i) zero b (r ∷ rs) h = ground arith
at-set_at (suc i) (suc j) b (r ∷ rs) h = at-set_at i j b rs (omega arith) ∙ ground arith

All-replicate : (n b : ℕ) → b < 256 → All (λ m. m < 256) (replicate n b)
All-replicate zero b h = tt
All-replicate (suc n) b h = (h, All-replicate n b h)

zeros_small : All (λ n. n < 256) zeros
zeros_small = All-replicate 48 0 (omega arith)

too_large : (n : ℕ) → suc (suc (suc (suc n))) < 4 → ⊥
too_large n h = omega arith

All-set_at :
    (i : ℕ) (b : Bytes) (rs : List Bytes)
    → All (λ n. n < 256) b
    → All (All (λ n. n < 256)) rs
    → All (All (λ n. n < 256)) (set_at i b rs)
All-set_at i b [] h k = tt
All-set_at zero b (r ∷ rs) h k = (h, k.1)
All-set_at (suc i) b (r ∷ rs) h k = (k.0, All-set_at i b rs h k.1)

length-padded :
    (digest : Text) → length (from_hex digest) ≤ measurement_length → length (padded digest) ≡ 48
unfolding padded
length-padded digest h =
    length-append (from_hex digest) _
    ∙ omega (arith, h, length-replicate {A = ℕ} (measurement_length - length (from_hex digest)) 0)

checked_ok :
    (e : TdxEvent) (long wrong : Bool) (o : Option ℕ) (i : ℕ)
    → checked e long wrong o ≡ ok i
    → (o ≡ some i) × (long ≡ false) × (wrong ≡ false)
checked_ok e long wrong none i h = ground arith
checked_ok e true wrong (some j) i h = ground arith
checked_ok e false true (some j) i h = ground arith
checked_ok e false false (some j) i h = ground arith

register_below : (z : ℤ) (i : ℕ) → register_of z ≡ some i → i < 4
register_below (pos n) i h = ground arith
register_below (negsuc n) i h = ground arith

module _ (sha384 : Bytes → Bytes) (utf8 : Text → Bytes) where
  -- A register alone, by the digests that extended it, the last first.
  abbrev pub chain : List Bytes → Bytes
  chain [] = zeros
  chain (p ∷ ps) = sha384 (chain ps ++ p)

  -- The events whose checks pass, and what they extend.
  checked_register :
      (e : TdxEvent) (i : ℕ)
      → check_event sha384 utf8 e ≡ ok i
      → (register_of e.imr ≡ some i) × (i < 4) × (length (from_hex e.digest) ≤ measurement_length)
  unfolding check_event
  checked_register e i h =
      let (found, short, right) = checked_ok e _ _ _ i h in
      (found, register_below e.imr i found, not_ltb _ _ short)

  stepped_by :
      (i j : ℕ) (rtmrs : List Bytes) (e : TdxEvent) (before : List Bytes) (c d : Bool)
      → c ≡ d
      → (d ≡ true → j ≡ i)
      → at i rtmrs ≡ chain before
      → (if d then extend sha384 utf8 (at j rtmrs) e.digest else at i rtmrs)
        ≡ chain (if c then padded e.digest ∷ before else before)
  stepped_by i j rtmrs e before true true h k start =
      ap (λ r. sha384 (r ++ padded e.digest)) (ap (λ n. at n rtmrs) (k refl) ∙ start)
  stepped_by i j rtmrs e before false false h k start = start
  stepped_by i j rtmrs e before true false h k start = ground arith
  stepped_by i j rtmrs e before false true h k start = ground arith

  stepped :
      (i j : ℕ) (rtmrs : List Bytes) (e : TdxEvent) (before : List Bytes)
      → register_of e.imr ≡ some j
      → at i rtmrs ≡ chain before
      → (if j == i then extend sha384 utf8 (at j rtmrs) e.digest else at i rtmrs)
        ≡ chain (if extends i e then padded e.digest ∷ before else before)
  stepped i j rtmrs e before found start =
      stepped_by i j rtmrs e before (extends i e) (j == i) (rw (found, extends) refl)
        (λ h. (==_iff j i).0 h) start

  replay-chain :
      (es : List TdxEvent) (i : ℕ) (rtmrs out : List Bytes) (before : List Bytes)
      → replay_from sha384 utf8 es rtmrs ≡ ok out
      → length rtmrs ≡ 4
      → at i rtmrs ≡ chain before
      → at i out ≡ chain (extended_onto i es before)
  unfolding replay_from
  replay-chain [] i rtmrs out before h k start = ground (arith, h, start)
  replay-chain (e ∷ es) i rtmrs out before h k start =
      elim (Result-cases (check_event sha384 utf8 e)) [
        | inl (x, failed) ↦ ground (arith, h, failed)
        | inr (j, passed) ↦
            let (found, below, short) = checked_register e j passed in
            let b = extend sha384 utf8 (at j rtmrs) e.digest in
            replay-chain es i (set_at j b rtmrs) out
              (if extends i e then padded e.digest ∷ before else before) (ground (arith, h, passed))
              (length-set_at j b rtmrs ∙ k)
              (at-set_at i j b rtmrs (omega (arith, k, below))
                ∙ stepped i j rtmrs e before found start)
      ]

  -- What every replay keeps: four registers, each of bytes.
  replay_shape :
      ((b : Bytes) → All (λ n. n < 256) (sha384 b))
      → (es : List TdxEvent) (rtmrs out : List Bytes) → replay_from sha384 utf8 es rtmrs ≡ ok out
      → length rtmrs ≡ 4
      → All (All (λ n. n < 256)) rtmrs
      → (length out ≡ 4) × All (All (λ n. n < 256)) out
  unfolding replay_from
  replay_shape bytes [] rtmrs out h k b =
      let same : rtmrs ≡ out = ground (arith, h) in rw (← same) (k, b)
  replay_shape bytes (e ∷ es) rtmrs out h k b = elim (Result-cases (check_event sha384 utf8 e)) [
    | inl (x, failed) ↦ ground (arith, h, failed)
    | inr (j, passed) ↦
        let r = extend sha384 utf8 (at j rtmrs) e.digest in
        replay_shape bytes es (set_at j r rtmrs) out (ground (arith, h, passed))
          (length-set_at j r rtmrs ∙ k) (All-set_at j r rtmrs (bytes _) b)
  ]

  extended_padded :
      (es : List TdxEvent) (i : ℕ) (rtmrs out before : List Bytes)
      → replay_from sha384 utf8 es rtmrs ≡ ok out
      → All (λ p. length p ≡ 48) before
      → All (λ p. length p ≡ 48) (extended_onto i es before)
  unfolding replay_from
  extended_padded [] i rtmrs out before h b = b
  extended_padded (e ∷ es) i rtmrs out before h b =
      elim (Result-cases (check_event sha384 utf8 e)) [
        | inl (x, failed) ↦ ground (arith, h, failed)
        | inr (j, passed) ↦
            let (found, below, short) = checked_register e j passed in
            extended_padded es i (set_at j (extend sha384 utf8 (at j rtmrs) e.digest) rtmrs) out _
              (ground (arith, h, passed))
              (All-filtered (λ p. length p ≡ 48) (padded e.digest) before (extends i e)
                (λ t. length-padded e.digest short) b)
      ]

  -- A replay that succeeds gives in each register what the digests of its own events give one after another,
  -- whatever events of other registers stand between them.
  pub replay_rtmrs-chain :
      (es : List TdxEvent) (out : List Bytes) (i : ℕ)
      → i < 4
      → replay_rtmrs sha384 utf8 es ≡ ok out
      → at i out ≡ chain (extended i es)
  unfolding replay_rtmrs
  replay_rtmrs-chain es out i below h =
      replay-chain es i (replicate 4 zeros) out [] h refl (started i below)
    where
      started : (i : ℕ) → i < 4 → at i (replicate 4 zeros) ≡ zeros
      started zero h = refl
      started (suc zero) h = refl
      started (suc (suc zero)) h = refl
      started (suc (suc (suc zero))) h = refl
      started (suc (suc (suc (suc n)))) h = absurd (too_large n h)

  pub replay_rtmrs_shape :
      ((b : Bytes) → All (λ n. n < 256) (sha384 b))
      → (es : List TdxEvent) (out : List Bytes) → replay_rtmrs sha384 utf8 es ≡ ok out
      → (length out ≡ 4) × All (All (λ n. n < 256)) out
  unfolding replay_rtmrs
  replay_rtmrs_shape bytes es out h =
      let z : All (λ n. n < 256) zeros = zeros_small in
      replay_shape bytes es (replicate 4 zeros) out h refl (z, (z, (z, (z, tt))))

  pub extended-padded :
      (es : List TdxEvent) (out : List Bytes) (i : ℕ)
      → replay_rtmrs sha384 utf8 es ≡ ok out
      → All (λ p. length p ≡ 48) (extended i es)
  unfolding replay_rtmrs
  extended-padded es out i h = extended_padded es i (replicate 4 zeros) out [] h tt
