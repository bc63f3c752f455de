-- ===== src/Attestation/Quote/Authentic.antt =====
-- What a verified event log determines (`verifyEventLog` in src/attestation/tdx-quote.ts).
use zk_api.Common.{
  true_and_false, ℕ, suc, ◌+◌, ◌/◌, ◌%◌, ◌<◌, ◌≡◌, refl, sym, ap, ◌∙◌, ◌⊎◌, inl, inr, ◌≢◌, some,
  List, [], ◌∷◌, ◌++◌, map, arith, length, length-append, All, Bool-cases, Option-cases,
}
use zk_api.Common.Eq.{text_eq, text_beq, text_beq_iff}
use zk_api.Common.Exec.{Result-cases, ok}
use zk_api.Common.Text.{Text}
use zk_api.Attestation.{Bytes, to_hex, hex_char}
use zk_api.Attestation.Quote.{
  TdxEvent, TdxMeasurements, at, replay_rtmrs, differing, verify_event_log, parse_tdx_measurements,
}
use zk_api.Attestation.Quote.Replay.{
  extended, zeros, chain, replay_rtmrs-chain, replay_rtmrs_shape, extended-padded,
}

hex_char_inj : (a b : ℕ) → a < 16 → b < 16 → hex_char a ≡ hex_char b → a ≡ b
hex_char_inj a b h k e = ground arith

byte_inj :
    (x y : ℕ)
    → x < 256
    → y < 256
    → hex_char (x / 16) ≡ hex_char (y / 16)
    → hex_char (x % 16) ≡ hex_char (y % 16)
    → x ≡ y
byte_inj x y h k high low = omega (
  arith,
  hex_char_inj (x / 16) (y / 16) (omega arith) (omega arith) high,
  hex_char_inj (x % 16) (y % 16) (omega arith) (omega arith) low,
)

to_hex_inj :
    (xs ys : Bytes)
    → All (λ n. n < 256) xs
    → All (λ n. n < 256) ys
    → to_hex xs ≡ to_hex ys
    → xs ≡ ys
unfolding to_hex
to_hex_inj [] [] h k e = refl
to_hex_inj [] (y ∷ ys) h k e = ground arith
to_hex_inj (x ∷ xs) [] h k e = ground arith
to_hex_inj (x ∷ xs) (y ∷ ys) h k e =
    let same : x ≡ y = byte_inj x y h.0 k.0 (ground (arith, e)) (ground (arith, e)) in
    ground (arith, same, to_hex_inj xs ys h.1 k.1 (ground (arith, e)))

longer : (p q : Bytes) (n : ℕ) → length p ≡ length q → length p ≡ suc (n + length q) → ⊥
longer p q n h k = omega arith

map-to_hex_inj :
    (xs ys : List Bytes)
    → All (All (λ n. n < 256)) xs
    → All (All (λ n. n < 256)) ys
    → map to_hex xs ≡ map to_hex ys
    → xs ≡ ys
map-to_hex_inj [] [] h k e = refl
map-to_hex_inj [] (y ∷ ys) h k e = ground arith
map-to_hex_inj (x ∷ xs) [] h k e = ground arith
map-to_hex_inj (x ∷ xs) (y ∷ ys) h k e =
    let same : x ≡ y = to_hex_inj x y h.0 k.0 (ground (arith, e)) in
    ground (arith, same, map-to_hex_inj xs ys h.1 k.1 (ground (arith, e)))

append_inj_right :
    (xs ys p q : Bytes) → length p ≡ length q → xs ++ p ≡ ys ++ q → (xs ≡ ys) × (p ≡ q)
append_inj_right [] [] p q h e = (refl, e)
append_inj_right [] (y ∷ ys) p q h e =
    let l : length p ≡ suc (length (ys ++ q)) = ap length e in
    absurd (longer p q (length ys) h (omega (arith, l, length-append ys q)))
append_inj_right (x ∷ xs) [] p q h e =
    let l : suc (length (xs ++ p)) ≡ length q = ap length e in
    absurd (longer q p (length xs) (sym h) (omega (arith, l, length-append xs p)))
append_inj_right (x ∷ xs) (y ∷ ys) p q h e =
    let i = append_inj_right xs ys p q h (ground arith) in ground (arith, i)

module _ (sha384 : Bytes → Bytes) (utf8 : Text → Bytes) where
  -- Two inputs with one hash, or an input that hashes to the start of a register.
  abbrev pub Broken : Type 0
  Broken =
      ((a : Bytes) × (b : Bytes) × (a ≢ b) × (sha384 a ≡ sha384 b))
      ⊎ ((a : Bytes) × (sha384 a ≡ zeros))

  chain_determines :
      (ps qs : List Bytes)
      → All (λ p. length p ≡ 48) ps
      → All (λ p. length p ≡ 48) qs
      → chain sha384 utf8 ps ≡ chain sha384 utf8 qs
      → (ps ≡ qs) ⊎ Broken
  chain_determines [] [] h k e = inl refl
  chain_determines [] (q ∷ qs) h k e = inr (inr (chain sha384 utf8 qs ++ q, sym e))
  chain_determines (p ∷ ps) [] h k e = inr (inr (chain sha384 utf8 ps ++ p, e))
  chain_determines (p ∷ ps) (q ∷ qs) h k e =
      let a = chain sha384 utf8 ps ++ p in
      let b = chain sha384 utf8 qs ++ q in
      elim (Bool-cases (text_beq a b)) [
        | inr differ ↦
            inr (inl (a, b, (λ same. true_and_false _ ((text_beq_iff a b).1 same) differ), e))
        | inl equal ↦
            let same : a ≡ b = (text_beq_iff a b).0 equal in
            let (chains, lasts) =
              append_inj_right (chain sha384 utf8 ps) (chain sha384 utf8 qs) p q (h.0 ∙ sym k.0)
                same in
            elim (chain_determines ps qs h.1 k.1 chains) [
              | inl rest ↦ inl (cc)
              | inr broken ↦ inr broken
            ]
      ]

  differing_none :
      (i : ℕ) (rs : List Text) (bs : List Bytes)
      → differing sha384 utf8 i rs bs ≡ []
      → length bs ≡ length rs
      → map to_hex bs ≡ rs
  differing_none i [] [] h k = refl
  differing_none i [] (b ∷ bs) h k = ground (arith, k)
  differing_none i (r ∷ rs) [] h k = ground (arith, k)
  differing_none i (r ∷ rs) (b ∷ bs) h k = elim (Bool-cases (text_beq r (to_hex b))) [
    | inl same ↦ ground (
      arith,
      text_beq_iff r (to_hex b),
      same,
      differing_none (suc i) rs bs (ground (arith, h, same)) (ground (arith, k)),
    )
    | inr other ↦ ground (arith, h, other)
  ]

  four_registers :
      (quote : Bytes) (m : TdxMeasurements)
      → parse_tdx_measurements quote ≡ some m
      → length m.rtmrs ≡ 4
  unfolding parse_tdx_measurements
  four_registers quote m h = ground arith

  module _ (bytes : (b : Bytes) → All (λ n. n < 256) (sha384 b)) where
    verified :
        (quote : Bytes) (es : List TdxEvent)
        → verify_event_log sha384 utf8 quote es ≡ some []
        → (m : TdxMeasurements) × (out : List Bytes) × (parse_tdx_measurements quote ≡ some m)
          × (replay_rtmrs sha384 utf8 es ≡ ok out)
          × (map to_hex out ≡ m.rtmrs)
    unfolding verify_event_log
    verified quote es h = elim (Option-cases (parse_tdx_measurements quote)) [
      | inl e ↦ ground (arith, h, e)
      | inr (m, parsed) ↦ elim (Result-cases (replay_rtmrs sha384 utf8 es)) [
        | inl (x, e) ↦ ground (arith, h, e, parsed)
        | inr (out, replayed) ↦
            let (four, small) = replay_rtmrs_shape sha384 utf8 bytes es out replayed in
            (
              m,
              out,
              parsed,
              replayed,
              differing_none 0 m.rtmrs out (ground (arith, h, parsed, replayed))
                  (four ∙ sym (four_registers quote m parsed)),
            )
      ]
    ]

    -- Two event logs that verify against one quote have extended each register with the same digests in the
    -- same order, unless SHA-384 has a collision or an input that hashes to zeros, which is given then.
    pub verified_logs_agree :
        (quote : Bytes) (es es' : List TdxEvent) (i : ℕ)
        → verify_event_log sha384 utf8 quote es ≡ some []
        → verify_event_log sha384 utf8 quote es' ≡ some []
        → i < 4
        → (extended i es ≡ extended i es') ⊎ Broken
    verified_logs_agree quote es es' i h h' below =
        let (m, out, parsed, replayed, hex) = verified quote es h in
        let (m', out', parsed', replayed', hex') = verified quote es' h' in
        let (four, small) = replay_rtmrs_shape sha384 utf8 bytes es out replayed in
        let (four', small') = replay_rtmrs_shape sha384 utf8 bytes es' out' replayed' in
        let same_m : m ≡ m' = ground (arith, parsed, parsed') in
        let same : out ≡ out' =
          map-to_hex_inj out out' small small' (hex ∙ ap (λ x. x.rtmrs) same_m ∙ sym hex') in
        chain_determines (extended i es) (extended i es')
          (extended-padded sha384 utf8 es out i replayed)
          (extended-padded sha384 utf8 es' out' i replayed')
          (sym (replay_rtmrs-chain sha384 utf8 es out i below replayed)
            ∙ ap (at i) same
            ∙ replay_rtmrs-chain sha384 utf8 es' out' i below replayed')
