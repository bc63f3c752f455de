-- ===== src/Attestation/Quote/Relabelling.antt =====
-- Names and payloads that the replay of an event log does not check (src/attestation/tdx-quote.ts and
-- `composeHashFromEventLog` in src/attestation/app-governance.ts).
use zk_api.Common.{
  ℕ, ◌≡◌, refl, Bool, true, false, Option, none, some, List, [], ◌∷◌, ◌++◌, arith, find, inl, inr,
  Option-cases,
}
use zk_api.Common.Eq.{◌===◌, text_eq}
use zk_api.Common.Exec.{Result-cases}
use zk_api.Common.Text.{Text, codes}
use zk_api.Attestation.{Bytes}
use zk_api.Attestation.Quote.{
  TdxEvent, is_runtime, register_of, checked, check_event, replay_from, replay_rtmrs,
  verify_event_log, normalize_hash, parse_tdx_measurements, compose_hash_from_event_log,
}

-- The event under another name, with another payload.
abbrev pub relabelled : Text → TdxEvent → TdxEvent
relabelled payload e = record e { event = codes "compose-hash"; event_payload = payload }

checked_relabelled :
    (payload : Text) (e : TdxEvent) (long : Bool) (o : Option ℕ)
    → checked (relabelled payload e) long false o ≡ checked e long false o
checked_relabelled payload e long none = refl
checked_relabelled payload e true (some i) = refl
checked_relabelled payload e false (some i) = refl

module _ (sha384 : Bytes → Bytes) (utf8 : Text → Bytes) (payload : Text) (e : TdxEvent) where
  check_event-relabelled :
      is_runtime e ≡ false
      → check_event sha384 utf8 (relabelled payload e) ≡ check_event sha384 utf8 e
  unfolding check_event
  check_event-relabelled h = rw (h) (checked_relabelled payload e _ (register_of e.imr))

  replay_from-relabelled :
      (pre post : List TdxEvent) (rtmrs : List Bytes)
      → is_runtime e ≡ false
      → replay_from sha384 utf8 (pre ++ relabelled payload e ∷ post) rtmrs
        ≡ replay_from sha384 utf8 (pre ++ e ∷ post) rtmrs
  unfolding replay_from
  replay_from-relabelled [] post rtmrs h = rw (check_event-relabelled h, replay_from) refl
  replay_from-relabelled (x ∷ pre) post rtmrs h = elim (Result-cases (check_event sha384 utf8 x)) [
    | inl (y, failed) ↦ rw (failed, replay_from) refl
    | inr (j, passed) ↦ rw (passed, replay_from) (replay_from-relabelled pre post _ h)
  ]

  replay_rtmrs-relabelled :
      (pre post : List TdxEvent)
      → is_runtime e ≡ false
      → replay_rtmrs sha384 utf8 (pre ++ relabelled payload e ∷ post)
        ≡ replay_rtmrs sha384 utf8 (pre ++ e ∷ post)
  unfolding replay_rtmrs
  replay_rtmrs-relabelled pre post h = replay_from-relabelled pre post _ h

  -- An event that is not a runtime event can be given any name and payload without a change of what
  -- verifyEventLog reports.
  verify_event_log-relabelled :
      (quote : Bytes) (pre post : List TdxEvent)
      → is_runtime e ≡ false
      → verify_event_log sha384 utf8 quote (pre ++ relabelled payload e ∷ post)
        ≡ verify_event_log sha384 utf8 quote (pre ++ e ∷ post)
  unfolding verify_event_log
  verify_event_log-relabelled quote pre post h =
      elim (Option-cases (parse_tdx_measurements quote)) [
        | inl none_parsed ↦ rw (none_parsed, verify_event_log) refl
        | inr (m, parsed) ↦
            rw (parsed, verify_event_log) (rw (replay_rtmrs-relabelled pre post h) refl)
      ]

found_compose_hash :
    (payload : Text) (c : ℕ) (e : TdxEvent) (pre post : List TdxEvent)
    → find (λ x. x.event === codes "compose-hash") pre ≡ none
    → find (λ x. x.event === codes "compose-hash") (pre ++ relabelled (c ∷ payload) e ∷ post)
      ≡ some (relabelled (c ∷ payload) e)
found_compose_hash payload c e [] post h = refl
found_compose_hash payload c e (x ∷ pre) post h =
    ground (arith, h, found_compose_hash payload c e pre post)

-- An event that is not a runtime event, and stands before every event named compose-hash, can be made the
-- compose-hash event with any payload: what verifyEventLog reports is the same, and
-- composeHashFromEventLog returns the payload.
pub relabelled_compose_hash :
    (sha384 : Bytes → Bytes) (utf8 : Text → Bytes) (quote : Bytes) (c : ℕ) (payload : Text)
    (e : TdxEvent) (pre post : List TdxEvent)
    → is_runtime e ≡ false
    → find (λ x. x.event === codes "compose-hash") pre ≡ none
    → (verify_event_log sha384 utf8 quote (pre ++ relabelled (c ∷ payload) e ∷ post)
        ≡ verify_event_log sha384 utf8 quote (pre ++ e ∷ post))
      × (compose_hash_from_event_log (pre ++ relabelled (c ∷ payload) e ∷ post)
          ≡ some (normalize_hash (c ∷ payload)))
unfolding compose_hash_from_event_log
relabelled_compose_hash sha384 utf8 quote c payload e pre post h k = (
  verify_event_log-relabelled sha384 utf8 (c ∷ payload) e quote pre post h,
  rw (found_compose_hash payload c e pre post k, compose_hash_from_event_log) refl,
)
