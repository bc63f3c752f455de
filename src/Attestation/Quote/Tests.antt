-- ===== src/Attestation/Quote/Tests.antt =====
-- Instances with a hash of constant value, on a quote whose first register was extended once.
use zk_api.Common.{
  ℕ, zero, suc, ◌<◌, ◌≡◌, refl, ◌⊎◌, some, List, [], ◌∷◌, ◌++◌, arith, replicate, All,
}
use zk_api.Common.Exec.{ok}
use zk_api.Common.Int.{pos}
use zk_api.Common.Text.{Text, codes}
use zk_api.Attestation.{Bytes, to_hex, from_hex}
use zk_api.Attestation.Quote.{
  TdxEvent, at, check_event, replay_from, replay_rtmrs, verify_event_log, parse_tdx_measurements,
  measurement, normalize_hash, compose_hash_from_event_log,
}
use zk_api.Attestation.Quote.Authentic.{Broken, verified_logs_agree}
use zk_api.Attestation.Quote.Relabelling.{relabelled, relabelled_compose_hash}
use zk_api.Attestation.Quote.Replay.{extended, chain, replay_rtmrs-chain}

abbrev hash : Bytes → Bytes
hash b = replicate 48 1

abbrev utf8 : Text → Bytes
utf8 t = t

abbrev boot_event : TdxEvent
boot_event = record {
  imr = pos 0;
  event_type = 1;
  digest = codes "ab";
  event = codes "kernel";
  event_payload = [];
}

abbrev other_event : TdxEvent
other_event = record boot_event { digest = codes "cd01" }

abbrev out : List Bytes
out = replicate 48 1 ∷ replicate 3 (replicate 48 0)

boot_replayed : replay_rtmrs hash utf8 (boot_event ∷ []) ≡ ok out
unfolding replay_rtmrs replay_from check_event from_hex
boot_replayed = refl

replay_rtmrs-chain_test : at 0 out ≡ chain hash utf8 (extended 0 (boot_event ∷ []))
replay_rtmrs-chain_test =
    replay_rtmrs-chain hash utf8 (boot_event ∷ []) out 0 (omega arith) boot_replayed

abbrev quote : Bytes
quote = replicate 376 0 ++ (replicate 48 1 ++ replicate 208 0)

boot_verified : verify_event_log hash utf8 quote (boot_event ∷ []) ≡ some []
unfolding verify_event_log parse_tdx_measurements measurement to_hex replay_rtmrs replay_from
    check_event from_hex
boot_verified = refl

other_verified : verify_event_log hash utf8 quote (other_event ∷ []) ≡ some []
unfolding verify_event_log parse_tdx_measurements measurement to_hex replay_rtmrs replay_from
    check_event from_hex
other_verified = refl

hash_bytes : (b : Bytes) → All (λ n. n < 256) (hash b)
hash_bytes b = ones 48
  where
    ones : (n : ℕ) → All (λ m. m < 256) (replicate n 1)
    ones zero = tt
    ones (suc n) = (omega arith, ones n)

verified_logs_agree_example :
    (extended 0 (boot_event ∷ []) ≡ extended 0 (other_event ∷ [])) ⊎ Broken hash utf8
verified_logs_agree_example =
    verified_logs_agree hash utf8 hash_bytes quote (boot_event ∷ []) (other_event ∷ []) 0
      boot_verified other_verified (omega arith)

relabelled_compose_hash_example :
    (verify_event_log hash utf8 quote (relabelled (codes "0a") boot_event ∷ other_event ∷ [])
      ≡ verify_event_log hash utf8 quote (boot_event ∷ other_event ∷ []))
    × (compose_hash_from_event_log (relabelled (codes "0a") boot_event ∷ other_event ∷ [])
        ≡ some (normalize_hash (codes "0a")))
relabelled_compose_hash_example =
    relabelled_compose_hash hash utf8 quote b'0' (codes "a") boot_event [] (other_event ∷ []) refl
      refl
