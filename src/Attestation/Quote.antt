-- ===== src/Attestation/Quote.antt =====
-- The measurements of a TDX quote and the replay of its event log (src/attestation/tdx-quote.ts, and
-- `composeHashFromEventLog` in src/attestation/app-governance.ts). SHA-384 and the UTF-8 bytes of a
-- name are parameters, and a log is the list of events that its JSON holds.
mod Tests
pub mod Replay
pub mod Authentic
pub mod Relabelling
use zk_api.Common.{
  ℕ, zero, suc, ◌+◌, ◌-◌, ◌≡◌, Bool, true, false, not, ◌&&◌, Option, none, some, List, [], ◌∷◌,
  ◌++◌, map, ltb, leb, ◌==◌, if◌then◌else◌, length, take, drop, replicate, get_elem?, find,
}
use zk_api.Common.Eq.{◌===◌, text_eq}
use zk_api.Common.Exec.{Result, ok, err}
use zk_api.Common.Int.{ℤ, pos, negsuc}
use zk_api.Common.Text.{Text, codes}
use zk_api.Attestation.{Bytes, to_hex, from_hex, uint32_le}
use zk_api.Config.{to_lower, without_0x}

abbrev pub quote_header_length : ℕ
quote_header_length = 48

abbrev pub measurement_length : ℕ
measurement_length = 48

abbrev pub mrtd_offset : ℕ
mrtd_offset = quote_header_length + 136

abbrev pub rtmr_offsets : List ℕ
rtmr_offsets = map (λ offset. quote_header_length + offset) (328 ∷ 376 ∷ 424 ∷ 472 ∷ [])

abbrev pub body_end : ℕ
body_end = quote_header_length + 584

abbrev pub runtime_event_type : ℕ
runtime_event_type = 0x08000001

pub record TdxEvent : Type 0 where
  pub imr : ℤ
  pub event_type : ℕ
  pub digest : Text
  pub event : Text
  pub event_payload : Text

pub record TdxMeasurements : Type 0 where
  pub mrtd : Text
  pub rtmrs : List Text

-- `quote.subarray(offset, offset + MEASUREMENT_LENGTH)`
unfoldable pub measurement : Bytes → ℕ → Bytes
measurement quote offset = take measurement_length (drop offset quote)

-- `parseTdxMeasurements`; `none` is its exception.
unfoldable pub parse_tdx_measurements : Bytes → Option TdxMeasurements
unfolding measurement to_hex
parse_tdx_measurements quote =
    if ltb (length quote) body_end
    then none
    else some (record {
      mrtd = to_hex (measurement quote mrtd_offset);
      rtmrs = map (λ offset. to_hex (measurement quote offset)) rtmr_offsets;
    })

pub data ReplayError : Type 0 where
  unknown_rtmr : ℤ → ReplayError
  long_digest : ReplayError
  wrong_runtime_digest : Text → ReplayError

-- A replay that fails, or the register that does not match.
pub data LogFailure : Type 0 where
  not_replayed : ReplayError → LogFailure
  rtmr_differs : ℕ → LogFailure

-- The index of a register, where the number is one.
abbrev pub register_of : ℤ → Option ℕ
register_of (pos n) = if leb n 3 then some n else none
register_of (negsuc n) = none

abbrev pub set_at : ℕ → Bytes → List Bytes → List Bytes
set_at i b [] = []
set_at zero b (r ∷ rs) = b ∷ rs
set_at (suc i) b (r ∷ rs) = r ∷ set_at i b rs

abbrev pub at : ℕ → List Bytes → Bytes
at i [] = []
at zero (r ∷ rs) = r
at (suc i) (r ∷ rs) = at i rs

-- A digest with its padding.
unfoldable pub padded : Text → Bytes
unfolding from_hex
padded digest =
    let bytes = from_hex digest in bytes ++ replicate (measurement_length - length bytes) 0

abbrev pub is_runtime : TdxEvent → Bool
is_runtime e = e.event_type == runtime_event_type

-- What the checks come to: whether the digest is too long, and whether it is not that of the event.
abbrev pub checked : TdxEvent → Bool → Bool → Option ℕ → Result ReplayError ℕ
checked e long wrong none = err (unknown_rtmr e.imr)
checked e true wrong (some i) = err long_digest
checked e false true (some i) = err (wrong_runtime_digest e.event)
checked e false false (some i) = ok i

module _ (sha384 : Bytes → Bytes) (utf8 : Text → Bytes) where
  -- `runtimeEventDigest`
  unfoldable pub runtime_event_digest : TdxEvent → Bytes
  unfolding from_hex
  runtime_event_digest e =
      sha384 (uint32_le e.event_type ++ b':' ∷ utf8 e.event ++ b':' ∷ from_hex e.event_payload)

  -- The checks of one round of the loop: the register that the event extends.
  unfoldable pub check_event : TdxEvent → Result ReplayError ℕ
  unfolding runtime_event_digest from_hex
  check_event e =
      checked e (ltb measurement_length (length (from_hex e.digest)))
        (is_runtime e && not (from_hex e.digest === runtime_event_digest e)) (register_of e.imr)

  abbrev pub extend : Bytes → Text → Bytes
  extend rtmr digest = sha384 (rtmr ++ padded digest)

  -- The loop of `replayRtmrs`.
  unfoldable pub replay_from : List TdxEvent → List Bytes → Result ReplayError (List Bytes)
  unfolding check_event
  replay_from [] rtmrs = ok rtmrs
  replay_from (e ∷ es) rtmrs = elim (check_event e) [
    | err x ↦ err x
    | ok i ↦ replay_from es (set_at i (extend (at i rtmrs) e.digest) rtmrs)
  ]

  unfoldable pub replay_rtmrs : List TdxEvent → Result ReplayError (List Bytes)
  unfolding replay_from
  replay_rtmrs events = replay_from events (replicate 4 (replicate measurement_length 0))

  -- `rtmrs.flatMap`, from the index i on.
  abbrev pub differing : ℕ → List Text → List Bytes → List LogFailure
  differing i [] replayed = []
  differing i (r ∷ rs) [] = rtmr_differs i ∷ differing (suc i) rs []
  differing i (r ∷ rs) (b ∷ bs) =
      let rest = differing (suc i) rs bs in if r === to_hex b then rest else rtmr_differs i ∷ rest

  -- `verifyEventLog`; `none` is the exception of parseTdxMeasurements.
  unfoldable pub verify_event_log : Bytes → List TdxEvent → Option (List LogFailure)
  unfolding parse_tdx_measurements replay_rtmrs
  verify_event_log quote events = elim (parse_tdx_measurements quote) [
    | none ↦ none
    | some m ↦ elim (replay_rtmrs events) [
      | err e ↦ some (not_replayed e ∷ [])
      | ok replayed ↦ some (differing 0 m.rtmrs replayed)
    ]
  ]

-- `normalizeHash`
unfoldable pub normalize_hash : Text → Text
normalize_hash hash = codes "0x" ++ map to_lower (without_0x hash)

-- `composeHashFromEventLog`, of a log that is an array.
unfoldable pub compose_hash_from_event_log : List TdxEvent → Option Text
unfolding normalize_hash
compose_hash_from_event_log events = elim (find (λ e. e.event === codes "compose-hash") events) [
  | none ↦ none
  | some e ↦ elim e.event_payload [ [] ↦ none | c ∷ s ↦ some (normalize_hash (c ∷ s)) ]
]
