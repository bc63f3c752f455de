-- ===== src/Attestation/Governance.antt =====
-- The governance of the app's builds, read from the chain and checked (src/attestation/app-governance.ts).
-- The reader answers typed calls, `none` being a call that rejects; addresses are texts in one spelling.
mod Tests
pub mod Checks
pub mod History
use zk_api.Common.{
  ℕ, zero, suc, ◌+◌, ◌-◌, ◌*◌, min, Bool, true, false, not, ◌&&◌, Option, none, some, List, [], ◌∷◌,
  ◌++◌, map, ltb, leb, if◌then◌else◌, or_else, filter, find, length, replicate,
}
use zk_api.Common.Dict.{Dict, lookup, insert}
use zk_api.Common.Eq.{◌===◌, text_eq}
use zk_api.Common.Text.{Text, codes}
use zk_api.Attestation.Quote.{normalize_hash}
use zk_api.Signal.{is_nil}

abbrev pub default_min_delay_seconds : ℕ
default_min_delay_seconds = 7 * 24 * 60 * 60

-- `ZeroAddress`
abbrev pub zero_address : Text
zero_address = codes "0x" ++ replicate 40 b'0'

pub record ComposeHashRecord : Type 0 where
  pub compose_hash : Text
  pub allowed : Bool
  pub added : List ℕ
  pub removed : List ℕ

pub record AppOwner : Type 0 where
  pub address : Text
  pub timelock : Text
  pub guardian : Text
  pub min_delay : ℕ
  pub timelock_self_administered : Bool

pub record Upgrade : Type 0 where
  pub implementation : Text
  pub block_number : ℕ

pub record AppGovernance : Type 0 where
  pub app : Text
  pub owner : Text
  pub pending_owner : Text
  pub require_tcb_up_to_date : Bool
  pub app_owner : Option AppOwner
  pub compose_hashes : List ComposeHashRecord
  pub upgrades : List Upgrade

pub data AppEvent : Type 0 where
  compose_hash_added compose_hash_removed upgraded : Text → AppEvent

-- A log, with what parseLog makes of it.
pub record Log : Type 0 where
  pub block_number : ℕ
  pub event : Option AppEvent

-- `ChainReader`, through `call` with the interfaces of the file.
pub record ChainReader : Type 0 where
  pub owner : Text → Option Text
  pub pending_owner : Text → Option Text
  pub require_tcb_up_to_date : Text → Option Bool
  pub app : Text → Option Text
  pub timelock : Text → Option Text
  pub guardian : Text → Option Text
  pub min_delay : Text → Option ℕ
  pub self_administered : Text → Option Bool
  pub allowed_compose_hashes : Text → Text → Option Bool
  pub block_number : Option ℕ
  pub logs : Text → ℕ → ℕ → Option (List Log)

abbrev pub and_then {ℓ} : {A B : Type ℓ} → Option A → (A → Option B) → Option B
and_then none f = none
and_then (some a) f = f a

-- The loop over block ranges, as its queries; `fuel` bounds the rounds.
unfoldable pub block_ranges : (fuel start block_range latest : ℕ) → List (ℕ × ℕ)
block_ranges zero start block_range latest = []
block_ranges (suc fuel) start block_range latest =
    let rest = block_ranges fuel (start + block_range) block_range latest in
    if leb start latest then (start, min (start + block_range - 1) latest) ∷ rest else []

module _ (reader : ChainReader) where
  -- `readTimelock`
  unfoldable pub read_timelock : Text → Option (ℕ × Bool)
  read_timelock timelock = and_then (reader.min_delay timelock) (λ min_delay.
      and_then (reader.self_administered timelock)
        (λ self_administered. some (min_delay, self_administered)))

  -- The owner that is a LongjingAppOwner of the app.
  unfoldable pub governed : Text → Text → Text → Option (Option AppOwner)
  unfolding read_timelock
  governed owner timelock guardian =
      and_then (read_timelock timelock) (λ (min_delay, self_administered). some (
        some (record {
          address = owner;
          timelock = timelock;
          guardian = guardian;
          min_delay = min_delay;
          timelock_self_administered = self_administered;
        })))

  -- `readAppOwner`: a call that rejects makes the owner none of its kind; one of readTimelock rejects.
  unfoldable pub read_app_owner : Text → Text → Option (Option AppOwner)
  unfolding governed
  read_app_owner app owner = elim (reader.app owner) [
    | none ↦ some none
    | some of_app ↦ elim (reader.timelock owner) [
      | none ↦ some none
      | some timelock ↦ elim (reader.guardian owner) [
        | none ↦ some none
        | some guardian ↦ if of_app === app then governed owner timelock guardian else some none
      ]
    ]
  ]

  -- The logs of the queries, one after another.
  unfoldable pub get_all_logs : Text → List (ℕ × ℕ) → Option (List Log)
  get_all_logs app [] = some []
  get_all_logs app ((from, to) ∷ ranges) =
      and_then (reader.logs app from to)
        (λ logs. and_then (get_all_logs app ranges) (λ rest. some (logs ++ rest)))

  -- `call(reader, app, DSTACK_APP, 'allowedComposeHashes', ...)` for each record.
  unfoldable pub read_allowed : Text → List ComposeHashRecord → Option (List ComposeHashRecord)
  read_allowed app [] = some []
  read_allowed app (r ∷ rs) =
      and_then (reader.allowed_compose_hashes app r.compose_hash) (λ allowed.
        and_then (read_allowed app rs) (λ rest. some (record r { allowed = allowed } ∷ rest)))

abbrev pub fresh_record : Text → ComposeHashRecord
fresh_record compose_hash = record {
  compose_hash = compose_hash;
  allowed = false;
  added = [];
  removed = [];
}

-- What the loop over the logs has gathered.
pub record Gathered : Type 0 where
  pub records : Dict Text ComposeHashRecord
  pub upgrades : List Upgrade

abbrev pub record_of : Text → Gathered → ComposeHashRecord
record_of compose_hash g = or_else (lookup compose_hash g.records) (fresh_record compose_hash)

-- One round of the loop over the logs.
unfoldable pub gather_log : Log → Gathered → Gathered
gather_log log g = elim log.event [
  | none ↦ g
  | some (upgraded implementation) ↦ record g {
    upgrades =
        g.upgrades
        ++ record { implementation = implementation; block_number = log.block_number } ∷ [];
  }
  | some (compose_hash_added h) ↦
      let r = record_of h g in
      record g {
        records = insert h (record r { added = r.added ++ log.block_number ∷ [] }) g.records;
      }
  | some (compose_hash_removed h) ↦
      let r = record_of h g in
      record g {
        records = insert h (record r { removed = r.removed ++ log.block_number ∷ [] }) g.records;
      }
]

unfoldable pub gather_logs : List Log → Gathered → Gathered
unfolding gather_log
gather_logs [] g = g
gather_logs (log ∷ logs) g = gather_logs logs (gather_log log g)

-- `readHistory`. A round moves the start by at least one block, so there are at most latest + 1 rounds.
unfoldable pub read_history :
    ChainReader
    → Text
    → (from_block block_range : ℕ) → Option (List ComposeHashRecord × List Upgrade)
unfolding block_ranges get_all_logs gather_logs read_allowed
read_history reader app from_block block_range = and_then reader.block_number (λ latest.
    and_then (get_all_logs reader app (block_ranges (suc latest) from_block block_range latest))
      (λ logs.
        let g = gather_logs logs (record { records = []; upgrades = [] }) in
        and_then (read_allowed reader app (map (λ entry. entry.1) g.records))
          (λ compose_hashes. some (compose_hashes, g.upgrades))))

-- `readAppGovernance`
unfoldable pub read_app_governance :
    ChainReader → Text → (from_block block_range : ℕ) → Option AppGovernance
unfolding read_history read_app_owner
read_app_governance reader app from_block block_range = and_then (reader.owner app) (λ owner.
    and_then (reader.pending_owner app) (λ pending_owner.
      and_then (reader.require_tcb_up_to_date app) (λ require_tcb_up_to_date.
        and_then (read_app_owner reader app owner) (λ app_owner.
          and_then (read_history reader app from_block block_range) (λ (compose_hashes, upgrades).
            some (record {
              app = app;
              owner = owner;
              pending_owner = pending_owner;
              require_tcb_up_to_date = require_tcb_up_to_date;
              app_owner = app_owner;
              compose_hashes = compose_hashes;
              upgrades = upgrades;
            }))))))

pub data Failure : Type 0 where
  not_behind_timelock tcb_not_required : Failure
  short_delay : ℕ → Failure
  running_not_allowed : Text → Failure

pub data Warning : Type 0 where
  not_self_administered no_guardian transfer_pending : Warning
  many_allowed : ℕ → Warning

abbrev pub list_if {ℓ} : {A : Type ℓ} → Bool → A → List A
list_if true a = a ∷ []
list_if false a = []

abbrev pub owner_failures : ℕ → Option AppOwner → List Failure
owner_failures min_delay none = not_behind_timelock ∷ []
owner_failures min_delay (some o) = list_if (ltb o.min_delay min_delay) (short_delay o.min_delay)

abbrev pub owner_warnings : Option AppOwner → List Warning
owner_warnings none = []
owner_warnings (some o) =
    list_if (not o.timelock_self_administered) not_self_administered
    ++ list_if (o.guardian === zero_address) no_guardian

-- `running?.allowed`
abbrev pub is_running_allowed : Text → List ComposeHashRecord → Bool
is_running_allowed compose_hash records =
    elim (find (λ r. r.compose_hash === normalize_hash compose_hash) records) [
      | none ↦ false
      | some r ↦ r.allowed
    ]

abbrev pub running_failures : Option Text → List ComposeHashRecord → List Failure
running_failures none records = []
running_failures (some []) records = []
running_failures (some (c ∷ s)) records =
    list_if (not (is_running_allowed (c ∷ s) records)) (running_not_allowed (c ∷ s))

-- `checkAppGovernance`
unfoldable pub check_app_governance : AppGovernance → ℕ → Option Text → List Failure × List Warning
unfolding normalize_hash
check_app_governance g min_delay compose_hash =
    let allowed = length (filter (λ r. r.allowed) g.compose_hashes) in
    (
      owner_failures min_delay g.app_owner
          ++ list_if (not g.require_tcb_up_to_date) tcb_not_required
          ++ running_failures compose_hash g.compose_hashes,
      owner_warnings g.app_owner
          ++ list_if (not (g.pending_owner === zero_address)) transfer_pending
          ++ list_if (ltb 1 allowed) (many_allowed allowed),
    )
