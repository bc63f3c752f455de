-- ===== src/Attestation/Governance/Tests.antt =====
-- Instances on an app with one build.
use zk_api.Common.{
  ℕ, suc, ◌-◌, ◌≡◌, refl, ◌↔◌, true, none, some, List, [], ◌∷◌, ◌++◌, map, sym, ap, ◌∙◌, arith,
}
use zk_api.Common.Text.{codes}
use zk_api.Attestation.Governance.{
  AppGovernance, AppOwner, ChainReader, Log, check_app_governance, block_ranges, read_history,
  default_min_delay_seconds, zero_address, compose_hash_added,
}
use zk_api.Attestation.Governance.Checks.{IsDelayed, RunsAllowed, check_app_governance_sound}
use zk_api.Attestation.Governance.History.{
  blocks-split, Splits, blocks, covered, covered-block_ranges, read_history_any_range,
}

abbrev app_owner : AppOwner
app_owner = record {
  address = codes "0x0a";
  timelock = codes "0x0b";
  guardian = codes "0x0c";
  min_delay = 604800;
  timelock_self_administered = true;
}

abbrev governance : AppGovernance
governance = record {
  app = codes "0x01";
  owner = codes "0x0a";
  pending_owner = zero_address;
  require_tcb_up_to_date = true;
  app_owner = some app_owner;
  compose_hashes =
      record { compose_hash = codes "0xff"; allowed = true; added = 3 ∷ []; removed = [] } ∷ [];
  upgrades = [];
}

check_app_governance_sound_example :
    ((check_app_governance governance default_min_delay_seconds (some (codes "FF"))).0 ≡ []) ↔ (
      IsDelayed default_min_delay_seconds (some app_owner)
      × (true ≡ true)
      × RunsAllowed (some (codes "FF")) governance.compose_hashes)
check_app_governance_sound_example =
    check_app_governance_sound governance default_min_delay_seconds (some (codes "FF"))

covered-block_ranges_example : covered (block_ranges 26 3 10 25) ≡ blocks 3 (suc 25 - 3)
covered-block_ranges_example = covered-block_ranges 10 25 (omega arith) 26 3 (omega arith)

-- A reader of a chain with one log in each block.
abbrev log_of : ℕ → Log
log_of n = record { block_number = n; event = some (compose_hash_added (codes "0xff")) }

abbrev logs : ℕ → ℕ → List Log
logs from to = map log_of (blocks from (suc to - from))

abbrev reader : ChainReader
reader = record {
  owner = λ a. none;
  pending_owner = λ a. none;
  require_tcb_up_to_date = λ a. none;
  app = λ a. none;
  timelock = λ a. none;
  guardian = λ a. none;
  min_delay = λ a. none;
  self_administered = λ a. none;
  allowed_compose_hashes = λ a h. some true;
  block_number = some 25;
  logs = λ a from to. some (logs from to);
}

map-append : (xs ys : List ℕ) → map log_of (xs ++ ys) ≡ map log_of xs ++ map log_of ys
map-append [] ys = refl
map-append (x ∷ xs) ys = ap (λ zs. log_of x ∷ zs) (map-append xs ys)

reader-Splits : Splits reader.logs (codes "0x01")
reader-Splits a b c h k = ap some (
    ap (map log_of) (sym (blocks-split a b c h k))
    ∙ map-append (blocks a (suc b - a)) (blocks (suc b) (suc c - suc b)))

read_history_any_range_test :
    read_history reader (codes "0x01") 3 10 ≡ read_history reader (codes "0x01") 3 1000
read_history_any_range_test =
    read_history_any_range reader (codes "0x01") 3 10 1000 reader-Splits (omega arith) (omega arith)
