-- ===== src/Attestation/Governance/Checks.antt =====
-- When the checks of the governance find no failure (`checkAppGovernance` in
-- src/attestation/app-governance.ts).
use zk_api.Common.{
  append_empty, ◌≤◌, ◌≢◌, find, Bool-cases, inl, inr, ℕ, ◌≡◌, refl, ◌↔◌, Bool, true, false, Option,
  none, some, List, [], ◌∷◌, ◌++◌, map, arith,
}
use zk_api.Common.Eq.{◌===◌, text_eq, text_beq_iff}
use zk_api.Common.Text.{Text, codes}
use zk_api.Attestation.Quote.{normalize_hash}
use zk_api.Config.{to_lower, without_0x}
use zk_api.Attestation.Governance.{
  AppGovernance, AppOwner, ComposeHashRecord, owner_failures, running_failures,
  check_app_governance,
}

-- The first record of a build says that it is allowed.
pub data IsAllowed (hash : Text) : List ComposeHashRecord → Type 0 where
  here :
      (r : ComposeHashRecord) (records : List ComposeHashRecord)
      → r.compose_hash ≡ hash
      → r.allowed ≡ true
      → IsAllowed hash (r ∷ records)
  there :
      (r : ComposeHashRecord) (records : List ComposeHashRecord)
      → r.compose_hash ≢ hash
      → IsAllowed hash records
      → IsAllowed hash (r ∷ records)

-- The running build, where it is known, is one that the app allows.
abbrev pub RunsAllowed : Option Text → List ComposeHashRecord → Type 0
RunsAllowed none records = Unit
RunsAllowed (some []) records = Unit
RunsAllowed (some (c ∷ s)) records =
    IsAllowed (codes "0x" ++ map to_lower (without_0x (c ∷ s))) records

-- The owner is a LongjingAppOwner of the app, and its timelock is at least this long.
abbrev pub IsDelayed : ℕ → Option AppOwner → Type 0
IsDelayed min_delay o = (owner : AppOwner) × (o ≡ some owner) × (min_delay ≤ owner.min_delay)

owner_ok : (d : ℕ) (o : Option AppOwner) → (owner_failures d o ≡ []) ↔ IsDelayed d o
owner_ok d none = ((λ h. ground arith), λ (o, e, le). ground arith)
owner_ok d (some o) = (
  (λ h. (o, refl, ground arith)),
  λ (owner, e, le). let same : o ≡ owner = ground arith in rw same (ground arith),
)

abbrev allowed_in : Text → List ComposeHashRecord → Bool
allowed_in hash records = elim (find (λ r. r.compose_hash === hash) records) [
  | none ↦ false
  | some r ↦ r.allowed
]

found : (hash : Text) (rs : List ComposeHashRecord) → allowed_in hash rs ≡ true → IsAllowed hash rs
found hash [] h = ground arith
found hash (r ∷ rs) h = elim (Bool-cases (r.compose_hash === hash)) [
  | inl same ↦ here r rs ((text_beq_iff r.compose_hash hash).0 same) (ground arith)
  | inr other ↦
      there r rs (λ e. ground (arith, (text_beq_iff r.compose_hash hash).1 e))
        (found hash rs (ground arith))
]

find-IsAllowed :
    (hash : Text) (rs : List ComposeHashRecord) → IsAllowed hash rs → allowed_in hash rs ≡ true
find-IsAllowed hash _ (here r rs e a) =
    let same : (r.compose_hash === hash) ≡ true = (text_beq_iff r.compose_hash hash).1 e in
    ground arith
find-IsAllowed hash _ (there r rs e a) = elim (Bool-cases (r.compose_hash === hash)) [
  | inl same ↦ absurd (e ((text_beq_iff r.compose_hash hash).0 same))
  | inr other ↦ let rest = find-IsAllowed hash rs a in ground arith
]

running_ok :
    (h : Option Text) (rs : List ComposeHashRecord)
    → (running_failures h rs ≡ []) ↔ RunsAllowed h rs
unfolding normalize_hash
running_ok none rs = ((λ h. tt), λ a. refl)
running_ok (some []) rs = ((λ h. tt), λ a. refl)
running_ok (some (c ∷ s)) rs = (
  (λ h. found (normalize_hash (c ∷ s)) rs (ground arith)),
  λ a. rw (find-IsAllowed (normalize_hash (c ∷ s)) rs a) refl,
)

-- No check fails exactly where the owner is a LongjingAppOwner of the app whose timelock is at least as long
-- as required, TCBs must be up to date, and the first record of the running build, where it is known, says that
-- it is allowed.
pub check_app_governance_sound :
    (g : AppGovernance) (min_delay : ℕ) (compose_hash : Option Text)
    → ((check_app_governance g min_delay compose_hash).0 ≡ []) ↔ (
        IsDelayed min_delay g.app_owner
        × (g.require_tcb_up_to_date ≡ true)
        × RunsAllowed compose_hash g.compose_hashes)
unfolding check_app_governance
check_app_governance_sound g d h = (
  λ e.
      let (ab, c) = append_empty _ (running_failures h g.compose_hashes) e in
      let (a, b) = append_empty (owner_failures d g.app_owner) _ ab in
      ((owner_ok d g.app_owner).0 a, ground (arith, b), (running_ok h g.compose_hashes).0 c),
  λ (a, b, c).
      rw ((owner_ok d g.app_owner).1 a) (rw (b) (rw ((running_ok h g.compose_hashes).1 c) refl)),
)
