-- ===== src/Attestation/Governance/History.antt =====
-- The block ranges of the history (`readHistory` in src/attestation/app-governance.ts).
use zk_api.Common.{
  not_leb, ℕ, zero, suc, ◌+◌, ◌-◌, ◌≤◌, ◌<◌, ◌≡◌, refl, sym, ap, ◌∙◌, inl, inr, true, false, Option,
  none, some, List, [], ◌∷◌, ◌++◌, arith, min, leb, if◌then◌else◌, Bool-cases, Option-cases,
  append-nil, leb→le,
}
use zk_api.Common.Text.{Text}
use zk_api.Attestation.Governance.{
  ChainReader, Log, and_then, block_ranges, get_all_logs, read_history,
}

-- The n blocks from a on.
abbrev pub blocks : ℕ → ℕ → List ℕ
blocks a zero = []
blocks a (suc n) = a ∷ blocks (suc a) n

-- The blocks that the queries cover.
abbrev pub covered : List (ℕ × ℕ) → List ℕ
covered [] = []
covered ((from, to) ∷ ranges) = blocks from (suc to - from) ++ covered ranges

blocks_eq : (a b n m : ℕ) → a ≡ b → n ≡ m → blocks a n ≡ blocks b m
blocks_eq a b n m h k = rw (h, k) refl

blocks-append : (a n m : ℕ) → blocks a n ++ blocks (a + n) m ≡ blocks a (n + m)
blocks-append a zero m = blocks_eq (a + 0) a m (0 + m) (omega arith) (omega arith)
blocks-append a (suc n) m =
    ap (λ bs. a ∷ (blocks (suc a) n ++ bs))
      (blocks_eq (a + suc n) (suc a + n) m m (omega arith) refl)
    ∙ ap (λ bs. a ∷ bs) (blocks-append (suc a) n m)
    ∙ blocks_eq a a (suc (n + m)) (suc n + m) refl (omega arith)

pub blocks-split :
    (a b c : ℕ)
    → a ≤ b
    → b < c
    → blocks a (suc b - a) ++ blocks (suc b) (suc c - suc b) ≡ blocks a (suc c - a)
blocks-split a b c h k =
    ap (λ bs. blocks a (suc b - a) ++ bs)
      (blocks_eq (suc b) (a + (suc b - a)) _ _ (omega (arith, h)) refl)
    ∙ blocks-append a (suc b - a) (suc c - suc b)
    ∙ blocks_eq a a _ _ refl (omega (arith, h, k))

-- One query and the blocks that the rest covers.
joined :
    (start block_range latest : ℕ)
    → 0 < block_range
    → start ≤ latest
    → blocks start (suc (min (start + block_range - 1) latest) - start)
        ++ blocks (start + block_range) (suc latest - (start + block_range))
      ≡ blocks start (suc latest - start)
joined start r latest p h = elim (Bool-cases (leb (start + r) latest)) [
  | inl more ↦
      let within : start + r ≤ latest = leb→le (start + r) latest more in
      let size : suc (min (start + r - 1) latest) - start ≡ r = omega (arith, within, p) in
      rw (size) (
        blocks-append start r (suc latest - (start + r))
        ∙ blocks_eq start start _ _ refl (omega (arith, within)))
  | inr last ↦
      let past : latest < start + r = omega (arith, not_leb (start + r) latest last) in
      let none_left : suc latest - (start + r) ≡ 0 = omega (arith, past) in
      let size : suc (min (start + r - 1) latest) - start ≡ suc latest - start =
        omega (arith, past, p, h) in
      rw (none_left, size) (append-nil _)
]

module _ (block_range latest : ℕ) (positive : 0 < block_range) where
  -- With as many rounds as blocks, the queries cover each block from the first to the latest once, in order.
  pub covered-block_ranges :
      (fuel start : ℕ)
      → latest < start + fuel
      → covered (block_ranges fuel start block_range latest) ≡ blocks start (suc latest - start)
  unfolding block_ranges
  covered-block_ranges zero start h =
      sym (blocks_eq start start (suc latest - start) 0 refl (omega arith))
  covered-block_ranges (suc fuel) start h = elim (Bool-cases (leb start latest)) [
    | inr past ↦ rw (past) (
        sym (
          blocks_eq start start (suc latest - start) 0 refl
            (omega (arith, not_leb start latest past))))
    | inl within ↦ rw (within) (
        ap (λ bs. blocks start (suc (min (start + block_range - 1) latest) - start) ++ bs)
          (covered-block_ranges fuel (start + block_range) (omega (arith, h, positive)))
        ∙ joined start block_range latest positive (leb→le start latest within))
  ]

-- `getLogs` of a range gives the logs of its first blocks and then those of the others.
abbrev pub Splits : (Text → ℕ → ℕ → Option (List Log)) → Text → Type 0
Splits logs app =
    (a b c : ℕ)
    → a ≤ b
    → b < c
    → logs app a c
      ≡ and_then (logs app a b) (λ x. and_then (logs app (suc b) c) (λ y. some (x ++ y)))

module _ (reader : ChainReader) (app : Text) (splits : Splits reader.logs app) where
  -- One query for all blocks, where there are any.
  abbrev single : ℕ → ℕ → Option (List Log)
  single start latest = if leb start latest then reader.logs app start latest else some []

  and_then_nil : (o : Option (List Log)) → and_then o (λ x. some (x ++ [])) ≡ o
  and_then_nil none = refl
  and_then_nil (some x) = ap some (append-nil x)

  first_query :
      (r latest start : ℕ)
      → 0 < r
      → leb start latest ≡ true
      → and_then
          (reader.logs app start (min (start + r - 1) latest))
          (λ logs. and_then (single (start + r) latest) (λ rest. some (logs ++ rest)))
        ≡ reader.logs app start latest
  first_query r latest start p within = elim (Bool-cases (leb (start + r) latest)) [
    | inl more ↦
        let room : start + r ≤ latest = leb→le (start + r) latest more in
        let end : min (start + r - 1) latest ≡ start + r - 1 = omega (arith, room, p) in
        let next : suc (start + r - 1) ≡ start + r = omega (arith, p) in
        let whole =
          splits start (start + r - 1) latest (omega (arith, p)) (omega (arith, room, p)) in
        rw (end, more) (sym (rw next at (whole)))
    | inr last ↦
        let past : latest < start + r = not_leb (start + r) latest last in
        let end : min (start + r - 1) latest ≡ latest = omega (arith, past, p) in
        rw (end, last) (and_then_nil (reader.logs app start latest))
  ]

  get_all_logs-block_ranges :
      (block_range latest fuel start : ℕ)
      → 0 < block_range
      → latest < start + fuel
      → get_all_logs reader app (block_ranges fuel start block_range latest) ≡ single start latest
  unfolding get_all_logs block_ranges
  get_all_logs-block_ranges r latest zero start p h =
      let past : leb start latest ≡ false = ground (arith, h) in rw (past) refl
  get_all_logs-block_ranges r latest (suc fuel) start p h = elim (Bool-cases (leb start latest)) [
    | inr past ↦ rw (past) refl
    | inl within ↦ rw (within) (
        ap
          (λ o.
            and_then (reader.logs app start (min (start + r - 1) latest))
              (λ logs. and_then o (λ rest. some (logs ++ rest))))
          (get_all_logs-block_ranges r latest fuel (start + r) p (omega (arith, h, p)))
        ∙ first_query r latest start p within)
  ]

-- The history that is read does not depend on the number of blocks of a query, where getLogs of a range
-- gives the logs of its first blocks and then those of the others.
pub read_history_any_range :
    (reader : ChainReader) (app : Text) (from_block block_range block_range' : ℕ)
    → Splits reader.logs app
    → 0 < block_range
    → 0 < block_range'
    → read_history reader app from_block block_range
      ≡ read_history reader app from_block block_range'
unfolding read_history
read_history_any_range reader app from r r' splits p p' = elim (Option-cases reader.block_number) [
  | inl e ↦ rw (e, read_history) refl
  | inr (latest, e) ↦
      rw (e, read_history)
        (rw
          (
            get_all_logs-block_ranges reader app splits r latest (suc latest) from p (omega arith),
            get_all_logs-block_ranges reader app splits r' latest (suc latest) from p'
                (omega arith),
          )
          refl)
]
