-- ===== src/Pricing/Repository/Upsert.antt =====
-- What an update leaves (`upsertPricing` in src/pricing/pricing.repository.ts).
use zk_api.Common.{
  ℕ, suc, ◌≤◌, ◌<◌, ◌≡◌, refl, ap, ◌∙◌, inl, inr, Bool, true, false, ◌&&◌, Option, none, some, List,
  [], ◌∷◌, ◌++◌, map, arith, ltb, if◌then◌else◌, is_some, filter, All, Bool-cases, Option-cases,
  length, length-append, filter-map, ◌+◌,
}
use zk_api.Common.Eq.{text_eq, text_beq_iff}
use zk_api.Common.Text.{Text}
use zk_api.Pricing.Oracle.{PricingModel}
use zk_api.Pricing.Repository.{
  PricingModelRow, given, is_endpoint, is_for, is_active, is_open, later, latest, select,
  get_pricing, close_if, close_open, upsert_pricing,
}
use zk_api.Pricing.Repository.Lookup.{get_pricing-IsRightPrice}

-- Rows with an end, that hold at the time `now`.
abbrev pub is_bounded : ℕ → Text → Option Text → PricingModel → Bool
is_bounded now provider_id endpoint m =
    is_for provider_id endpoint m && is_active now m && is_some m.effective_until

abbrev pub StartsBefore : PricingModel → PricingModelRow → Type 0
StartsBefore m r = ltb r.model.effective_from m.effective_from ≡ true

module _ (selected : PricingModel → Bool) (new : PricingModelRow) where
  latest-append :
      (rows : List PricingModelRow)
      → All (StartsBefore new.model) (filter (λ r. selected r.model) rows)
      → selected new.model ≡ true
      → latest selected (rows ++ new ∷ []) ≡ some new.model
  unfolding latest
  latest-append [] h k = ground arith
  latest-append (r ∷ rs) h k = elim (Bool-cases (selected r.model)) [
    | inl chosen ↦ ground (arith, chosen, k, h, latest-append rs)
    | inr out ↦ ground (arith, out, k, h, latest-append rs)
  ]

  latest-append_out :
      (rows : List PricingModelRow)
      → filter (λ r. selected r.model) rows ≡ []
      → selected new.model ≡ false
      → latest selected (rows ++ new ∷ []) ≡ none
  unfolding latest
  latest-append_out [] h k = ground arith
  latest-append_out (r ∷ rs) h k = ground (arith, latest-append_out rs)

abbrev pub selects : ℕ → Text → Option Text → PricingModelRow → Bool
selects now provider_id endpoint r = is_for provider_id endpoint r.model && is_active now r.model

abbrev pub bounds : ℕ → Text → Option Text → PricingModelRow → Bool
bounds now provider_id endpoint r = is_bounded now provider_id endpoint r.model

module _ (now later_now : ℕ) (later_h : now ≤ later_now) (provider_id : Text)
    (endpoint : Option Text) where
  -- Among the closed rows only the bounded ones are still selected.
  closed_row :
      (r : PricingModelRow)
      → let c = close_if (is_open provider_id endpoint r.model) now r in
        ((is_for provider_id endpoint c.model && is_active later_now c.model)
          ≡ is_bounded later_now provider_id endpoint r.model)
        × (c.model.effective_from ≡ r.model.effective_from)
  closed_row r = ground arith

  selects-close :
      (rows : List PricingModelRow)
      → filter (selects later_now provider_id endpoint) (close_open now provider_id endpoint rows)
        ≡ map
            (λ r. close_if (is_open provider_id endpoint r.model) now r)
            (filter (bounds later_now provider_id endpoint) rows)
  unfolding close_open
  selects-close rows =
      filter-map (selects later_now provider_id endpoint) (bounds later_now provider_id endpoint)
        (λ r. close_if (is_open provider_id endpoint r.model) now r) (λ r. (closed_row r).0) rows

  closed_start :
      (m : PricingModel) (rows : List PricingModelRow)
      → All (StartsBefore m) rows
      → All (StartsBefore m) (map (λ r. close_if (is_open provider_id endpoint r.model) now r) rows)
  closed_start m [] h = tt
  closed_start m (r ∷ rs) h = (ground (arith, h.0, closed_row r), closed_start m rs h.1)

module _ (now : ℕ) (m : PricingModel) (rows : List PricingModelRow) where
  abbrev inserted : PricingModelRow
  inserted = record { id = suc (length rows); model = m; created_at = now; updated_at = now }

  abbrev closed : List PricingModelRow
  closed =
      if is_some (get_pricing now m.provider_id m.endpoint rows)
      then close_open now m.provider_id (given m.endpoint) rows
      else rows

  upsert-closed : upsert_pricing now m rows ≡ closed ++ inserted ∷ []
  unfolding upsert_pricing
  upsert-closed = refl

  -- Where no price is found, no row of the endpoint is active.
  unfound :
      get_pricing now m.provider_id m.endpoint rows ≡ none
      → filter (selects now m.provider_id (given m.endpoint)) rows ≡ []
  unfound h =
      let right = get_pricing-IsRightPrice now m.provider_id m.endpoint rows in (rw h at (right)).0

  closed_starts :
      All (StartsBefore m) (filter (bounds now m.provider_id (given m.endpoint)) rows)
      → All (StartsBefore m) (filter (selects now m.provider_id (given m.endpoint)) closed)
  closed_starts h = elim (Option-cases (get_pricing now m.provider_id m.endpoint rows)) [
    | inl none_found ↦ rw (none_found) (rw (unfound none_found) tt)
    | inr (old, found) ↦ rw (found) (
        rw (selects-close now now (omega arith) m.provider_id (given m.endpoint) rows)
          (closed_start now now (omega arith) m.provider_id (given m.endpoint) m _ h))
  ]

length-map : {A B : Type 0} (f : A → B) (xs : List A) → length (map f xs) ≡ length xs
length-map f [] = refl
length-map f (x ∷ xs) = ap suc (length-map f xs)

length-closed :
    (now : ℕ) (m : PricingModel) (rows : List PricingModelRow)
    → length (closed now m rows) ≡ length rows
unfolding close_open
length-closed now m rows = elim (Option-cases (get_pricing now m.provider_id m.endpoint rows)) [
  | inl none_found ↦ rw (none_found) refl
  | inr (old, found) ↦ rw (found) (length-map _ rows)
]

pub length-upsert_pricing :
    (now : ℕ) (m : PricingModel) (rows : List PricingModelRow)
    → length (upsert_pricing now m rows) ≡ length rows + 1
unfolding upsert_pricing
length-upsert_pricing now m rows =
    length-append (closed now m rows) (inserted now m rows ∷ [])
    ∙ ap (λ n. n + 1) (length-closed now m rows)

select-get_pricing :
    (now : ℕ) (provider_id : Text) (endpoint : Option Text) (rows : List PricingModelRow)
    (m : PricingModel)
    → select now provider_id (given endpoint) rows ≡ some m
    → get_pricing now provider_id endpoint rows ≡ some m
unfolding get_pricing
select-get_pricing now provider_id endpoint rows m h = elim (Option-cases (given endpoint)) [
  | inl e ↦ ground (arith, e, h)
  | inr (t, e) ↦ ground (arith, e, h)
]

is_endpoint_self : (endpoint : Option Text) → is_endpoint endpoint endpoint ≡ true
is_endpoint_self none = refl
is_endpoint_self (some e) = (text_beq_iff e e).1 refl

is_for_self : (m : PricingModel) → is_for m.provider_id m.endpoint m ≡ true
is_for_self m =
    ground (arith, is_endpoint_self m.endpoint, text_beq_iff m.provider_id m.provider_id)

-- An active price that is stored is the price found at once, provided that no active row of its endpoint
-- that has an end starts as late, and that the endpoint is not an empty text.
pub upsert_pricing-get_pricing :
    (now : ℕ) (m : PricingModel) (rows : List PricingModelRow)
    → is_active now m ≡ true
    → given m.endpoint ≡ m.endpoint
    → All (StartsBefore m) (filter (bounds now m.provider_id (given m.endpoint)) rows)
    → get_pricing now m.provider_id m.endpoint (upsert_pricing now m rows) ≡ some m
unfolding upsert_pricing
upsert_pricing-get_pricing now m rows active same h =
    select-get_pricing now m.provider_id m.endpoint (upsert_pricing now m rows) m (
      latest-append (λ n. is_for m.provider_id (given m.endpoint) n && is_active now n)
        (inserted now m rows) (closed now m rows) (closed_starts now m rows h)
        (rw (same) (ground (arith, active, is_for_self m))))

-- Storing a price of the provider that starts later ends the price found now: until the new one starts there
-- is no price, unless a row that has an end is active.
pub future_price_leaves_gap :
    (now now' : ℕ) (m : PricingModel) (rows : List PricingModelRow)
    → now ≤ now'
    → now' < m.effective_from
    → m.endpoint ≡ none
    → is_some (get_pricing now m.provider_id m.endpoint rows) ≡ true
    → filter (bounds now' m.provider_id none) rows ≡ []
    → get_pricing now' m.provider_id none (upsert_pricing now m rows) ≡ none
unfolding upsert_pricing get_pricing
future_price_leaves_gap now now' m rows h later e found bounded = rw (found) (
    latest-append_out (λ n. is_for m.provider_id none n && is_active now' n) (inserted now m rows)
      (close_open now m.provider_id (given m.endpoint) rows)
      (rw (e) (selects-close now now' h m.provider_id none rows ∙ rw (bounded) refl))
      (ground (arith, later)))
