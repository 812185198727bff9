-- ===== src/Profile/Build/Seeds.antt =====
-- profile.go: the profiles that buildProfiles makes, and the balances that their keys start with.
use api_key_rotator.Base.{
  ℕ, zero, suc, ◌+◌, ◌≤◌, ◌<◌, ◌≡◌, refl, sym, ◌∙◌, List, [], ◌∷◌, ◌++◌, some, arith, All,
  get_elem?, get_elem?-modify_self, get_elem?-modify_ne, length, map, Bool-cases, inl, inr, ◌==◌,
  get_elem?-lt, get_elem?_of_lt, length-modify, ap, some_inj,
}
use api_key_rotator.Base.Int.{ℤ, pos, pos_part}
use api_key_rotator.Base.Text.{Bytes, codes}
use api_key_rotator.Pool.State.{
  KeyPool, Slot, new_slot, unmeasured, new_key_pool, set_thresholds, set_max_concurrent,
}
use api_key_rotator.Pool.Credits.{measure, set_credits}
use api_key_rotator.Profile.State.{ProviderName, exa, fmp, alphavantage, marketaux, Profile}
use api_key_rotator.Config.State.{Config}
use api_key_rotator.Profile.Build.{
  seed, firecrawl_profile, tavily_profile, exa_profile, apify_profile, finance_profile, with_keys,
  other_profiles, build_profiles,
}

seed_keeps :
    (n i j : ℕ) (c : ℤ) (p : KeyPool)
    → j < i
    → get_elem? (seed n i c p).slots j ≡ get_elem? p.slots j
unfolding seed set_credits
seed_keeps zero i j c p h = refl
seed_keeps (suc n) i j c p h =
    seed_keeps n (suc i) j c (set_credits i c p) (omega (arith, h))
    ∙ get_elem?-modify_ne p.slots (measure (pos_part c)) (λ e. omega (arith, h, e))

seed_sets :
    (n i j : ℕ) (c : ℤ) (p : KeyPool) {s : Slot}
    → i ≤ j
    → j < i + n
    → get_elem? p.slots j ≡ some s
    → get_elem? (seed n i c p).slots j ≡ some (measure (pos_part c) s)
unfolding seed set_credits
seed_sets zero i j c p a b e = absurd (omega (arith, a, b))
seed_sets (suc n) i j c p a b e = elim (Bool-cases (j == i)) [
  | inl here ↦
      let same : i ≡ j = ground (arith, here) in
      rw same (
        seed_keeps n (suc j) j c (set_credits j c p) (omega arith)
        ∙ get_elem?-modify_self p.slots j (measure (pos_part c)) e)
  | inr later ↦
      seed_sets n (suc i) j c (set_credits i c p) (ground (arith, later, a)) (omega (arith, b)) (
        get_elem?-modify_ne p.slots (measure (pos_part c)) (λ same. ground (arith, later, same))
        ∙ e)
]

seed-length : (n i : ℕ) (c : ℤ) (p : KeyPool) → length (seed n i c p).slots ≡ length p.slots
unfolding seed set_credits
seed-length zero i c p = refl
seed-length (suc n) i c p =
    seed-length n (suc i) c (set_credits i c p) ∙ length-modify p.slots i (measure (pos_part c))

length-slots : (keys : List Bytes) → length (map new_slot keys) ≡ length keys
length-slots [] = refl
length-slots (k ∷ keys) = omega (arith, length-slots keys)

-- Every key of the pool has the balance `credits`.
abbrev pub Balanced : ℕ → KeyPool → Type 0
Balanced credits p = All (λ s. s.remaining_credits ≡ credits) p.slots

All-of_get_elem? {ℓ κ} :
    {A : Type ℓ} (P : A → Type κ) (xs : List A)
    → ((i : ℕ) (x : A) → get_elem? xs i ≡ some x → P x)
    → All P xs
All-of_get_elem? P [] h = tt
All-of_get_elem? P (x ∷ xs) h = (h 0 x refl, All-of_get_elem? P xs (λ i y e. h (suc i) y e))

seed-Balanced :
    (keys : List Bytes) (c : ℤ) (p : KeyPool)
    → length p.slots ≡ length keys
    → Balanced (pos_part c) (seed (length keys) 0 c p)
seed-Balanced keys c p l = All-of_get_elem? _ _ (λ j s e.
    let n = length keys in
    let inside = get_elem?-lt (seed n 0 c p).slots j e in
    let (t, at) = get_elem?_of_lt p.slots j (omega (arith, inside, seed-length n 0 c p)) in
    let set =
      seed_sets n 0 j c p (omega arith) (omega (arith, inside, l, seed-length n 0 c p)) at in
    ap (λ (t : Slot). t.remaining_credits) (some_inj (sym e ∙ set)))

new_slots-Balanced :
    (keys : List Bytes) → All (λ s. s.remaining_credits ≡ unmeasured) (map new_slot keys)
new_slots-Balanced [] = tt
new_slots-Balanced (k ∷ keys) = (refl, new_slots-Balanced keys)

-- The balance that the keys of a profile start with: the budget of Exa in micro-dollars, the daily
-- budget of the three daily-capped providers; the others are unmeasured.
abbrev pub first_balance : Config → ProviderName → ℕ
first_balance cfg exa = pos_part cfg.exa.budget_micro
first_balance cfg fmp = cfg.fmp.daily_budget
first_balance cfg alphavantage = cfg.alpha_vantage.daily_budget
first_balance cfg marketaux = cfg.marketaux.daily_budget
first_balance cfg _ = unmeasured

module _ {ℓ} (P : Profile → Type ℓ) where
  pub All-with_keys : (ks : List Bytes) (p : Profile) → P p → All P (with_keys ks p)
  All-with_keys [] p h = tt
  All-with_keys (k ∷ ks) p h = (h, tt)

  pub All-append : (ps qs : List Profile) → All P ps → All P qs → All P (ps ++ qs)
  All-append [] qs h k = k
  All-append (p ∷ ps) qs h k = (h.0, All-append ps qs h.1 k)

  -- What holds of the profiles that need keys of their own holds of those that follow Firecrawl.
  pub All-other_profiles :
      (cfg : Config)
      → P (tavily_profile cfg)
      → P (exa_profile cfg)
      → P (apify_profile cfg)
      → P (finance_profile fmp (codes "apikey") cfg.credit_reset_day cfg.fmp)
      → P (finance_profile alphavantage (codes "apikey") cfg.credit_reset_day cfg.alpha_vantage)
      → P (finance_profile marketaux (codes "api_token") cfg.credit_reset_day cfg.marketaux)
      → All P (other_profiles cfg)
  unfolding other_profiles
  All-other_profiles cfg b c d e f g =
      All-append (with_keys cfg.tavily.api_keys _) _ (All-with_keys _ _ b) (
        All-append (with_keys cfg.exa.api_keys _) _ (All-with_keys _ _ c) (
          All-append (with_keys cfg.apify.api_keys _) _ (All-with_keys _ _ d) (
            All-append (with_keys cfg.fmp.api_keys _) _ (All-with_keys _ _ e) (
              All-append (with_keys cfg.alpha_vantage.api_keys _) _ (All-with_keys _ _ f)
                (All-with_keys _ _ g)))))

-- Every key of every profile that buildProfiles makes starts with the balance of its provider: the
-- budget for Exa, FMP, Alpha Vantage and Marketaux, which have no endpoint to ask, and unmeasured
-- for the others.
pub build_profiles-Balanced :
    (cfg : Config) → All (λ p. Balanced (first_balance cfg p.name) p.pool) (build_profiles cfg)
unfolding build_profiles firecrawl_profile tavily_profile exa_profile apify_profile finance_profile
    new_key_pool set_thresholds set_max_concurrent
build_profiles-Balanced cfg = (
  new_slots-Balanced cfg.api_keys,
  All-other_profiles (λ p. Balanced (first_balance cfg p.name) p.pool) cfg
      (new_slots-Balanced cfg.tavily.api_keys)
      (seed-Balanced cfg.exa.api_keys cfg.exa.budget_micro _ (length-slots cfg.exa.api_keys))
      (new_slots-Balanced cfg.apify.api_keys)
      (seed-Balanced cfg.fmp.api_keys (pos cfg.fmp.daily_budget) _ (length-slots cfg.fmp.api_keys))
      (seed-Balanced cfg.alpha_vantage.api_keys (pos cfg.alpha_vantage.daily_budget) _
        (length-slots cfg.alpha_vantage.api_keys))
      (seed-Balanced cfg.marketaux.api_keys (pos cfg.marketaux.daily_budget) _
        (length-slots cfg.marketaux.api_keys)),
)
