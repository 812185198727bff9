-- ===== src/Proxy/Serve/Price.antt =====
-- proxy.go, costOf: the price of an answer, and what a success makes of the slot of its key.
use api_key_rotator.Base.{
  ℕ, zero, suc, ◌+◌, ◌≡◌, refl, ap, ◌∙◌, Bool, true, false, ◌^◌, ◌*◌, ◌-◌, not, ◌&&◌, ◌||◌, Option,
  none, some, leb, ◌==◌, if◌then◌else◌, get_elem?, Bool-cases, inl, inr, arith,
}
use api_key_rotator.Base.Text.{Bytes}
use api_key_rotator.Pool.State.{KeyPool, Slot, unmeasured}
use api_key_rotator.Pool.Credits.{
  succeed, spend, charged, switch_off, predicted_remaining, reported,
}
use api_key_rotator.Pool.Advance.{rotate_cooldown}
use api_key_rotator.Profile.State.{
  Profile, ProviderName, firecrawl, tavily, exa, apify, fmp, alphavantage, marketaux,
}
use api_key_rotator.Floats.{Float, Floats}
use api_key_rotator.Base.Int.{ℤ, pos, negsuc}
use api_key_rotator.Json.Decode.{decode_credits_used}
use api_key_rotator.Usage.Bodies.{exa_total, extract_exa_cost_micro, micro_or_unknown, known}
use api_key_rotator.Profile.Policy.{is_daily_capped_finance, fmp_is_restricted_endpoint}
use api_key_rotator.Proxy.ServeOnce.{World, Run, RotResult}
use api_key_rotator.Proxy.Serve.{
  at_stop, cost_of, exa_micro, or_unknown, extract_credits_used, is_exa, is_fmp, is_positive,
}

-- The prices. A cost in dollars is a price when it comes to at least one microdollar.
abbrev pub microdollars : ℤ → Option ℕ
microdollars (pos (suc n)) = some (suc n)
microdollars (pos zero) = none
microdollars (negsuc n) = none

abbrev pub dollar_price : Floats → Option (Option Float) → Option ℕ
dollar_price fl (some (some total)) = microdollars (fl.rounded 1000000 total)
dollar_price fl (some none) = none
dollar_price fl none = none

-- The credits that a body reports, 1 if it reports none above 0.
abbrev pub credit_price : Option ℤ → ℕ
credit_price (some (pos (suc n))) = suc n
credit_price (some (pos zero)) = 1
credit_price (some (negsuc n)) = 1
credit_price none = 1

-- The price of an answer by provider, from what its body is decoded to; `none` is no charge.
abbrev pub price : ProviderName → Floats → ℕ → Bytes → Option ℕ
price exa fl status body = dollar_price fl (exa_total fl body)
price fmp fl status body =
    if status == 402 && fmp_is_restricted_endpoint body
    then none
    else some (credit_price (decode_credits_used body))
price firecrawl fl status body = some (credit_price (decode_credits_used body))
price tavily fl status body = some (credit_price (decode_credits_used body))
price apify fl status body = some (credit_price (decode_credits_used body))
price alphavantage fl status body = some (credit_price (decode_credits_used body))
price marketaux fl status body = some (credit_price (decode_credits_used body))

-- What the tests of the code come to.
unfoldable pub taken : World → Profile → ℕ → Bytes → Option ℕ
taken w p status body =
    if is_fmp p.name && status == 402 && fmp_is_restricted_endpoint body
    then none
    else if is_positive (cost_of w p body) || not (is_exa p.name)
    then some (charged (cost_of w p body))
    else none

micro_lem :
    (z : ℤ)
    → (if is_positive (exa_micro z) || false then some (charged (exa_micro z)) else none)
      ≡ microdollars z
micro_lem (pos zero) = refl
micro_lem (pos (suc n)) = refl
micro_lem (negsuc n) = refl

known_lem : (z : ℤ) → microdollars (known z) ≡ microdollars z
known_lem (pos zero) = refl
known_lem (pos (suc n)) = refl
known_lem (negsuc n) = refl

dollar_lem :
    (fl : Floats) (total : Option (Option Float))
    → microdollars (micro_or_unknown fl total) ≡ dollar_price fl total
dollar_lem fl (some (some total)) = known_lem (fl.rounded 1000000 total)
dollar_lem fl (some none) = refl
dollar_lem fl none = refl

credit_lem : (o : Option ℤ) → charged (or_unknown o) ≡ credit_price o
credit_lem none = refl
credit_lem (some (pos zero)) = refl
credit_lem (some (pos (suc n))) = refl
credit_lem (some (negsuc n)) = refl

module _ (w : World) (p : Profile) (status : ℕ) (body : Bytes) where
  taken_credits :
      is_fmp p.name ≡ false
      → is_exa p.name ≡ false
      → taken w p status body ≡ some (credit_price (decode_credits_used body))
  unfolding taken cost_of extract_credits_used
  taken_credits f x = rw (f, x) (ground (arith, credit_lem (decode_credits_used body)))

  pub taken-price :
      (name : ProviderName)
      → p.name ≡ name
      → taken w p status body ≡ price name w.floats status body
  unfolding taken cost_of extract_credits_used extract_exa_cost_micro
  taken-price exa e = rw e (
      micro_lem (micro_or_unknown w.floats (exa_total w.floats body))
      ∙ dollar_lem w.floats (exa_total w.floats body))
  taken-price fmp e = rw e (ground (arith, credit_lem (decode_credits_used body)))
  taken-price firecrawl e = taken_credits (ap is_fmp e) (ap is_exa e)
  taken-price tavily e = taken_credits (ap is_fmp e) (ap is_exa e)
  taken-price apify e = taken_credits (ap is_fmp e) (ap is_exa e)
  taken-price alphavantage e = taken_credits (ap is_fmp e) (ap is_exa e)
  taken-price marketaux e = taken_credits (ap is_fmp e) (ap is_exa e)

abbrev pub paid : Option ℕ → Slot → Slot
paid none s = s
paid (some cost) s = spend cost s

-- Whether a slot is at the stop threshold.
abbrev pub is_spent : ℕ → Slot → Bool
is_spent stop s = if s.remaining_credits == unmeasured then false else leb s.remaining_credits stop

at_stop-reported :
    (stop : ℕ) (s : Slot) → at_stop stop (reported s.remaining_credits) ≡ is_spent stop s
at_stop-reported stop s = ground arith

pub at_stop-is_spent :
    (p : KeyPool) (i : ℕ) {s : Slot}
    → get_elem? p.slots i ≡ some s
    → at_stop p.stop_threshold (predicted_remaining i p) ≡ is_spent p.stop_threshold s
unfolding predicted_remaining
at_stop-is_spent p i {s} e =
    let shown : predicted_remaining i p ≡ reported s.remaining_credits =
      rw (e, predicted_remaining) refl in
    rw shown (at_stop-reported p.stop_threshold s)

-- The calls on the pool that a price makes.
abbrev pub calls_for : Option ℕ → ℕ
calls_for none = 0
calls_for (some cost) = 1

-- What the calls make of the slot.
abbrev pub charged_slot : World → Profile → RotResult → Run → Slot → Slot
charged_slot w p res r s =
    let cost = price p.name w.floats res.status res.body in
    let t = paid cost (succeed s) in
    if is_daily_capped_finance p.name && is_spent r.pool.stop_threshold t
    then switch_off (w.clock (r.tick + calls_for cost + 2) + rotate_cooldown) t
    else t

-- The balance after a price; math.MaxInt64 stands for one not measured.
abbrev pub balance_after : Option ℕ → ℕ → ℕ
balance_after none balance = balance
balance_after (some cost) balance = if balance == 2 ^ 63 - 1 then balance else balance - cost

-- The providers whose keys rest at the stop threshold.
abbrev pub is_capped : ProviderName → Bool
is_capped fmp = true
is_capped alphavantage = true
is_capped marketaux = true
is_capped _ = false

-- What a success makes of the slot of its key; `stop` is the stop threshold and `until` the instant
-- up to which the key would rest.
abbrev pub served : Option ℕ → Bool → ℕ → ℕ → Slot → Slot
served cost capped stop until s =
    let balance = balance_after cost s.remaining_credits in
    let rests = capped && not (balance == 2 ^ 63 - 1) && leb balance stop in
    record s {
      stats = record stats { success = stats.success + 1 };
      cooldown_until = none;
      remaining_credits = if rests then 0 else balance;
      disabled = if rests then true else s.disabled;
      disabled_until = if rests then some until else s.disabled_until;
    }
  where
    open s use {stats}

abbrev pub served_slot : World → Profile → RotResult → Run → Slot → Slot
served_slot w p res r s =
    let cost = price p.name w.floats res.status res.body in
    served cost (is_capped p.name) r.pool.stop_threshold
      (w.clock (r.tick + calls_for cost + 2) + 30 * 10 ^ 9) s

is_capped_lem : (name : ProviderName) → is_daily_capped_finance name ≡ is_capped name
unfolding is_daily_capped_finance
is_capped_lem firecrawl = refl
is_capped_lem tavily = refl
is_capped_lem apify = refl
is_capped_lem exa = refl
is_capped_lem fmp = refl
is_capped_lem alphavantage = refl
is_capped_lem marketaux = refl

paid-remaining_credits :
    (cost : Option ℕ) (s : Slot)
    → paid cost s ≡ record s { remaining_credits = balance_after cost s.remaining_credits }
paid-remaining_credits none s = refl
paid-remaining_credits (some cost) s = elim (Bool-cases (s.remaining_credits == 2 ^ 63 - 1)) [
  | inl free ↦ rw free refl
  | inr measured ↦ rw measured refl
]

abbrev rests : Bool → ℕ → ℕ → Bool
rests capped stop balance = capped && not (balance == 2 ^ 63 - 1) && leb balance stop

rested_slot :
    (capped : Bool) (stop until : ℕ) (t : Slot)
    → (if capped && is_spent stop t then switch_off until t else t) ≡ record t {
      remaining_credits = if rests capped stop t.remaining_credits then 0 else t.remaining_credits;
      disabled = if rests capped stop t.remaining_credits then true else t.disabled;
      disabled_until =
          if rests capped stop t.remaining_credits then some until else t.disabled_until;
    }
rested_slot false stop until t = refl
rested_slot true stop until t = elim (Bool-cases (t.remaining_credits == 2 ^ 63 - 1)) [
  | inl free ↦ rw free refl
  | inr measured ↦ elim (Bool-cases (leb t.remaining_credits stop)) [
    | inl low ↦ rw (measured, low) refl
    | inr enough ↦ rw (measured, enough) refl
  ]
]

pub charged_slot_lem :
    (w : World) (p : Profile) (res : RotResult) (r : Run) (s : Slot)
    → charged_slot w p res r s ≡ served_slot w p res r s
charged_slot_lem w p res r s =
    let cost = price p.name w.floats res.status res.body in
    let stop = r.pool.stop_threshold in
    let until = w.clock (r.tick + calls_for cost + 2) + rotate_cooldown in
    ap
      (λ b.
        if b && is_spent stop (paid cost (succeed s))
        then switch_off until (paid cost (succeed s))
        else paid cost (succeed s))
      (is_capped_lem p.name)
    ∙ ap (λ t. if is_capped p.name && is_spent stop t then switch_off until t else t)
        (paid-remaining_credits cost (succeed s))
    ∙ rested_slot (is_capped p.name) stop until _
