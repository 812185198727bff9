-- ===== src/Pool/Credits/Laws.antt =====
-- keys.go: the accounting of a key's balance.
use api_key_rotator.Base.{
  ℕ, ◌+◌, ◌-◌, ◌<◌, ◌≡◌, List, [], ◌∷◌, some, arith, if◌then◌else◌, get_elem?,
  get_elem?-modify_self, ◌==◌,
}
use api_key_rotator.Base.Int.{ℤ, pos, negsuc, pos_part}
use api_key_rotator.Pool.State.{KeyPool, Slot, unmeasured}
use api_key_rotator.Pool.Credits.{
  charged, spend, decrement, set_credits, measure, predicted_remaining,
}

-- Decrement after each of some responses.
abbrev pub decrements : ℕ → List ℤ → KeyPool → KeyPool
decrements i [] p = p
decrements i (cost ∷ costs) p = decrements i costs (decrement i cost p)

abbrev pub total : List ℤ → ℕ
total [] = 0
total (cost ∷ costs) = charged cost + total costs

spend_measured :
    (cost : ℕ) (s : Slot)
    → s.remaining_credits < unmeasured
    → (spend cost s).remaining_credits ≡ s.remaining_credits - cost
spend_measured cost s h = ground arith

decrement-get_elem? :
    (i : ℕ) (cost : ℤ) (p : KeyPool) {s : Slot}
    → get_elem? p.slots i ≡ some s
    → get_elem? (decrement i cost p).slots i ≡ some (spend (charged cost) s)
unfolding decrement
decrement-get_elem? i cost p at = get_elem?-modify_self p.slots i (spend (charged cost)) at

-- The balance of a measured key after some responses is the start less all that they cost, each at
-- least 1, and 0 where they cost more.
pub decrements-total :
    (i : ℕ) (costs : List ℤ) (p : KeyPool) {s : Slot}
    → get_elem? p.slots i ≡ some s
    → s.remaining_credits < unmeasured
    → (s' : Slot) × (get_elem? (decrements i costs p).slots i ≡ some s')
      × (s'.remaining_credits ≡ s.remaining_credits - total costs)
decrements-total i [] p {s} at measured = (s, at, omega arith)
decrements-total i (cost ∷ costs) p {s} at measured =
    let (s', at', rest) =
      decrements-total i costs (decrement i cost p) (decrement-get_elem? i cost p at)
        (ground arith) in
    (s', at', omega (arith, rest, spend_measured (charged cost) s measured))

-- A recorded balance is the one that is reported, with 0 for a negative one and -1 for the mark of
-- an unmeasured key.
pub predicted_remaining-set_credits :
    (i : ℕ) (credits : ℤ) (p : KeyPool) {s : Slot}
    → get_elem? p.slots i ≡ some s
    → predicted_remaining i (set_credits i credits p)
      ≡ (if pos_part credits == unmeasured then negsuc 0 else pos (pos_part credits))
unfolding predicted_remaining set_credits
predicted_remaining-set_credits i credits p at =
    rw (get_elem?-modify_self p.slots i (measure (pos_part credits)) at, predicted_remaining)
