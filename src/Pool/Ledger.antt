-- ===== src/Pool/Ledger.antt =====
-- keys.go: the pool as a ledger of accounts, one for each key: what the balances and the disabled
-- keys promise, without the cursor, the slots, the cooldowns, the counts and the sentinel.
pub mod Laws
mod Tests
use api_key_rotator.Base.{
  ℕ, ◌-◌, Bool, true, false, ◌||◌, List, [], ◌∷◌, Option, none, some, map, modify, leb, ◌==◌,
  if◌then◌else◌,
}
use api_key_rotator.Base.Int.{ℤ, pos_part}
use api_key_rotator.Pool.State.{KeyPool, Slot, unmeasured}
use api_key_rotator.Pool.Credits.{charged}
use api_key_rotator.Pool.Reset.{has_passed}
use api_key_rotator.Pool.Ops.{Call, decrements, measures, disables, reenables}

-- `serving none` has no measured balance; `resting` holds the instant of its return. A resting
-- account has no balance, since it comes back without one.
pub data Account : Type 0 where
  serving : Option ℕ → Account
  resting : Option ℕ → Account

abbrev pub balance : ℕ → Option ℕ
balance rc = if rc == unmeasured then none else some rc

abbrev pub account : Slot → Account
account s = if s.disabled then resting s.disabled_until else serving (balance s.remaining_credits)

abbrev pub ledger : KeyPool → List Account
ledger p = map account p.slots

abbrev pub pay : ℕ → Account → Account
pay cost (serving (some b)) = serving (some (b - cost))
pay cost (serving none) = serving none
pay cost (resting until) = resting until

abbrev pub correct : Option ℕ → Account → Account
correct b (serving _) = serving b
correct b (resting until) = resting until

abbrev pub wake : ℕ → Account → Account
wake now (serving b) = serving b
wake now (resting until) = if has_passed now until then serving none else resting until

-- What a call does to the ledger. The other calls do nothing to it.
unfoldable pub post : Call → List Account → List Account
post (decrements i cost) xs = modify xs i (pay (charged cost))
post (measures i credits) xs = modify xs i (correct (balance (pos_part credits)))
post (disables i until) xs = modify xs i (λ _. resting (some until))
post (reenables now) xs = map (wake now) xs
post _ xs = xs

unfoldable pub replay : List Account → List Call → List Account
replay xs [] = xs
replay xs (c ∷ cs) = replay (post c xs) cs

-- Whether an account can pay for a request: one without a measured balance counts as full.
abbrev pub can_serve : ℕ → Account → Bool
can_serve stop (serving none) = true
can_serve stop (serving (some b)) = leb stop b
can_serve stop (resting until) = false

abbrev pub any_serves : ℕ → List Account → Bool
any_serves stop [] = false
any_serves stop (a ∷ xs) = can_serve stop a || any_serves stop xs
