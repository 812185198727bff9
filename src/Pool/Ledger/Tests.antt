-- ===== src/Pool/Ledger/Tests.antt =====
-- Tests of the ledger of keys.go.
use api_key_rotator.Base.{◌≡◌, refl, ◌↔◌, List, [], ◌∷◌, none, some, false, map, arith}
use api_key_rotator.Base.Int.{pos}
use api_key_rotator.Base.Text.{Bytes, codes}
use api_key_rotator.Pool.Select.{current}
use api_key_rotator.Pool.Ops.{
  Call, selects, acquires, decrements, measures, disables, reenables, run,
}
use api_key_rotator.Pool.Ledger.{serving, resting, ledger, post, replay, any_serves}
use api_key_rotator.Pool.Ledger.Laws.{first_pool, ledger-run}

abbrev keys : List Bytes
keys = codes "k1" ∷ codes "k2" ∷ []

abbrev calls : List Call
calls = measures 0 (pos 50) ∷ selects 100 ∷ acquires 0 ∷ decrements 0 (pos 49) ∷ disables 1 900 ∷ []

-- One key has less than the stop threshold, and the other rests.
spent : replay (map (λ _. serving none) keys) calls ≡ serving (some 1) ∷ resting (some 900) ∷ []
unfolding replay post
spent = refl

-- A key whose budget was seeded comes back without a measured balance.
budget_forgotten :
    replay (serving none ∷ []) (measures 0 (pos 250) ∷ disables 0 900 ∷ reenables 900 ∷ [])
    ≡ serving none ∷ []
unfolding replay post
budget_forgotten = refl

ledger-run_example :
    (ledger (run (first_pool keys 10 2 (pos 1)) calls)
      ≡ replay (map (λ _. serving none) keys) calls)
    × (((current 500 (run (first_pool keys 10 2 (pos 1)) calls)).1 ≡ none)
        ↔ (any_serves 2 (replay (map (λ _. serving none) keys) calls) ≡ false))
ledger-run_example =
    ledger-run keys 10 2 (pos 1) calls 500 (omega arith, (tt, (tt, (tt, (tt, tt))))) (omega arith)
