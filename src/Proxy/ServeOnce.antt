-- ===== src/Proxy/ServeOnce.antt =====
-- proxy.go: serveOnce; refresh.go: EnsureMeasured. The request's own calls on the pool are numbered.
-- Before the n-th one other goroutines have made the calls `others n`, and it runs at the instant
-- `clock n`; what the providers answer meanwhile comes from outside too.
pub mod Slots
pub mod Answers
use api_key_rotator.Base.{
  ℕ, zero, suc, ◌+◌, Bool, true, false, List, [], ◌∷◌, ◌++◌, length, Option, none, some,
  if◌then◌else◌,
}
use api_key_rotator.Base.Int.{ℤ}
use api_key_rotator.Base.Text.{Bytes}
use api_key_rotator.Headers.{Header}
use api_key_rotator.Pool.State.{KeyPool}
use api_key_rotator.Pool.Slots.{Wake, try_acquire, release}
use api_key_rotator.Pool.Select.{current}
use api_key_rotator.Pool.Ops.{Call, run}
use api_key_rotator.Profile.State.{Profile}
use api_key_rotator.Profile.Policy.{should_rotate}
use api_key_rotator.Usage.{Usage, Calendar}
use api_key_rotator.Usage.Fetch.{Net, fetch_usage_for}
use api_key_rotator.Floats.{Floats}
use api_key_rotator.Refresh.{Refresher, refresh_one, needs_measure}
use api_key_rotator.Proxy.Request.{Request, UpRequest}
use api_key_rotator.Proxy.TryKey.{Outside, Tried, try_key}

-- `net n` is the network of the usage endpoints as a fetch before call n meets it, `wakes n` what a
-- waiter in WaitForSlot meets, `gone n` whether the client has left.
pub record World : Type 0 where
  pub others : ℕ → List Call
  pub clock : ℕ → ℕ
  pub upstream : ℕ → Outside
  pub net : ℕ → Net
  pub wakes : ℕ → List Wake
  pub gone : ℕ → Bool
  pub calendar : Calendar
  pub floats : Floats

-- A request sent to upstream: the `attempt`-th of the tryKey that starts at call `tick`, or the
-- `attempt`-th of the look at the usage endpoint before that call.
pub data Sending : Type 0 where
  forwarding : (tick attempt : ℕ) → UpRequest → Sending
  asking : (tick attempt : ℕ) → Bytes → Sending

-- The shared state as the request sees it, the number of its next call, and the requests that it has
-- itself sent to upstream, newest first; those of the goroutines that it starts are their own.
pub record Run : Type 0 where
  pub pool : KeyPool
  pub refresher : Refresher
  pub tick : ℕ
  pub sent : List Sending

-- The pool as the next call finds it.
abbrev pub found : World → Run → KeyPool
found w r = run r.pool (w.others r.tick)

abbrev pub now : World → Run → ℕ
now w r = w.clock r.tick

-- The state behind a call that leaves the pool as `pool`.
abbrev pub left : KeyPool → Run → Run
left pool r = record r { pool = pool; tick = suc r.tick }

-- rotResultKind
pub data RotResultKind : Type 0 where
  res_ok res_capped res_rotate res_net_err res_exhausted res_saturated : RotResultKind

-- The index of an exhausted result is the zero value.
pub record RotResult : Type 0 where
  pub kind : RotResultKind
  pub idx : ℕ
  pub key : Bytes
  pub status : ℕ
  pub header : Header
  pub body : Bytes

-- Current, at its instant.
unfoldable pub select : World → Run → Run × Option (ℕ × Bytes)
select w r = let (pool, sel) = current (now w r) (found w r) in (left pool r, sel)

unfoldable pub acquire : World → ℕ → Run → Run × Bool
acquire w i r = let (pool, ok) = try_acquire i (found w r) in (left pool r, ok)

unfoldable pub give_back : World → ℕ → Run → Run
give_back w i r = left (release i (found w r)) r

-- What fetchUsageFor gives for a key before call n.
unfoldable pub usage_of : World → Profile → Bytes → ℕ → Usage
unfolding fetch_usage_for
usage_of w p key n = (fetch_usage_for (w.net n) p key).0

-- The requests of tryKey, and those of a look at the usage endpoint, numbered.
unfoldable pub forwarded_at : ℕ → List UpRequest → List Sending
forwarded_at n [] = []
forwarded_at n (q ∷ qs) = forwarding n (length qs) q ∷ forwarded_at n qs

unfoldable pub asked_at : ℕ → Bytes → ℕ → List Sending
asked_at n key zero = []
asked_at n key (suc k) = asking n k key ∷ asked_at n key k

-- How many requests the look before call n sends.
unfoldable pub looks_of : World → Profile → Bytes → ℕ → ℕ
unfolding fetch_usage_for
looks_of w p key n = (fetch_usage_for (w.net n) p key).1

-- The state behind a look that sends `k` requests.
abbrev pub asked : ℕ → Bytes → Run → Run
asked k key r = record r { sent = asked_at r.tick key k ++ r.sent }

-- refreshOne: SetCredits is the call, the fetch comes before it.
unfoldable pub refreshed : World → Profile → ℕ → Bytes → Run → Run
unfolding refresh_one looks_of asked_at
refreshed w p i key r =
    let (pool, refresher) =
      refresh_one i (usage_of w p key r.tick) (now w r) (found w r, r.refresher) in
    record (asked (looks_of w p key r.tick) key r) {
      pool = pool;
      refresher = refresher;
      tick = suc r.tick;
    }

-- The look at the balance (Snapshot) is a call of its own.
unfoldable pub ensure_measured : World → Profile → ℕ → Bytes → Run → Run
unfolding refreshed needs_measure
ensure_measured w p i key r =
    let looked = left (found w r) r in
    if needs_measure i (found w r) r.refresher then refreshed w p i key looked else looked

unfoldable pub kind_of : Profile → Tried → RotResultKind
kind_of p t =
    if t.capped
    then res_capped
    else if t.net_err
    then res_net_err
    else if should_rotate p t.status t.body
    then res_rotate
    else res_ok

abbrev pub no_result : RotResultKind → ℕ → Bytes → RotResult
no_result kind i key = record {
  kind = kind;
  idx = i;
  key = key;
  status = 0;
  header = [];
  body = [];
}

-- What follows a successful TryAcquire; the deferred Release comes last.
unfoldable pub with_slot : World → ℕ → Profile → Request → Bytes → ℕ → Bytes → Run → RotResult × Run
unfolding ensure_measured give_back kind_of try_key forwarded_at
with_slot w max_body p req stripped i key r =
    let measured = ensure_measured w p i key r in
    let (t, traffic) = try_key (w.upstream measured.tick) max_body p key req stripped in
    (
      record {
        kind = kind_of p t;
        idx = i;
        key = key;
        status = t.status;
        header = t.header;
        body = t.body;
      },
      give_back w i
          (record measured { sent = forwarded_at measured.tick traffic.sent ++ measured.sent }),
    )

abbrev pub try_slot :
    World → ℕ → Profile → Request → Bytes → ℕ → Bytes → Run × Bool → RotResult × Run
try_slot w max_body p req stripped i key (r, true) = with_slot w max_body p req stripped i key r
try_slot w max_body p req stripped i key (r, false) = (no_result res_saturated i key, r)

abbrev pub try_selected :
    World → ℕ → Profile → Request → Bytes → Run × Option (ℕ × Bytes) → RotResult × Run
try_selected w max_body p req stripped (r, none) = (no_result res_exhausted 0 [], r)
try_selected w max_body p req stripped (r, some (i, key)) =
    try_slot w max_body p req stripped i key (acquire w i r)

unfoldable pub serve_once : World → ℕ → Profile → Request → Bytes → Run → RotResult × Run
unfolding select acquire with_slot
serve_once w max_body p req stripped r = try_selected w max_body p req stripped (select w r)
