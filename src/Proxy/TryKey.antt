-- ===== src/Proxy/TryKey.antt =====
-- proxy.go: tryKey and sleepOrCancel. The answers of upstream and the cancellation by the client
-- come from outside: the n-th request has the n-th answer, the n-th sleep may be cut short.
pub mod Laws
pub mod Source
use api_key_rotator.Base.{
  ℕ, zero, suc, ◌+◌, Bool, true, false, ◌&&◌, List, [], ◌∷◌, Option, none, some, ltb, leb, ◌==◌,
  if◌then◌else◌, length,
}
use api_key_rotator.Base.Text.{Bytes}
use api_key_rotator.Headers.{Header}
use api_key_rotator.Rotate.{should_retry}
use api_key_rotator.Profile.State.{Profile}
use api_key_rotator.Proxy.Request.{Request, UpRequest, up_request, read_capped}

-- What client.Do gives: an error, or a response with the body as far as it can be read.
pub data Exchange : Type 0 where
  failed : Exchange
  responded : ℕ → Header → Bytes → Exchange

-- The world outside. `builds` is whether http.NewRequest accepts the method and the URL.
pub record Outside : Type 0 where
  pub builds : Bytes → Bytes → Bool
  pub answers : ℕ → Exchange
  pub cancels : ℕ → Bool

-- The requests sent, newest first, and the number of sleeps.
pub record Traffic : Type 0 where
  pub sent : List UpRequest
  pub sleeps : ℕ

pub record Tried : Type 0 where
  pub status : ℕ
  pub header : Header
  pub body : Bytes
  pub capped : Bool
  pub net_err : Bool

-- len(backoffSchedule); each of its entries is positive.
abbrev pub backoff_length : ℕ
backoff_length = 5

abbrev pub no_response : Tried
no_response = record { status = 0; header = []; body = []; capped = false; net_err = true }

-- The retries that a transient status gets.
abbrev pub budget : Profile → ℕ → ℕ
budget p status =
    if status == 403 && ltb 0 p.max403_retries && ltb p.max403_retries backoff_length
    then p.max403_retries
    else backoff_length

abbrev pub send : UpRequest → Traffic → Traffic
send q t = record t { sent = q ∷ t.sent }

abbrev pub sleep : Traffic → Traffic
sleep t = record t { sleeps = t.sleeps + 1 }

-- What one exchange decides: to end, or to sleep and, unless the sleep is cut short, to go on.
-- Both carry what tryKey returns at that point.
pub data Verdict : Type 0 where
  finish : Tried → Verdict
  back_off : Tried → Verdict

unfoldable pub judge_body : Profile → ℕ → ℕ → Header → Bytes → Bool → Verdict
judge_body p attempt status header body over_cap =
    if over_cap
    then finish
        (record { status = status; header = header; body = body; capped = true; net_err = false })
    else if should_retry status false
    then (let given_up : Tried = record {
      status = status;
      header = header;
      body = body;
      capped = false;
      net_err = true;
    } in
        if ltb attempt (budget p status) then back_off given_up else finish given_up)
    else finish
        (record { status = status; header = header; body = body; capped = false; net_err = false })

unfoldable pub judge : ℕ → Profile → ℕ → Exchange → Verdict
unfolding judge_body read_capped
judge max_body p attempt failed =
    if ltb attempt backoff_length then back_off no_response else finish no_response
judge max_body p attempt (responded status header raw) =
    judge_body p attempt status header (read_capped raw max_body).0 (read_capped raw max_body).1

-- The branch after the exchange: `rest` is the rest of the loop.
unfoldable pub follow : Verdict → Bool → Tried × Traffic → Traffic → Tried × Traffic
follow (finish r) canceled rest t = (r, t)
follow (back_off r) canceled rest t = if canceled then (r, sleep t) else rest

-- The loop: `left` attempts are left, `attempt` is the number of the next one.
unfoldable pub try_loop : Outside → ℕ → Profile → UpRequest → ℕ → ℕ → Traffic → Tried × Traffic
unfolding judge follow
try_loop o max_body p q zero attempt t = (no_response, t)
try_loop o max_body p q (suc left) attempt t =
    let rest = try_loop o max_body p q left (suc attempt) (sleep (send q t)) in
    if o.builds q.method q.url
    then follow (judge max_body p attempt (o.answers attempt)) (o.cancels attempt) rest (send q t)
    else (no_response, t)

abbrev pub no_traffic : Traffic
no_traffic = record { sent = []; sleeps = 0 }

unfoldable pub try_key : Outside → ℕ → Profile → Bytes → Request → Bytes → Tried × Traffic
unfolding try_loop up_request
try_key o max_body p key req stripped =
    try_loop o max_body p (up_request p key req stripped) (backoff_length + 1) 0 no_traffic
