-- ===== src/Lib.antt =====
-- Verification of the api-key-rotator, a reverse proxy that serves the requests of many clients by
-- a pool of API keys for each provider (Firecrawl, Tavily, Exa, Apify, FMP, Alpha Vantage,
-- Marketaux).
--
-- The program. A request is routed to a profile by the prefix of its path (profile.go,
-- matchProfile). The profile's pool picks the key with most credits (keys.go, Current) and lends
-- one of the key's slots (TryAcquire, Release). The request goes to upstream with the key, and a
-- transient failure is retried on the same key (proxy.go, tryKey). The answer is classified
-- (rotate.go; profile.go, shouldRotate and isCreditExhausted): a success is charged to the key
-- (Decrement), a refusal cools the key down and the pool moves on (AdvanceAfter), exhausted credits
-- switch the key off until its billing period ends (Disable, ReenableDue).
--
-- The files.
--   Base        names and helpers shared by all: lists, signed integers, bytes, Boolean tests.
--   Headers     http.Header of net/http, as far as the source uses it.
--   Json        encoding/json as far as the source uses it: Strings, Numbers and Parse read a text
--               into a value, Decode finds the one field that firecrawlFailure (rotate.go) and
--               extractCreditsUsed (proxy.go) ask for, Structs reads the fields that the usage
--               endpoints add, Any decodes into `any` and into a map.
--   Urls        net/url: url.Parse and URL.String as parameters.
--   Floats      float64 as its bits, with the operations that the source uses as parameters.
--   Pool        keys.go. State: KeyPool, NewKeyPool, SetThresholds, SetMaxConcurrent. Slots:
--               TryAcquire, Release, WaitForSlot. Select: currentLocked, Current, AnyUsable.
--               Advance: Advance, AdvanceAfter, retryAfterSeconds. Credits: RecordSuccess,
--               RecordRejection, Decrement, PredictedRemaining, SetCredits, Disable. Reset:
--               ReenableDue. Snapshot: maskKey, Snapshot. Ops: the methods as calls, and lists of
--               calls. Leases: requests that hold slots, interleaved. Ledger: the abstract
--               specification, one account for each key, and what each call does to it.
--   Rotate      rotate.go: the patterns, firecrawlFailure, shouldRetry.
--   Profile     profile.go. State: Profile. Policy: shouldRotate, isCreditExhausted. Route:
--               matchProfile. Build: buildProfiles.
--   Proxy       proxy.go. Request: the request that tryKey builds, copyHeaders, isHopByHop,
--               readCapped, rejectKind, isJSON. TryKey: tryKey, sleepOrCancel. ServeOnce: serveOnce.
--               Serve: a round of the loop of ServeHTTP, and costOf. Serve/Price and
--               Serve/Charge: what a success costs. ServeHttp: ServeHTTP. Serve/Genuine and
--               ServeHttp/Genuine: where the answers come from.
--               Serve/Requests, ServeHttp/Requests: the requests that are sent to upstream; `sent` of
--               Run lists those of tryKey and, as EnsureMeasured and disableUntilReset send them,
--               those to the usage endpoints. What the goroutines of MaybeRefreshLow and
--               OnSwitchReason send is not listed.
--               ServeHttp/Balances: the balances of a provider without a usage endpoint.
--               AccessLog: the status in the access log. Respond: writeRawResponse, and the
--               rewriting of the body before it.
--   Config      config.go: parseKeys, parseOptInt64, parseDailyBudget, financeDailyThresholds,
--               checkRoutePrefix. State: Config and the records of the providers. Values: envStr,
--               envInt, envInt64, envUsd, envUsdCents, envUsdMicro and the tests of the loaders.
--               Providers: loadTavilyConfig, loadApifyConfig, loadExaConfig, loadFMPConfig,
--               loadAlphaVantageConfig, loadMarketauxConfig. Load: LoadConfig. Accepted: what a
--               loaded configuration satisfies.
--   Refresh     refresh.go: the throttles of MaybeRefreshLow and DailyRefresh, OnSwitchReason,
--               refreshOne, EnsureMeasured. WarmUp: NewRefresher, RefreshAll; main.go: warmupLoop.
--               WarmUp/Ends: when that loop ends.
--   Usage       creditusage.go: refreshKey, hasPeriodEnd, disableUntilReset; config.go:
--               fallbackReset. Retry: usageRetryable, shouldRetryUsage, the loop of the fetch
--               functions. Bodies: what they read from an answer, extractExaCostMicro. Tavily:
--               tavilyRemaining. Fetch: fetchUsage, fetchTavilyUsage, fetchApifyUsage,
--               fetchUsageFor.
--   Rewrite     rewrite.go: rewriteNext, rewriteOne, paginationGuard. Paths: the places in a value.
--   Server      server.go: healthzHandler, statusHandler. Log: the logger. Secret and
--               Status: what the endpoints show.
--   Start       main.go: buildServer; transport.go: buildTransport. Announce: the line that
--               buildServer logs. Loops: resetLoop and dailyRefreshLoop. Run: main.
--
-- How the code is modelled. The parallel slices of KeyPool are one list of slots. Every method of
-- KeyPool runs under its mutex, so it is a function of the state, and what concurrent requests do
-- is a list of calls or, where it matters who holds what, a relation of moves (Pool/Leases).
-- Instants and durations are nanoseconds, natural numbers, and the zero instant is `none`; the
-- clock is an argument. Balances are natural numbers, since the code keeps them from 0 up, and
-- math.MaxInt64 is the mark of an unmeasured key. -1 as an index or a result is `none`. The texts
-- are lists of bytes. What the regular expressions of rotate.go match is a choice of literal texts
-- without regard to case. The names of profiles are the seven that buildProfiles gives.
--
-- Outside the model. The answers of upstream and the cancellation by the client are arguments
-- (Proxy/TryKey, Outside), as is whether http.NewRequest accepts a URL. Bodies are read without
-- errors of the connection in between. Of encoding/json, the limit of 10000 nested values and the
-- replacement of invalid UTF-8 are left out. The query that Apify's key is set in is recorded as
-- the parameter's name and value, not as the encoded URL. The text of errors is left out.
-- The network that the usage endpoints are asked over is a parameter (Usage/Fetch, Net). The
-- calendar of package time, time.Parse, url.QueryEscape, net/url, json.Marshal and the arithmetic of
-- float64 are parameters. A conversion of a float that is too
-- large is whatever the parameter gives. The loops of main.go run over the instants at which their
-- tickers fire, and main gets the status that http.Get finds and whether ListenAndServe fails. The
-- logger's lines are values; of the lines of proxy.go and creditusage.go only the status in the
-- access log is modelled. Not modelled is
-- the parsing of the flags.
--
-- One request runs against a pool that others use: before each of its own calls on the pool stands
-- a list of calls that the others make (Proxy/ServeOnce, World). A goroutine that a request starts
-- in the background is recorded when it starts (Refresh, spawned); what it does later is among the
-- calls of others.
--
-- Bounds and fuel. The JSON parser runs on fuel of twice the length of the text and two, since no
-- two calls in a row leave the text as long as it was. The loop of ServeHTTP runs on fuel, because
-- a round that waits for a slot consumes no pass: the passes for all keys, the nanoseconds of the
-- queue and one are meant to be given. All the other loops are by structural recursion: the retry
-- loop of tryKey on its six attempts, that of the usage endpoints on its schedule of three waits, the
-- loop of WaitForSlot on the events that the waiter meets. strconv.Itoa prints at most 20 digits,
-- which a number of 64 bits does not exceed.
pub mod Base
pub mod Json
pub mod Urls
pub mod Floats
pub mod Headers
pub mod Pool
pub mod Rotate
pub mod Profile
pub mod Config
pub mod Usage
pub mod Refresh
pub mod Rewrite
pub mod Proxy
pub mod Server
pub mod Start
