-- ===== src/Proxy/Tests.antt =====
-- Tests of proxy.go, and its theorems at concrete requests and answers.
use api_key_rotator.Base.{if◌then◌else◌, ℕ, zero, suc, ◌≡◌, refl, true, false, [], ◌∷◌, length}
use api_key_rotator.Base.Text.{Bytes, codes, bytes_eq}
use api_key_rotator.Headers.{header_values, canonical}
use api_key_rotator.Pool.State.{new_key_pool}
use api_key_rotator.Rotate.{should_retry}
use api_key_rotator.Profile.State.{Profile, firecrawl}
use api_key_rotator.Proxy.Request.{Request, up_request, authorization, is_hop_by_hop, read_capped}
use api_key_rotator.Proxy.Request.Laws.{up_request-authorization}
use api_key_rotator.Proxy.Request.Copy.{up_request-header_values}
use api_key_rotator.Proxy.TryKey.{Exchange, failed, responded, Outside, try_key}
use api_key_rotator.Proxy.TryKey.Laws.{Answered, try_key-Answered, try_key_gives_up}

abbrev fc : Profile
fc = record {
  name = firecrawl;
  route_prefix = codes "/firecrawl";
  upstream = codes "https://api.firecrawl.dev";
  upstream_host = codes "api.firecrawl.dev";
  credit_reset_day = 1;
  rewrite_next = true;
  keep_prefix = false;
  auth_query_param = [];
  auth_header = [];
  upstream_timeout = 0;
  apify_free_credit_usd = 0;
  concurrency_saturation = [];
  concurrency_queue = 0;
  max403_retries = 2;
  pool = new_key_pool (codes "k1" ∷ codes "k2" ∷ []);
}

abbrev named : Profile
named = record fc { auth_header = codes "x-api-key" }

abbrev scrape : Request
scrape = record {
  method = codes "POST";
  path = codes "/firecrawl/v1/scrape";
  raw_query = [];
  host = codes "localhost";
  header =
      (authorization, codes "Bearer client" ∷ [])
      ∷ (codes "Te", codes "gzip" ∷ [])
      ∷ (codes "X-Api-Key", codes "mine" ∷ [])
      ∷ [];
  body = codes "{}";
}

abbrev stripped : Bytes
stripped = codes "/v1/scrape"

up_request-header_values_example :
    header_values (codes "Te") (up_request fc (codes "k1") scrape stripped).header
    ≡ (if is_hop_by_hop (codes "Te") then [] else header_values (codes "Te") scrape.header)
up_request-header_values_example =
    up_request-header_values fc (codes "k1") scrape stripped (codes "Te") (unfold bytes_eq in refl)
      (unfold bytes_eq in refl) (unfold bytes_eq in unfold canonical in refl)

up_request-authorization_example :
    header_values authorization (up_request fc (codes "k1") scrape stripped).header
    ≡ codes "Bearer k1" ∷ []
up_request-authorization_example = up_request-authorization fc (codes "k1") scrape stripped

key_header_passes : is_hop_by_hop (canonical named.auth_header) ≡ false
unfolding is_hop_by_hop bytes_eq canonical
key_header_passes = refl

-- Upstream answers 403 to every request.
abbrev blocked : Outside
blocked = record {
  builds = λ m u. true;
  answers = λ n. responded 403 [] (codes "blocked");
  cancels = λ n. false;
}

forbidden_retries : should_retry 403 false ≡ true
unfolding should_retry
forbidden_retries = refl

whole : (read_capped (codes "blocked") 0).1 ≡ false
unfolding read_capped
whole = refl

try_key_gives_up_example :
    (length (try_key blocked 0 fc (codes "k1") scrape stripped).1.sent ≡ 3)
    × ((try_key blocked 0 fc (codes "k1") scrape stripped).0.status ≡ 403)
    × ((try_key blocked 0 fc (codes "k1") scrape stripped).0.net_err ≡ true)
    × ((try_key blocked 0 fc (codes "k1") scrape stripped).0.capped ≡ false)
try_key_gives_up_example =
    try_key_gives_up blocked 0 fc (codes "k1") scrape stripped 403 forbidden_retries
      (λ n. ([], codes "blocked", refl, whole)) (λ n. refl) refl

abbrev flaky_answer : ℕ → Exchange
flaky_answer zero = failed
flaky_answer (suc zero) = responded 502 [] []
flaky_answer (suc (suc n)) = responded 200 [] (codes "done")

-- A network error, a 502, and then an answer.
abbrev flaky : Outside
flaky = record { builds = λ m u. true; answers = flaky_answer; cancels = λ n. false }

flaky_answered : (try_key flaky 0 fc (codes "k1") scrape stripped).0.net_err ≡ false
unfolding try_key read_capped should_retry
flaky_answered = refl

flaky_requests : length (try_key flaky 0 fc (codes "k1") scrape stripped).1.sent ≡ 3
unfolding try_key read_capped should_retry
flaky_requests = refl

try_key-Answered_example : Answered flaky 0 (try_key flaky 0 fc (codes "k1") scrape stripped)
try_key-Answered_example = try_key-Answered flaky 0 fc (codes "k1") scrape stripped flaky_answered
