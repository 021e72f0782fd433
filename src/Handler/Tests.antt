-- ===== src/Handler/Tests.antt =====
-- The theorems on the handler of chat completions at a concrete request.
use gateway_a.Prelude.{
  err, message, List, Option, arith, ℕ, ◌*◌, has_prefix, to_int64, ◌+ℤ◌, ◌≤◌, ℤ, pos, Text, text_eq,
  codes, length, trim_prefix, true, false, none, some, [], ◌∷◌, ok, ◌≡◌, ◌≢◌, ◌↔◌, ◌⊎◌, refl,
}
use gateway_a.Samples.{whole}
use gateway_a.CircuitBreaker.{CircuitBreaker, Env, new}
use gateway_a.LlmClient.{Event, Upstream, response}
use gateway_a.Usage.{Usage, first_of_day, check_quota}
use gateway_a.Handler.Tenants.{
  active_key, tenant_by_id, tenant_by_key, Tenant, Tables, Queries, get_tenant_by_api_key,
}
use gateway_a.Handler.Owners.{IsKeyOf, get_tenant_by_api_key-IsKeyOf}
use gateway_a.Tokenizer.{external}
use gateway_a.LlmClient.Stream.{unsent}
use gateway_a.Handler.Whole.{
  Surroundings, plain, Accounts, chat_completion, chat_completion-Accounts,
}
use gateway_a.Handler.Keys.{generate_api_key, create_api_key, create_api_key-get_tenant_by_api_key}
use gateway_a.Handler.{serve, Answer, non_stream}
use gateway_a.Handler.Guards.{
  ChatRequest, Incoming, LlmHandler, Database, admitted, admit, new_llm_handler,
}
use gateway_a.Handler.Admitted.{HasRoom, SendsKey, admit_iff}

abbrev hash : Text → Text
hash t = b'#' ∷ t

abbrev owner : Tenant
owner = record { id = 7; api_key = []; active = true; quota_daily = pos 100000 }

abbrev tables : Tables
tables = record {
  keys =
      record { tenant_id = 7; key_hash = codes "#sk-1"; active = true; expires_at = some (pos 5) }
      ∷ [];
  tenants = owner ∷ [];
}

abbrev queries : Queries
queries = record { key_error = none; tenant_error = none; legacy_error = none }

owner_found : get_tenant_by_api_key tables queries (codes "#sk-1") ≡ ok owner
unfolding get_tenant_by_api_key active_key tenant_by_id tenant_by_key
owner_found = refl

get_tenant_by_api_key-IsKeyOf_example :
    (owner.active ≡ true)
    × (IsKeyOf (codes "#sk-1") tables.keys 7 ⊎ (owner.api_key ≡ codes "#sk-1"))
get_tenant_by_api_key-IsKeyOf_example =
    get_tenant_by_api_key-IsKeyOf tables queries (codes "#sk-1") owner owner_found

abbrev handler : LlmHandler
handler = new_llm_handler [] (codes "sk-default") (pos 2) (pos 0)

abbrev database : Database
database = record {
  tables = tables;
  queries = queries;
  today = codes "2024-01-01";
  usage_rows = [];
  usage_error = none;
  quota_error = none;
}

abbrev request : ChatRequest
request = record { model = codes "m"; messages = codes "[1]"; stream = false; max_tokens = pos 5 }

abbrev incoming : Incoming
incoming = record { authorization = codes "Bearer sk-1"; body = codes "{}"; decoded = ok request }

admit_iff_example :
    (admit hash handler (some database) incoming ≡ admitted (codes "sk-1") owner request) ↔ (
      (incoming.authorization ≢ [])
      × (get_tenant_by_api_key database.tables database.queries
            (hash (trim_prefix incoming.authorization (codes "Bearer ")))
          ≡ ok owner)
      × (length incoming.body ≤ 1048576)
      × (incoming.decoded ≡ ok request)
      × (request.messages ≢ [])
      × (request.model ≢ [])
      × HasRoom database owner.id (to_int64 (pos (length request.messages * 200)))
      × SendsKey handler (trim_prefix incoming.authorization (codes "Bearer ")) (codes "sk-1"))
admit_iff_example = admit_iff hash handler database incoming (codes "sk-1") owner request

abbrev used : Usage
used = record { prompt_tokens = pos 3; completion_tokens = pos 4; total_tokens = pos 7 }

abbrev provider : Text → ChatRequest → Upstream Usage
provider key r = record {
  marshalled = ok [];
  built = ok tt;
  reply = λ attempt. response 200 (codes "200 OK") [] (ok used);
  interrupted = λ attempt. none;
}

abbrev live : Env
live = record {
  allow_time = pos 10;
  record_time = pos 20;
  reset_time = pos 30;
  err_before = none;
  err_after = none;
}

abbrev breaker : CircuitBreaker ℤ
breaker = new (record {
  failure_threshold = pos 50;
  reset_timeout = pos 30000000000;
  half_open_max_requests = pos 3;
  timeout = pos 30000000000;
})

abbrev same : Usage → Usage
same u = u

abbrev status : ℤ × (ℤ × ℤ)
status = (pos 0, (pos 100000, pos 100000))

abbrev answer : Answer Usage
answer = (serve same hash handler (some database) incoming status live provider breaker).1.0

-- The key that a source of zeros draws, created for the owner.
abbrev zeros : ℕ → Option ℕ
zeros i = some 0

unused : active_key (hash (generate_api_key zeros)) tables.keys ≡ none
unfolding active_key generate_api_key
unused = refl

owner_by_id : tenant_by_id owner.id tables.tenants ≡ ok owner
unfolding tenant_by_id
owner_by_id = refl

distinct : hash (generate_api_key zeros) ≢ codes "#sk-1"
unfolding generate_api_key
distinct e = ground (arith, e)

create_api_key-get_tenant_by_api_key_example :
    (key : Text) × (tables' : Tables) × (create_api_key hash zeros 7 none tables
      ≡ ok (key, tables'))
    × (get_tenant_by_api_key tables' queries (hash key) ≡ ok owner)
    × (get_tenant_by_api_key tables' queries (codes "#sk-1")
        ≡ get_tenant_by_api_key tables queries (codes "#sk-1"))
create_api_key-get_tenant_by_api_key_example =
    create_api_key-get_tenant_by_api_key hash zeros tables queries owner (codes "#sk-1") refl refl
      owner_by_id refl unused distinct

-- The surroundings of that request, whose tokenizer and decoder it does not need.
abbrev surroundings : Surroundings Usage Text ℤ
surroundings = record {
  usage_of = same;
  decoder = record {
    object = λ s. err (message []);
    usage = λ s. err (message []);
    trim_space = λ s. s;
  };
  parse_messages = λ s. s;
  fuel = 0;
  default_tokenizer = external (λ s m. pos 0);
  status = status;
  env = live;
  upstream_of = provider;
  stream_upstream_of =
      λ key r. record { marshal = λ b. ok []; build = λ b. ok tt; send = λ b. unsent (message []) };
}

abbrev answered : CircuitBreaker ℤ × (Answer Usage × List Event)
answered =
    non_stream same handler owner request status live (provider (codes "sk-1") request) breaker

answered_whole :
    chat_completion hash handler (some database) incoming surroundings breaker
    ≡ some (answered.0, plain answered.1.0)
unfolding chat_completion admit get_tenant_by_api_key active_key tenant_by_id check_quota
    trim_prefix has_prefix to_int64 ◌+ℤ◌ first_of_day
answered_whole = refl

chat_completion-Accounts_example :
    Accounts (admit hash handler (some database) incoming) answered.1.0.recorded
chat_completion-Accounts_example =
    chat_completion-Accounts hash handler (some database) incoming surroundings breaker answered.0
      (plain answered.1.0) answered_whole
