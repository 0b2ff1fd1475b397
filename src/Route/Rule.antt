-- ===== src/Route/Rule.antt =====
-- internal/route/matcher.go and route.go: the data of the matcher.
use paperboat_tunnel.Base.{ℕ, Bool, ℤ, List}
use paperboat_tunnel.Base.Strings.{Str, codes, Str-discrete}
use mathlib.Core.Bool.{Bool-discrete}
use native.Mathlib.Decide.{ℕ_discrete}

pub data Error : Type 0 where
  no_match match_conflict invalid conflict stale : Error
  generation_stale generation_not_ready generation_conflict generation_closed : Error
  drain_timeout stream_overloaded : Error

-- Kind
abbrev pub helper_https_wss : Str
helper_https_wss = codes "runtime_https_wss"

abbrev pub preview_https_wss : Str
preview_https_wss = codes "preview_public_https_wss"

abbrev pub tunnel_https_wss : Str
tunnel_https_wss = codes "tunnel_http_wss"

-- MatchType
abbrev pub match_exact : Str
match_exact = codes "exact"

abbrev pub match_managed_exact : Str
match_managed_exact = codes "managed_exact"

abbrev pub match_one_label_wildcard : Str
match_one_label_wildcard = codes "one_label_wildcard"

abbrev pub match_catch_all : Str
match_catch_all = codes "catch_all"

pub record RouteRule : Type 0 where
  pub id : Str
  pub revision : ℕ
  pub generation : ℕ
  pub route_id : Str
  pub route_generation : ℕ
  pub assignment_id : Str
  pub assignment_generation : ℕ
  pub resource_kind : Str
  pub session_generation : ℕ
  pub environment : Str
  pub account_id : Str
  pub host_id : Str
  pub machine_identity_public_key : Str
  pub machine_identity_thumbprint : Str
  pub tunnel_id : Str
  pub connector_id : Str
  pub connector_session_id : Str
  pub connector_process_generation : ℕ
  pub config_generation : ℕ
  pub config_content_hash : Str
  pub node : Str
  pub edge_process_epoch : Str
  pub edge_failure_domain : Str
  pub kind : Str
  pub match_type : Str
  pub hostname : Str
  pub wildcard_suffix : Str
  pub path_prefix : Str
  pub priority : ℤ
  pub target : Str
  pub protocol : Str
  pub public_tcp_listener_id : Str
  pub public_tcp_port : ℕ
  pub origin_scheme : Str
  pub access_mode : Str
  pub preserve_host : Bool
  pub host_override : Str
  pub desired_state : Str
  pub observed_state : Str
  pub reason : Str

ℤ-discrete : Discrete ℤ
ℤ-discrete = hlevel ℕ_discrete

-- reflect.DeepEqual on two rules
pub RouteRule-discrete : Discrete RouteRule
RouteRule-discrete = hlevel (Str-discrete, ℕ_discrete, ℤ-discrete, Bool-discrete)

-- reflect.DeepEqual on two lists of rules
pub rules-discrete : Discrete (List RouteRule)
rules-discrete = hlevel RouteRule-discrete
