-- ===== src/Examples/Rules.antt =====
-- internal/route/matcher.go: two rules of a tunnel, and the requests they serve.
use paperboat_tunnel.Base.{◌≡◌, refl, false, [], ◌∷◌, Option, some, ok, pos}
use paperboat_tunnel.Base.Strings.{Str, Str-discrete, codes}
use paperboat_tunnel.Route.Rule.{RouteRule, tunnel_https_wss, match_exact, match_one_label_wildcard}
use paperboat_tunnel.Route.Match.{
  choose_rule, compare_candidates, contest, choose_round, choose_from, candidate, host_match,
  path_matches, is_withdrawn, is_exact_match_type, wildcard_match,
}
use paperboat_tunnel.Route.Match.Choice.{Reflects, candidates, choose_rule-Reflects}
use paperboat_tunnel.Route.Overlap.{
  normalize_rules, normalize_each, has_conflict, any_ambiguous, ambiguous, rules_overlap,
  hosts_overlap, exact_falls_under_wildcard, overlap_candidate, overlap_host, sort_rules,
}
use paperboat_tunnel.Route.Overlap.Decided.{Decided, normalize_rules-Decided}

abbrev pub blank_rule : RouteRule
blank_rule = record {
  id = [];
  revision = 1;
  generation = 0;
  route_id = [];
  route_generation = 0;
  assignment_id = [];
  assignment_generation = 0;
  resource_kind = [];
  session_generation = 0;
  environment = [];
  account_id = [];
  host_id = [];
  machine_identity_public_key = [];
  machine_identity_thumbprint = [];
  tunnel_id = [];
  connector_id = [];
  connector_session_id = [];
  connector_process_generation = 0;
  config_generation = 0;
  config_content_hash = [];
  node = [];
  edge_process_epoch = [];
  edge_failure_domain = [];
  kind = tunnel_https_wss;
  match_type = [];
  hostname = [];
  wildcard_suffix = [];
  path_prefix = [];
  priority = pos 0;
  target = codes "c";
  protocol = [];
  public_tcp_listener_id = [];
  public_tcp_port = 0;
  origin_scheme = [];
  access_mode = [];
  preserve_host = false;
  host_override = [];
  desired_state = [];
  observed_state = [];
  reason = [];
}

abbrev pub ascii : Str → Option Str
ascii s = some s

-- An exact host, and the one-label wildcard around it.
abbrev pub exact_rule : RouteRule
exact_rule = record blank_rule { id = codes "a"; hostname = codes "a.b.c" }

abbrev pub wildcard_rule : RouteRule
wildcard_rule = record blank_rule {
  id = codes "w";
  match_type = match_one_label_wildcard;
  wildcard_suffix = codes "b.c";
}

abbrev pub normal_exact : RouteRule
normal_exact = record exact_rule {
  generation = 1;
  match_type = match_exact;
  path_prefix = codes "/";
  desired_state = codes "active";
}

abbrev pub normal_wildcard : RouteRule
normal_wildcard = record wildcard_rule {
  generation = 1;
  path_prefix = codes "/";
  desired_state = codes "active";
}

accepted :
    normalize_rules ascii 1 (wildcard_rule ∷ exact_rule ∷ []) 4096
    ≡ ok (normal_exact ∷ normal_wildcard ∷ [])
unfolding normalize_rules normalize_each has_conflict any_ambiguous ambiguous rules_overlap
    hosts_overlap exact_falls_under_wildcard overlap_candidate overlap_host sort_rules host_match
    wildcard_match path_matches is_exact_match_type Str-discrete compare_candidates
accepted = refl

normalize_rules-Decided_example :
    Decided (normal_exact ∷ normal_wildcard ∷ []) (codes "a.b.c") (codes "/x")
normalize_rules-Decided_example =
    normalize_rules-Decided ascii 1 (wildcard_rule ∷ exact_rule ∷ []) 4096
      (normal_exact ∷ normal_wildcard ∷ []) accepted (codes "a.b.c") (codes "/x")

choose_rule-Reflects_example :
    Reflects
      (candidates (codes "a.b.c") (codes "/x") (normal_exact ∷ normal_wildcard ∷ []))
      (choose_rule (normal_exact ∷ normal_wildcard ∷ []) (codes "a.b.c") (codes "/x"))
choose_rule-Reflects_example =
    choose_rule-Reflects (normal_exact ∷ normal_wildcard ∷ []) (codes "a.b.c") (codes "/x")

-- The exact rule wins over the wildcard.
exact_wins :
    choose_rule (normal_wildcard ∷ normal_exact ∷ []) (codes "a.b.c") (codes "/x") ≡ ok normal_exact
unfolding choose_rule choose_from choose_round contest candidate host_match wildcard_match
    path_matches is_exact_match_type Str-discrete is_withdrawn compare_candidates
exact_wins = refl
