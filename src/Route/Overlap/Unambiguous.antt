-- ===== src/Route/Overlap/Unambiguous.antt =====
-- internal/route/matcher.go: rules that `normalizeRules` accepts never tie.
use mathlib.Core.List.{Memᴰ}
use paperboat_tunnel.Base.{
  ℕ, ◌+◌, ◌≡◌, refl, sym, ◌∙◌, ap, ap₂, ◌⊎◌, ◌≢◌, inl, inr, true, false, List, [], ◌∷◌, ◌++◌, some,
  arith, length, take, Option-cases, Bool-cases, mem_cases, mem_nil, ◌||◌,
}
use paperboat_tunnel.Base.Strings.{Str, codes, trim_suffix, contains, count, eq_str, has_prefix}
use paperboat_tunnel.Base.Affix.{
  has_suffix-append, append-has_suffix, trim_suffix_of_append, take_of_has_prefix, take-length,
  after_first,
}
use paperboat_tunnel.Route.Rule.{RouteRule, match_catch_all, match_one_label_wildcard}
use paperboat_tunnel.Route.Match.{
  RouteCandidate, is_exact_match_type, wildcard_match, host_match, path_matches, candidate,
}
use paperboat_tunnel.Route.Match.Order.{Tied, Tied-compare}
use paperboat_tunnel.Route.Match.Choice.{candidates, HasTie}
use paperboat_tunnel.Route.Overlap.{
  hosts_overlap, rules_overlap, overlap_host, overlap_candidate, ambiguous, any_ambiguous,
  has_conflict, is_eq,
}

record WildcardHost (suffix host : Str) (labels : ℕ) : Type 0 where
  prefix : Str
  split : host ≡ prefix ++ b'.' ∷ suffix
  one_label : contains prefix b'.' ≡ false
  depth : labels ≡ count suffix b'.' + 1

wildcard_match-inv :
    (suffix host : Str) (k l : ℕ)
    → wildcard_match suffix host ≡ (k, l, true)
    → (k ≡ 2) × WildcardHost suffix host l
unfolding wildcard_match
wildcard_match-inv suffix host k l h = (
  ground arith,
  record {
    prefix = trim_suffix host (b'.' ∷ suffix);
    split = has_suffix-append host (b'.' ∷ suffix) (ground arith);
    one_label = ground arith;
    depth = ground arith;
  },
)

longer : (suffix : Str) → codes "edge." ++ suffix ≢ suffix
longer suffix e = omega (arith, ap length e)

wildcard_match_edge :
    (suffix : Str)
    → wildcard_match suffix (codes "edge." ++ suffix) ≡ (2, count suffix b'.' + 1, true)
unfolding wildcard_match
wildcard_match_edge suffix = ground (
  arith,
  append-has_suffix (codes "edge") (b'.' ∷ suffix),
  trim_suffix_of_append (codes "edge") (b'.' ∷ suffix),
  longer suffix,
)

data Matched (rule : RouteRule) (host : Str) (k l : ℕ) : Type 0 where
  exact :
      is_exact_match_type rule.match_type ≡ true
      → k ≡ 3
      → l ≡ 0
      → host ≡ rule.hostname
      → Matched rule host k l
  wildcard :
      is_exact_match_type rule.match_type ≡ false
      → rule.match_type ≡ match_one_label_wildcard
      → k ≡ 2
      → WildcardHost rule.wildcard_suffix host l
      → Matched rule host k l
  catch_all :
      is_exact_match_type rule.match_type ≡ false
      → rule.match_type ≡ match_catch_all
      → k ≡ 1
      → l ≡ 0
      → Matched rule host k l

host_match-inv :
    (rule : RouteRule) (host : Str) (k l : ℕ)
    → host_match rule host ≡ (k, l, true)
    → Matched rule host k l
unfolding host_match
host_match-inv rule host k l h = elim (Bool-cases (is_exact_match_type rule.match_type)) [
  | inl e ↦ exact e (ground arith) (ground arith) (ground arith)
  | inr ne ↦ elim (Bool-cases (eq_str rule.match_type match_one_label_wildcard)) [
    | inl e ↦
        let w = wildcard_match-inv rule.wildcard_suffix host k l (ground arith) in
        wildcard ne (ground arith) w.0 w.1
    | inr nw ↦ catch_all ne (ground arith) (ground arith) (ground arith)
  ]
]

-- The host that the overlap check takes for a rule is matched in the same class.
overlap_host-Matched :
    (rule : RouteRule) (host : Str) (k l : ℕ)
    → Matched rule host k l
    → host_match rule (overlap_host rule) ≡ (k, l, true)
unfolding host_match overlap_host
overlap_host-Matched rule host k l (exact e p q m) = ground arith
overlap_host-Matched rule host k l (wildcard n e p w) =
    ground (arith, wildcard_match_edge rule.wildcard_suffix)
overlap_host-Matched rule host k l (catch_all n e p q) = ground arith

-- Two rules that match one host in one class overlap.
hosts_overlap-Matched :
    (r s : RouteRule) (host : Str) (k l : ℕ)
    → Matched r host k l
    → Matched s host k l
    → hosts_overlap r s ≡ true
unfolding hosts_overlap
hosts_overlap-Matched r s host k l (exact e p q m) (exact e' p' q' m') = ground arith
hosts_overlap-Matched r s host k l (wildcard n e p w) (wildcard n' e' p' w') = ground (
  arith,
  after_first b'.' w.prefix w'.prefix r.wildcard_suffix s.wildcard_suffix w.one_label w'.one_label
      (sym w.split ∙ w'.split),
)
hosts_overlap-Matched r s host k l (catch_all n e p q) _ = ground arith
hosts_overlap-Matched r s host k l _ (catch_all n e p q) = ground arith
hosts_overlap-Matched r s host k l (exact e p q m) (wildcard n' e' p' w') = absurd (omega arith)
hosts_overlap-Matched r s host k l (wildcard n e p w) (exact e' p' q' m') = absurd (omega arith)

path_matches-inv : (p q : Str) → path_matches p q ≡ true → (p ≡ codes "/") ⊎ (take (length p) q ≡ p)
unfolding path_matches
path_matches-inv p q h = elim (Bool-cases (eq_str q p)) [
  | inl e ↦ inr (ground (arith, take-length p))
  | inr ne ↦ elim (Bool-cases (has_prefix q (p ++ codes "/"))) [
    | inl e ↦ inr (take_of_has_prefix q p (codes "/") e)
    | inr no_prefix ↦ inl (ground arith)
  ]
]

paths_overlap :
    (p q path : Str)
    → path_matches p path ≡ true
    → path_matches q path ≡ true
    → length p ≡ length q
    → (path_matches p q || path_matches q p) ≡ true
unfolding path_matches
paths_overlap p q path hp hq e = ground (arith, path_matches-inv p path, path_matches-inv q path)

candidate-inv :
    (host path : Str) (rule : RouteRule) (c : RouteCandidate)
    → candidate host path rule ≡ some c
    → (c.rule ≡ rule)
      × (host_match rule host ≡ (c.host_class, c.suffix_labels, true))
      × (path_matches rule.path_prefix path ≡ true)
unfolding candidate
candidate-inv host path rule c h = ground arith

abbrev made : RouteRule → ℕ → ℕ → RouteCandidate
made rule k l = record { rule = rule; host_class = k; suffix_labels = l }

-- Two rules whose candidates tie are refused.
tie-ambiguous :
    (host path : Str) (r s : RouteRule) (k l : ℕ)
    → candidate host path r ≡ some (made r k l)
    → candidate host path s ≡ some (made s k l)
    → Tied (made r k l) (made s k l)
    → ambiguous r s ≡ true
unfolding ambiguous rules_overlap overlap_candidate is_eq
tie-ambiguous host path r s k l hr hs t =
    let (_, mr, pr) = candidate-inv host path r (made r k l) hr in
    let (_, ms, ps) = candidate-inv host path s (made s k l) hs in
    let inr = host_match-inv r host k l mr in
    let ins = host_match-inv s host k l ms in
    rw (
      hosts_overlap-Matched r s host k l inr ins,
      paths_overlap r.path_prefix s.path_prefix path pr ps (sym t.2),
      overlap_host-Matched r host k l inr,
      overlap_host-Matched s host k l ins,
      Tied-compare (made r k l) (made s k l) t,
    )

-- A candidate is its rule with the class and the labels of the match.
candidate-made :
    (host path : Str) (r : RouteRule) (c : RouteCandidate)
    → candidate host path r ≡ some c
    → c ≡ made r c.host_class c.suffix_labels
candidate-made host path r c h = ground (arith, candidate-inv host path r c h)

Tied-ambiguous :
    (host path : Str) (r s : RouteRule) (c d : RouteCandidate)
    → candidate host path r ≡ some c
    → candidate host path s ≡ some d
    → Tied c d
    → ambiguous r s ≡ true
Tied-ambiguous host path r s c d hc hd t =
    let pc = candidate-made host path r c hc in
    let pd = candidate-made host path s d hd in
    tie-ambiguous host path r s c.host_class c.suffix_labels (hc ∙ ap some pc)
      (hd ∙ ap some (pd ∙ ap₂ (made s) t.0 t.1)) (refl, refl, ground arith, ground arith)

any_ambiguous-Tied :
    (host path : Str) (r : RouteRule) (c d : RouteCandidate) (rules : List RouteRule)
    → candidate host path r ≡ some c
    → any_ambiguous r rules ≡ false
    → Memᴰ d (candidates host path rules)
    → ¬ Tied c d
unfolding any_ambiguous candidates
any_ambiguous-Tied host path r c d [] hc h m t = mem_nil m
any_ambiguous-Tied host path r c d (s ∷ rules) hc h m t =
    elim (Option-cases (candidate host path s)) [
      | inl e ↦ any_ambiguous-Tied host path r c d rules hc (ground arith) (rw e at m) t
      | inr (x, e) ↦ elim (mem_cases (rw e at m)) [
        | inl p ↦ cc (Tied-ambiguous host path r s c d hc (e ∙ ap some (sym p)) t, h)
        | inr q ↦ any_ambiguous-Tied host path r c d rules hc (ground arith) q t
      ]
    ]

-- Rules without a conflict have no two tied candidates, for any host and path.
pub has_conflict-tied :
    (host path : Str) (rules : List RouteRule)
    → has_conflict rules ≡ false
    → ¬ HasTie (candidates host path rules)
unfolding has_conflict candidates
has_conflict-tied host path [] h t = t
has_conflict-tied host path (r ∷ rules) h t = elim (Option-cases (candidate host path r)) [
  | inl e ↦ has_conflict-tied host path rules (ground arith) (rw e at t)
  | inr (c, e) ↦ elim (rw e at t) [
    | inl (d, m, q) ↦ any_ambiguous-Tied host path r c d rules e (ground arith) m q
    | inr u ↦ has_conflict-tied host path rules (ground arith) u
  ]
]
