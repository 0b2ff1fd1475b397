-- ===== src/Route/Match/Order.antt =====
-- internal/route/matcher.go: `compareCandidates` as an order.
use paperboat_tunnel.Base.{
  ◌+◌, ◌<◌, ◌≡◌, ◌⊎◌, inl, inr, Ordering, arith, length, pos_part, neg_part,
}
use paperboat_tunnel.Route.Match.{RouteCandidate, compare_candidates}

-- Preferred by host class, then by wildcard labels, then by path length, then by priority.
abbrev pub Better : RouteCandidate → RouteCandidate → Type 0
Better c d =
    (d.host_class < c.host_class)
    ⊎ ((d.host_class ≡ c.host_class)
        × ((d.suffix_labels < c.suffix_labels)
            ⊎ ((d.suffix_labels ≡ c.suffix_labels)
                × ((length d.rule.path_prefix < length c.rule.path_prefix)
                    ⊎ ((length d.rule.path_prefix ≡ length c.rule.path_prefix)
                        × (pos_part c.rule.priority + neg_part d.rule.priority
                            < pos_part d.rule.priority + neg_part c.rule.priority))))))

-- Neither is preferred.
abbrev pub Tied : RouteCandidate → RouteCandidate → Type 0
Tied c d =
    (d.host_class ≡ c.host_class)
    × (d.suffix_labels ≡ c.suffix_labels)
    × (length d.rule.path_prefix ≡ length c.rule.path_prefix)
    × (pos_part c.rule.priority + neg_part d.rule.priority
        ≡ pos_part d.rule.priority + neg_part c.rule.priority)

pub compare_gt : (c d : RouteCandidate) → compare_candidates c d ≡ Ordering.gt → Better c d
unfolding compare_candidates
compare_gt c d h = ground arith

pub compare_lt : (c d : RouteCandidate) → compare_candidates c d ≡ Ordering.lt → Better d c
unfolding compare_candidates
compare_lt c d h = ground arith

pub compare_eq : (c d : RouteCandidate) → compare_candidates c d ≡ Ordering.eq → Tied c d
unfolding compare_candidates
compare_eq c d h = ground arith

pub Better-trans : (c d e : RouteCandidate) → Better c d → Better d e → Better c e
Better-trans c d e h k = ground arith

pub Better-not-Tied : (c d : RouteCandidate) → Better c d ⊎ Better d c → ¬ Tied c d
Better-not-Tied c d (inl h) t = ground arith
Better-not-Tied c d (inr h) t = ground arith

pub Better-asym : (c d : RouteCandidate) → Better c d → ¬ Better d c
Better-asym c d h k = ground arith

pub Tied-compare : (c d : RouteCandidate) → Tied c d → compare_candidates c d ≡ Ordering.eq
unfolding compare_candidates
Tied-compare c d t = ground arith

pub Tied-sym : (c d : RouteCandidate) → Tied c d → Tied d c
Tied-sym c d t = ground arith
