-- ===== src/Proxy/Service/Current.antt =====
-- proxy.js as a whole: the ring and the state of the nodes, in the states that a process comes to.
use statsd.Base.{
  ℕ, zero, suc, ◌≡◌, Bool, true, false, ◌&&◌, List, [], ◌∷◌, ◌++◌, All, arith, Bool-cases, inl, inr,
}
use statsd.Js.Object.{has, lookup}
use statsd.Js.Object.Laws.{lookup-put}
use statsd.Js.Text.{Text, codes, eqb, eqb_iff, eqb_refl, includes}
use statsd.Proxy.{
  Node, Proxy, node_id, start, CheckEvent, timed_out, answered, failed, check_event, node_ring_of,
  heard, failures, mark_node_as_healthy, mark_node_as_unhealthy, restored,
}
use statsd.Proxy.Nodes.{healthy, unhealthy, Mark, mark, in_ring, is_up, is_node, has-node_ring_of}
use statsd.Proxy.Cluster.{is_master}
use statsd.Proxy.Ring.{Hashring, IsRing}
use statsd.Proxy.Service.{
  Check, Service, do_health_checks, on_check, serve, checks_due, check_reported, file_changed, Step,
  due, reported, commanded, told, changed, Reach, served, stepped,
}

-- The node that a mark is about.
abbrev pub marked : Mark → Text
marked (healthy id) = id
marked (unhealthy id) = id

module _ {ℓ} {R : Type ℓ} (h : Hashring R) (nodes : List Node) where
  -- The ring has the nodes that are up, and nothing else.
  abbrev pub IsCurrent : Proxy R → Type 0
  IsCurrent p = (id : Text) → in_ring h id p ≡ (is_node id nodes && is_up (lookup id p.node_status))

  abbrev pub IsNodeCheck : Check → Type 0
  IsNodeCheck c = is_node c.id nodes ≡ true

  module _ (r : IsRing h) where
    mark-IsCurrent :
        (m : Mark) (p : Proxy R)
        → is_node (marked m) nodes ≡ true
        → IsCurrent p
        → IsCurrent (mark h m p)
    unfolding mark_node_as_healthy mark_node_as_unhealthy restored failures
    mark-IsCurrent (healthy j) p k c id =
        let before = c id in
        elim (Bool-cases (eqb j id)) [
          | inl e ↦
              let same : j ≡ id = (eqb_iff j id).0 e in
              ground (arith, before, k, r.member-add p.ring j id, lookup-put j id 0 p.node_status)
          | inr e ↦
              ground (arith, before, r.member-add p.ring j id, lookup-put j id 0 p.node_status)
        ]
    mark-IsCurrent (unhealthy j) p k c id =
        let before = c id in
        let n = failures (lookup j p.node_status) in
        elim (Bool-cases (eqb j id)) [
          | inl e ↦
              let same : j ≡ id = (eqb_iff j id).0 e in
              ground
                (arith, before, k, r.member-remove p.ring j id, lookup-put j id n p.node_status)
          | inr e ↦
              ground (arith, before, r.member-remove p.ring j id, lookup-put j id n p.node_status)
        ]

    heard-IsCurrent :
        (up : Bool) (id : Text) (p : Proxy R)
        → is_node id nodes ≡ true
        → IsCurrent p
        → IsCurrent (heard h up id p)
    unfolding heard
    heard-IsCurrent true id p k c = mark-IsCurrent (healthy id) p k c
    heard-IsCurrent false id p k c = mark-IsCurrent (unhealthy id) p k c

    check_event-IsCurrent :
        (id : Text) (e : CheckEvent) (ended : Bool) (p : Proxy R)
        → is_node id nodes ≡ true
        → IsCurrent p
        → IsCurrent (check_event h id e (ended, p)).1
    unfolding check_event
    check_event-IsCurrent id timed_out ended p k c = mark-IsCurrent (unhealthy id) p k c
    check_event-IsCurrent id (answered answer) true p k c = c
    check_event-IsCurrent id (answered answer) false p k c =
        heard-IsCurrent (includes (codes "up") answer) id p k c
    check_event-IsCurrent id failed true p k c = c
    check_event-IsCurrent id failed false p k c = mark-IsCurrent (unhealthy id) p k c

    on_check-IsCurrent :
        (i : ℕ) (e : CheckEvent) (checks : List Check) (p : Proxy R)
        → All IsNodeCheck checks
        → IsCurrent p
        → All IsNodeCheck (on_check h i e checks p).0 × IsCurrent (on_check h i e checks p).1
    unfolding on_check
    on_check-IsCurrent i e [] p a c = (tt, c)
    on_check-IsCurrent zero e (d ∷ checks) p (k, a) c =
        ((k, a), check_event-IsCurrent d.id e d.ended p k c)
    on_check-IsCurrent (suc i) e (d ∷ checks) p (k, a) c =
        let (a', c') = on_check-IsCurrent i e checks p a c in ((k, a'), c')

    append-IsNodeCheck :
        (checks more : List Check)
        → All IsNodeCheck checks
        → All IsNodeCheck more
        → All IsNodeCheck (checks ++ more)
    append-IsNodeCheck [] more a b = b
    append-IsNodeCheck (d ∷ checks) more (k, a) b = (k, append-IsNodeCheck checks more a b)

    do_health_checks-IsNodeCheck :
        (ns : List Node)
        → ((id : Text) → is_node id ns ≡ true → is_node id nodes ≡ true)
        → All IsNodeCheck (do_health_checks ns)
    unfolding do_health_checks
    do_health_checks-IsNodeCheck [] within = tt
    do_health_checks-IsNodeCheck (node ∷ ns) within = (
      within (node_id node) (ground (arith, eqb_refl (node_id node))),
      do_health_checks-IsNodeCheck ns (λ id k. within id (ground (arith, k))),
    )

    start-IsCurrent : IsCurrent (start h nodes)
    unfolding start has
    start-IsCurrent id =
        ground
          (arith, r.member-of_servers (node_ring_of nodes []) id, has-node_ring_of h r id nodes [])

    step-IsCurrent :
        {fork_count : ℕ} {s t : Service R}
        → Step h nodes fork_count s t
        → All IsNodeCheck s.checks × IsCurrent s.proxy
        → All IsNodeCheck t.checks × IsCurrent t.proxy
    unfolding checks_due check_reported file_changed
    step-IsCurrent (due {s}) (a, c) = (
      append-IsNodeCheck s.checks (do_health_checks nodes) a
          (do_health_checks-IsNodeCheck nodes (λ id k. k)),
      c,
    )
    step-IsCurrent (reported {s} i e) (a, c) = on_check-IsCurrent i e s.checks s.proxy a c
    step-IsCurrent (commanded uptime cmd parameters e) inv = inv
    step-IsCurrent (told status) inv = inv
    step-IsCurrent (changed forks first now config) inv =
        elim (Bool-cases (is_master forks first)) [ inl e ↦ rw e inv | inr e ↦ rw e inv ]

    pub Reach-IsCurrent :
        {fork_count : ℕ} {s : Service R}
        → Reach h nodes fork_count s
        → All IsNodeCheck s.checks × IsCurrent s.proxy
    unfolding serve
    Reach-IsCurrent (served config) =
        (do_health_checks-IsNodeCheck nodes (λ id k. k), start-IsCurrent)
    Reach-IsCurrent (stepped reach step) = step-IsCurrent step (Reach-IsCurrent reach)
