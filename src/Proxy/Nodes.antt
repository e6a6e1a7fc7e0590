-- ===== src/Proxy/Nodes.antt =====
-- Which nodes are in the ring, after any marks and health checks.
use statsd.Base.{
  ℕ, zero, suc, ◌≡◌, refl, ap, ◌∙◌, Bool, true, false, not, ◌&&◌, ◌||◌, List, [], ◌∷◌, Option, none,
  some, arith, Bool-cases, inl, inr,
}
use statsd.Js.Object.{Object, lookup, has, put}
use statsd.Js.Object.Laws.{lookup-put, has-put}
use statsd.Js.Text.{Text, codes, eqb, eqb_iff, eqb_refl, includes, member}
use statsd.Proxy.{
  Node, Proxy, node_id, node_ring_of, start, heard, restored, failures, mark_node_as_healthy,
  mark_node_as_unhealthy, CheckEvent, timed_out, answered, failed, check_event, healthcheck,
}
use statsd.Proxy.Ring.{Hashring, IsRing}

-- A node has not failed, or answered since.
abbrev pub is_up : Option ℕ → Bool
is_up none = true
is_up (some zero) = true
is_up (some (suc n)) = false

-- What a health check found of a node.
pub data Mark : Type 0 where
  healthy : Text → Mark
  unhealthy : Text → Mark

-- Whether a node is up after marks, from what it was before.
abbrev pub up_after : Text → List Mark → Bool → Bool
up_after id [] up = up
up_after id (healthy j ∷ marks) up = up_after id marks (eqb j id || up)
up_after id (unhealthy j ∷ marks) up = up_after id marks (not (eqb j id) && up)

-- Whether a list of nodes has one with a name.
abbrev pub is_node : Text → List Node → Bool
is_node id [] = false
is_node id (node ∷ nodes) = eqb (node_id node) id || is_node id nodes

abbrev pub verdict : Bool → Text → Mark
verdict true id = healthy id
verdict false id = unhealthy id

-- The marks that the events of a check make, with `ended` before.
abbrev pub marks_of : Text → Bool → List CheckEvent → List Mark
marks_of id ended [] = []
marks_of id ended (timed_out ∷ events) = unhealthy id ∷ marks_of id true events
marks_of id true (answered answer ∷ events) = marks_of id true events
marks_of id false (answered answer ∷ events) =
    verdict (includes (codes "up") answer) id ∷ marks_of id true events
marks_of id true (failed ∷ events) = marks_of id true events
marks_of id false (failed ∷ events) = unhealthy id ∷ marks_of id false events

-- whether one of the events is a time-out
abbrev pub times_out : List CheckEvent → Bool
times_out [] = false
times_out (timed_out ∷ events) = true
times_out (answered answer ∷ events) = times_out events
times_out (failed ∷ events) = times_out events

module _ {ℓ} {R : Type ℓ} (h : Hashring R) where
  abbrev pub mark : Mark → Proxy R → Proxy R
  mark (healthy id) p = mark_node_as_healthy h id p
  mark (unhealthy id) p = mark_node_as_unhealthy h id p

  abbrev pub mark_all : List Mark → Proxy R → Proxy R
  mark_all [] p = p
  mark_all (m ∷ marks) p = mark_all marks (mark m p)

  abbrev pub in_ring : Text → Proxy R → Bool
  in_ring id p = member id (h.servers p.ring)

  -- A node is in the ring exactly if it is up.
  abbrev pub IsConsistent : Text → Proxy R → Type 0
  IsConsistent id p = in_ring id p ≡ is_up (lookup id p.node_status)

  module _ (r : IsRing h) where
    mark_lem :
        (id : Text) (m : Mark) (p : Proxy R)
        → IsConsistent id p
        → IsConsistent id (mark m p) × (in_ring id (mark m p) ≡ up_after id (m ∷ []) (in_ring id p))
    unfolding mark_node_as_healthy mark_node_as_unhealthy restored failures
    mark_lem id (healthy j) p c = elim (Bool-cases (eqb j id)) [
      | inl e ↦
          let same : j ≡ id = (eqb_iff j id).0 e in
          ground (arith, r.member-add p.ring j id, lookup-put j id 0 p.node_status)
      | inr e ↦ ground (arith, r.member-add p.ring j id, lookup-put j id 0 p.node_status)
    ]
    mark_lem id (unhealthy j) p c =
        let n = failures (lookup j p.node_status) in
        elim (Bool-cases (eqb j id)) [
          | inl e ↦
              let same : j ≡ id = (eqb_iff j id).0 e in
              ground (arith, r.member-remove p.ring j id, lookup-put j id n p.node_status)
          | inr e ↦ ground (arith, r.member-remove p.ring j id, lookup-put j id n p.node_status)
        ]

    mark_all_lem :
        (id : Text) (marks : List Mark) (p : Proxy R)
        → IsConsistent id p
        → IsConsistent id (mark_all marks p)
          × (in_ring id (mark_all marks p) ≡ up_after id marks (in_ring id p))
    mark_all_lem id [] p c = (c, refl)
    mark_all_lem id (m ∷ marks) p c =
        let (c', one) = mark_lem id m p c in
        let (c'', rest) = mark_all_lem id marks (mark m p) c' in
        (c'', rest ∙ ap (up_after id marks) one ∙ up_after-step id m marks (in_ring id p))
      where
        up_after-step :
            (id : Text) (m : Mark) (marks : List Mark) (up : Bool)
            → up_after id marks (up_after id (m ∷ []) up) ≡ up_after id (m ∷ marks) up
        up_after-step id (healthy j) marks up = refl
        up_after-step id (unhealthy j) marks up = refl

    pub has-node_ring_of :
        (id : Text) (nodes : List Node) (m : Object ℕ)
        → has id (node_ring_of nodes m) ≡ (is_node id nodes || has id m)
    unfolding node_ring_of
    has-node_ring_of id [] m = refl
    has-node_ring_of id (node ∷ nodes) m = ground (
      arith,
      has-node_ring_of id nodes (put (node_id node) 100 m),
      has-put (node_id node) id 100 m,
    )

    -- After the start and any marks, in any order and of any nodes, a node of the configuration is in the
    -- ring exactly if its number of failures in a row is not positive, and exactly if its last mark was
    -- healthy or it has none.
    pub nodes_lem :
        (nodes : List Node) (id : Text) (marks : List Mark)
        → is_node id nodes ≡ true
        → let p = mark_all marks (start h nodes) in
          (in_ring id p ≡ is_up (lookup id p.node_status)) × (in_ring id p ≡ up_after id marks true)
    unfolding start has
    nodes_lem nodes id marks known =
        let here : in_ring id (start h nodes) ≡ true =
          r.member-of_servers (node_ring_of nodes []) id
          ∙ has-node_ring_of id nodes []
          ∙ ground arith in
        let (c, after) = mark_all_lem id marks (start h nodes) here in
        (c, after ∙ ap (up_after id marks) here)

    pub mark-verdict :
        (up : Bool) (id : Text) (p : Proxy R) → heard h up id p ≡ mark (verdict up id) p
    unfolding heard
    mark-verdict true id p = refl
    mark-verdict false id p = refl

    -- A health check marks its node as `marks_of` lists.
    pub healthcheck-mark_all :
        (id : Text) (events : List CheckEvent) (ended : Bool) (p : Proxy R)
        → (healthcheck h id events (ended, p)).1 ≡ mark_all (marks_of id ended events) p
    unfolding healthcheck check_event
    healthcheck-mark_all id [] ended p = refl
    healthcheck-mark_all id (timed_out ∷ events) ended p =
        healthcheck-mark_all id events true (mark_node_as_unhealthy h id p)
    healthcheck-mark_all id (answered answer ∷ events) true p =
        healthcheck-mark_all id events true p
    healthcheck-mark_all id (answered answer ∷ events) false p =
        let up = includes (codes "up") answer in
        healthcheck-mark_all id events true (heard h up id p)
        ∙ ap (mark_all (marks_of id true events)) (mark-verdict up id p)
    healthcheck-mark_all id (failed ∷ events) true p = healthcheck-mark_all id events true p
    healthcheck-mark_all id (failed ∷ events) false p =
        healthcheck-mark_all id events false (mark_node_as_unhealthy h id p)

    up_after-ended :
        (id : Text) (events : List CheckEvent) (up : Bool)
        → up_after id (marks_of id true events) up ≡ (not (times_out events) && up)
    up_after-ended id [] up = ground arith
    up_after-ended id (timed_out ∷ events) up =
        ground (arith, eqb_refl id, up_after-ended id events (not (eqb id id) && up))
    up_after-ended id (answered answer ∷ events) up = up_after-ended id events up
    up_after-ended id (failed ∷ events) up = up_after-ended id events up

    -- A health check whose node answers decides by the answer alone, and not by what the socket reports
    -- behind it, except that a time-out behind the answer takes the node out of the ring even if it
    -- answered `up`.
    pub answered_lem :
        (id answer : Text) (events : List CheckEvent) (p : Proxy R)
        → in_ring id p ≡ is_up (lookup id p.node_status)
        → in_ring id (healthcheck h id (answered answer ∷ events) (false, p)).1
          ≡ (includes (codes "up") answer && not (times_out events))
    answered_lem id answer events p c =
        let marks = marks_of id false (answered answer ∷ events) in
        rw (healthcheck-mark_all id (answered answer ∷ events) false p) (
          (mark_all_lem id marks p c).1 ∙ elim (Bool-cases (includes (codes "up") answer)) [
            | inl e ↦ ground (arith, eqb_refl id, up_after-ended id events true)
            | inr e ↦ ground (arith, eqb_refl id, up_after-ended id events false)
          ])
