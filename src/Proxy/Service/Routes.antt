-- ===== src/Proxy/Service/Routes.antt =====
-- proxy.js as a whole: the nodes that metrics go to, in the states that a process comes to.
use statsd.Base.{
  ℕ, ◌≡◌, ◌≢◌, refl, ap, subst, Bool, true, false, ◌&&◌, ◌||◌, List, [], ◌∷◌, ◌++◌, Option, none,
  some, if◌then◌else◌, All, arith, Bool-cases, inl, inr,
}
use statsd.Js.Object.{Object, lookup}
use statsd.Js.Text.{Text, eqb, eqb_iff, eqb_refl}
use statsd.Proxy.{Node, Proxy, node_id}
use statsd.Proxy.Nodes.{is_up, is_node}
use statsd.Proxy.Ring.{Hashring, IsRing}
use statsd.Proxy.Routing.{Message, Datagram, send, sent, send_lem, IsFromRing, datagram, bodies}
use statsd.Proxy.Service.{Service, Reach}
use statsd.Proxy.Service.Current.{IsCurrent, Reach-IsCurrent}

-- Some of the nodes is up.
abbrev pub any_up : List Node → Object ℕ → Bool
any_up [] m = false
any_up (node ∷ nodes) m = is_up (lookup (node_id node) m) || any_up nodes m

any_up-some :
    (nodes : List Node) (m : Object ℕ)
    → any_up nodes m ≡ true
    → (id : Text) × (is_node id nodes ≡ true) × (is_up (lookup id m) ≡ true)
any_up-some (node ∷ nodes) m u = elim (Bool-cases (is_up (lookup (node_id node) m))) [
  | inl e ↦ (node_id node, ground (arith, eqb_refl (node_id node)), e)
  | inr e ↦
      let (id, k, up) = any_up-some nodes m (ground (arith, u, e)) in (id, ground (arith, k), up)
]
any_up-some [] m u = absurd (ground (arith, u))

any_up-none :
    (id : Text) (nodes : List Node) (m : Object ℕ)
    → any_up nodes m ≡ false
    → (is_node id nodes && is_up (lookup id m)) ≡ false
any_up-none id [] m u = refl
any_up-none id (node ∷ nodes) m u = elim (Bool-cases (eqb (node_id node) id)) [
  | inl e ↦
      let same : node_id node ≡ id = (eqb_iff (node_id node) id).0 e in
      let down : is_up (lookup id m) ≡ false =
        subst (λ j. is_up (lookup j m) ≡ false) same (ground (arith, u)) in
      ground (arith, down)
  | inr e ↦ ground (arith, e, u, any_up-none id nodes m (ground (arith, u)))
]

abbrev pub contents : List Datagram → List Text
contents [] = []
contents (d ∷ ds) = d.body ∷ contents ds

module _ {ℓ} {R : Type ℓ} (h : Hashring R) (nodes : List Node) where
  -- A datagram for a node that is up, made from its name.
  abbrev pub IsToUp : Proxy R → Datagram → Type 0
  IsToUp p d =
      (n : Text) × (is_node n nodes ≡ true)
      × (is_up (lookup n p.node_status) ≡ true)
      × (d ≡ datagram n d.body)

  module _ (r : IsRing h) where
    -- what the ring's `get` decides
    send-all :
        (ring : R) (ms : List Message)
        → ((key : Text) → h.get ring key ≢ none)
        → contents (send h ring ms) ≡ bodies ms
    unfolding send datagram
    send-all ring [] found = refl
    send-all ring (m ∷ ms) found = go (h.get ring m.key) refl (send-all ring ms found)
      where
        go :
            (host : Option Text)
            → h.get ring m.key ≡ host
            → contents (send h ring ms) ≡ bodies ms
            → contents (sent host m.body ++ send h ring ms) ≡ m.body ∷ bodies ms
        go none e rest = absurd (found m.key e)
        go (some n) e rest = ap (◌∷◌ m.body) rest

    send-nothing :
        (ring : R) (ms : List Message)
        → ((key : Text) → h.get ring key ≡ none)
        → contents (send h ring ms) ≡ []
    unfolding send
    send-nothing ring [] none_found = refl
    send-nothing ring (m ∷ ms) none_found = rw (none_found m.key) (send-nothing ring ms none_found)

    IsToUp-of :
        (p : Proxy R) (ds : List Datagram)
        → IsCurrent h nodes p
        → All (IsFromRing h p.ring) ds
        → All (IsToUp p) ds
    IsToUp-of p [] c a = tt
    IsToUp-of p (d ∷ ds) c ((n, m, e), a) =
        let here = c n in
        ((n, ground (arith, here, m), ground (arith, here, m), e), IsToUp-of p ds c a)

    contents-send :
        (p : Proxy R) (ms : List Message)
        → IsCurrent h nodes p
        → contents (send h p.ring ms) ≡ (if any_up nodes p.node_status then bodies ms else [])
    contents-send p ms c = go (any_up nodes p.node_status) refl
      where
        nowhere :
            (key : Text) (host : Option Text)
            → any_up nodes p.node_status ≡ false
            → h.get p.ring key ≡ host
            → host ≡ none
        nowhere key none u e = refl
        nowhere key (some n) u e =
            let here = c n in
            ground (arith, here, r.get_member p.ring key n e, any_up-none n nodes p.node_status u)

        go :
            (up : Bool)
            → any_up nodes p.node_status ≡ up
            → contents (send h p.ring ms) ≡ (if up then bodies ms else [])
        go true u =
            let (id, k, up) = any_up-some nodes p.node_status u in
            let here = c id in
            send-all p.ring ms (λ key. r.get_some p.ring key id (ground (arith, here, k, up)))
        go false u = send-nothing p.ring ms (λ key. nowhere key (h.get p.ring key) u refl)

    -- In every state that a process comes to from the nodes of the file at its start, whatever checks,
    -- commands, messages and changes of the file come, and in whatever order their sockets report: each
    -- datagram is made from the name of one of these nodes that is up, and of the metrics all are sent, in
    -- their order, if some of these nodes is up, and none otherwise.
    pub routes_lem :
        {fork_count : ℕ} {s : Service R} (ms : List Message)
        → Reach h nodes fork_count s
        → All (IsToUp s.proxy) (send h s.proxy.ring ms)
          × (contents (send h s.proxy.ring ms)
              ≡ (if any_up nodes s.proxy.node_status then bodies ms else []))
    routes_lem {s} ms reach =
        let c = (Reach-IsCurrent h nodes r reach).1 in
        (
          IsToUp-of s.proxy (send h s.proxy.ring ms) c (send_lem h r s.proxy.ring ms),
          contents-send s.proxy ms c,
        )
