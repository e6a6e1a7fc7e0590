-- ===== src/Examples/Proxies.antt =====
-- A proxy with two nodes, and the theorems about it.
use statsd.Base.{
  ◌≡◌, ◌≢◌, refl, true, false, not, ◌&&◌, List, [], ◌∷◌, Option, none, some, if◌then◌else◌, All,
  arith, ◌-◌, map,
}
use statsd.Js.Object.{lookup, keys}
use statsd.Js.Object.Laws.{member-keys}
use statsd.Js.Text.{lower_case, Text, codes, contains, eqb, eqb_iff, eqb_refl, includes, member}
use statsd.Proxy.{Node, node_id, start, healthcheck, answered, timed_out}
use statsd.Proxy.Nodes.{
  healthy, unhealthy, Mark, mark_all, in_ring, is_up, up_after, times_out, nodes_lem, answered_lem,
}
use statsd.Proxy.Cluster.{
  Cluster, Run, launch, relaunch, forked_again, on_online, on_exit, on_message, launched, online,
  died, died_early, told, changed,
}
use statsd.Proxy.Ring.{Hashring, IsRing}
use statsd.Proxy.Routing.{messages_of, bodies, send, datagram, datagram_colon}
use statsd.Proxy.Service.{
  Service, serve, on_check, check_reported, checks_due, file_changed, Reach, served, stepped,
  reported, changed, due,
}
use statsd.Proxy.Service.Routes.{IsToUp, contents, any_up, routes_lem}
use statsd.Proxy.Health.{after_command, asked, HaveStatus, after_command_lem}
use statsd.Proxy.Workers.{Worker, manage, health_command, no_channel}

-- The servers of a ring as a list; every key goes to the first.
abbrev without_server : List Text → Text → List Text
without_server [] k = []
without_server (j ∷ r) k = let rest = without_server r k in if eqb k j then rest else j ∷ rest

abbrev first_server : List Text → Text → Option Text
first_server [] key = none
first_server (n ∷ r) key = some n

abbrev list_ring : Hashring (List Text)
list_ring = record {
  of_servers = keys;
  add = λ r k. k ∷ r;
  remove = without_server;
  get = first_server;
  servers = λ r. r;
}

member-without_server :
    (r : List Text) (j k : Text) → member k (without_server r j) ≡ (not (eqb j k) && member k r)
member-without_server [] j k = ground arith
member-without_server (i ∷ r) j k =
    ground (arith, eqb_iff i k, eqb_iff j i, eqb_iff j k, member-without_server r j k)

first_member : (r : List Text) (key n : Text) → first_server r key ≡ some n → member n r ≡ true
first_member r key n h = ground (arith, eqb_refl n)

first_some : (r : List Text) (key n : Text) → member n r ≡ true → first_server r key ≢ none
first_some [] key n m e = ground arith
first_some (j ∷ r) key n m e = ground arith

list-IsRing : IsRing list_ring
list-IsRing = record {
  member-of_servers = λ m k. member-keys k m;
  member-add = λ r j k. refl;
  member-remove = member-without_server;
  get_member = first_member;
  get_some = first_some;
}

abbrev nodes : List Node
nodes =
    record { host = codes "10.0.0.1"; port = codes "8127" }
    ∷ record { host = codes "10.0.0.2"; port = codes "8127" }
    ∷ []

abbrev second_id : Text
second_id = codes "10.0.0.2:8127"

abbrev marks : List Mark
marks =
    unhealthy second_id
    ∷ unhealthy second_id
    ∷ healthy second_id
    ∷ unhealthy (codes "10.0.0.1:8127")
    ∷ []

second_known : node_id (record { host = codes "10.0.0.2"; port = codes "8127" }) ≡ second_id
unfolding node_id
second_known = refl

nodes_lem_example :
    let p = mark_all list_ring marks (start list_ring nodes) in
    (in_ring list_ring second_id p ≡ is_up (lookup second_id p.node_status))
    × (in_ring list_ring second_id p ≡ up_after second_id marks true)
unfolding node_id
nodes_lem_example = nodes_lem list_ring list-IsRing nodes second_id marks refl

answered_lem_example :
    in_ring list_ring second_id
      (healthcheck list_ring second_id
        (answered (codes "health: up\n") ∷ timed_out ∷ [])
        (false, start list_ring nodes)).1
    ≡ (includes (codes "up") (codes "health: up\n") && not (times_out (timed_out ∷ [])))
unfolding start node_id keys
answered_lem_example =
    answered_lem list_ring list-IsRing second_id (codes "health: up\n") (timed_out ∷ [])
      (start list_ring nodes) refl

abbrev packet : Text
packet = codes "a:1|c\n\nb:2|c\n"

two_messages : bodies (messages_of packet) ≡ codes "a:1|c" ∷ codes "b:2|c" ∷ []
unfolding messages_of
two_messages = refl

abbrev node : Node
node = record { host = codes "10.0.0.2"; port = codes "8127" }

abbrev node_v6 : Node
node_v6 = record { host = codes "::1"; port = codes "8127" }

datagram_colon_example : (datagram (node_id node_v6) (codes "a:1|c")).host ≢ some node_v6.host
unfolding contains
datagram_colon_example = datagram_colon node_v6 (codes "a:1|c") refl

-- Three processes: two come online, and one of them dies; the file changes to two, a process that is not
-- online yet dies, and one tells a status.
abbrev before_change : Cluster
before_change = on_exit 7 (on_online 9 (on_online 7 (launch 3)))

abbrev after_change : Cluster
after_change =
    on_exit 11
      (record (relaunch 2 before_change) { starting = (relaunch 2 before_change).starting - 1 })

abbrev at_end : Cluster
at_end = on_message (codes "down") after_change

run : Run 3 6 at_end
unfolding launch on_online on_exit relaunch forked_again
run = told {c = after_change} (codes "down") (
    died_early {n = 5} {c = relaunch 2 before_change} 11
      (changed {n = 3} {c = before_change} 2 (
        died {n = 3} {c = on_online 9 (on_online 7 (launch 3))} 7
          (online {c = on_online 7 (launch 3)} 9
            (online {c = launch 3} 7 (launched (omega arith)) (omega arith) refl) (omega arith)
            refl)
          refl))
      (omega arith) refl)

abbrev two_up : List Worker
two_up =
    record { pid = 7; health_status = codes "up" }
    ∷ record { pid = 9; health_status = codes "up" }
    ∷ []

after_command_lem_example :
    (after : List Worker) × (after_command 9
        (manage 2 [] (codes "5") [] (codes "health") (codes "DOWN" ∷ []) (codes "up"))
        two_up
      ≡ some after)
    × HaveStatus (asked (codes "health") (codes "DOWN" ∷ []) (codes "up")) after
after_command_lem_example =
    after_command_lem 2 9 [] [] (codes "5") (codes "health") (codes "DOWN" ∷ []) (codes "up") two_up
      (omega arith) (refl, (refl, tt))

-- The second node answers that it is down, the file changes to other nodes, and the checks are due
-- again.
abbrev second_down : Service (List Text)
second_down =
    check_reported list_ring 1 (answered (codes "health: down\n")) (serve list_ring nodes [])

abbrev other_file : Service (List Text)
other_file = file_changed list_ring 0 true (node_v6 ∷ []) (codes "nodes: ::1\n" ∷ []) second_down

abbrev due_again : Service (List Text)
due_again = checks_due list_ring nodes other_file

due_again-Reach : Reach list_ring nodes 0 due_again
due_again-Reach =
    stepped
      (stepped (stepped (served []) (reported 1 (answered (codes "health: down\n"))))
        (changed 0 true (node_v6 ∷ []) (codes "nodes: ::1\n" ∷ [])))
      due

first_only :
    send list_ring due_again.proxy.ring (messages_of packet)
    ≡ map (datagram (codes "10.0.0.1:8127")) (codes "a:1|c" ∷ codes "b:2|c" ∷ [])
unfolding checks_due file_changed check_reported serve on_check start messages_of send keys
first_only = refl

routes_lem_example :
    All
      (IsToUp list_ring nodes due_again.proxy)
      (send list_ring due_again.proxy.ring (messages_of packet))
    × (contents (send list_ring due_again.proxy.ring (messages_of packet))
        ≡ (if any_up nodes due_again.proxy.node_status then bodies (messages_of packet) else []))
routes_lem_example = routes_lem list_ring nodes list-IsRing (messages_of packet) due_again-Reach

-- With one process, which has no master, the command throws.
one_process : health_command 1 (codes "down" ∷ []) (codes "up") ≡ no_channel
unfolding health_command lower_case
one_process = refl
