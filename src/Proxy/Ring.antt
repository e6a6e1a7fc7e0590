-- ===== src/Proxy/Ring.antt =====
-- The package `hashring` as an interface: the operations that proxy.js calls, and what their
-- documentation says of the servers in a ring. (All weights are 100.)
use statsd.Base.{ℕ, ◌≡◌, ◌≢◌, true, not, ◌&&◌, ◌||◌, List, Option, some, none}
use statsd.Js.Object.{Object, has}
use statsd.Js.Text.{Text, eqb, member}

pub record Hashring {ℓ} (R : Type ℓ) : Type ℓ where
  -- `new hashring(servers, …)`
  pub of_servers : Object ℕ → R
  pub add : R → Text → R
  pub remove : R → Text → R
  pub get : R → Text → Option Text
  pub servers : R → List Text

-- What a ring has after each operation; a key goes to a server in the ring, if there is one.
pub record IsRing {ℓ} {R : Type ℓ} (h : Hashring R) : Type ℓ where
  pub member-of_servers :
      (m : Object ℕ) (k : Text) → member k (h.servers (h.of_servers m)) ≡ has k m
  pub member-add :
      (r : R) (j k : Text) → member k (h.servers (h.add r j)) ≡ (eqb j k || member k (h.servers r))
  pub member-remove :
      (r : R) (j k : Text)
      → member k (h.servers (h.remove r j)) ≡ (not (eqb j k) && member k (h.servers r))
  pub get_member : (r : R) (key n : Text) → h.get r key ≡ some n → member n (h.servers r) ≡ true
  pub get_some : (r : R) (key n : Text) → member n (h.servers r) ≡ true → h.get r key ≢ none
