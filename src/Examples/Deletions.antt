-- ===== src/Examples/Deletions.antt =====
-- Requests of the management console, and the theorems about them.
use statsd.Base.{ℕ, ◌≡◌, refl, true, false, List, [], ◌∷◌, none, if◌then◌else◌, some_of}
use statsd.Js.Object.{Object, has, is_inherited, lookup}
use statsd.Js.Text.{Text, codes}
use statsd.Mgmt.{delete_stats, deleted, is_folder}
use statsd.Mgmt.Deletion.{names, lookup-delete_stats, delete_stats_inherited}

abbrev table : Object ℕ
table = (codes "a.x", 1) ∷ (codes "b", 2) ∷ []

abbrev request : List Text
request = codes "a.*" ∷ codes "c" ∷ []

deletion : delete_stats table request ≡ (
  (codes "b", 2) ∷ [],
  codes "deleted: a.x\n" ∷ codes "metric c not found\n" ∷ codes "END\n\n" ∷ [],
)
unfolding delete_stats
deletion = refl

lookup-delete_stats_example :
    lookup (codes "b") (delete_stats table request).0
    ≡ (if some_of (λ b. names b (codes "b")) request then none else lookup (codes "b") table)
lookup-delete_stats_example = lookup-delete_stats table request (codes "b")

constructor_facts :
    (is_inherited (codes "constructor") ≡ true)
    × (is_folder (codes "constructor") ≡ false)
    × (has (codes "constructor") table ≡ false)
unfolding is_inherited is_folder has
constructor_facts = (refl, refl, refl)

delete_stats_inherited_example :
    ((delete_stats table (codes "constructor" ∷ [])).1
      ≡ deleted (codes "constructor") ∷ codes "END\n\n" ∷ [])
    × (lookup (codes "b") (delete_stats table (codes "constructor" ∷ [])).0
        ≡ lookup (codes "b") table)
delete_stats_inherited_example =
    let (i, f, h) = constructor_facts in
    delete_stats_inherited table (codes "constructor") (codes "b") i f h
