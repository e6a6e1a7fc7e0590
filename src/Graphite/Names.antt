-- ===== src/Graphite/Names.antt =====
-- backends/graphite.js: what `format` makes of a key with tags and of one without.
use statsd.Base.{◌≡◌, ap, ◌∙◌, false, List, [], ◌∷◌, ◌++◌}
use statsd.Graphite.{format, format_parts, sk, tags_of}
use statsd.Graphite.Settings.{Graphite}
use statsd.Js.Text.{Text, codes, contains, split, join}
use statsd.Js.Text.Split.{split_one, split_at, join-split}

-- A name without a semicolon stands behind the namespace, sanitised if that is not done for all keys,
-- in front of the other components and the suffix; the tags of a key stand behind the suffix as they
-- are.
format_lem :
    (g : Graphite) (namespace : List Text) (name tags : Text) (more : List Text)
    → contains b';' name ≡ false
    → let path = join (codes ".") (namespace ++ (sk g name ∷ more)) in
      (format g namespace name more ≡ path ++ (g.global_suffix ++ []))
      × (format g namespace (name ++ (b';' ∷ tags)) more
          ≡ path ++ (g.global_suffix ++ (b';' ∷ tags)))
unfolding format tags_of split
format_lem g namespace name tags more h =
    let of_parts = λ (parts : List Text). format_parts g namespace more parts in
    (
      ap of_parts (split_one b';' name h),
      ap of_parts (split_at b';' name tags h)
          ∙ ap
              (λ t.
                join (codes ".") (namespace ++ (sk g name ∷ more))
                ++ (g.global_suffix ++ (b';' ∷ t)))
              (join-split b';' tags),
    )
