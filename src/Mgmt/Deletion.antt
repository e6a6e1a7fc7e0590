-- ===== src/Mgmt/Deletion.antt =====
-- What `delete_stats` removes, keeps and reports.
use statsd.Base.{
  ◌≡◌, refl, Bool, true, false, ◌&&◌, ◌||◌, List, [], ◌∷◌, ◌++◌, none, arith, if◌then◌else◌,
  some_of, ◌==◌,
}
use statsd.Js.Object.{Object, has, has_property, is_inherited, keys, lookup, remove}
use statsd.Js.Object.Laws.{lookup-remove, member-keys}
use statsd.Js.Text.{Text, codes, eqb, eqb_iff, starts_with, member}
use statsd.Mgmt.{
  is_folder, folder_of, names_in, existing_stats, delete_all, delete_each, delete_stats, deleted,
  not_found,
}

-- A key stands below a folder: the request ends with `.*`, and the key has what is in front of the
-- star and then anything.
abbrev pub is_below : Text → Text → Bool
is_below [] key = false
is_below (c ∷ bucket) [] = false
is_below (c ∷ bucket) (d ∷ key) =
    c == d && ((c == b'.' && eqb bucket (codes "*")) || is_below bucket key)

-- A request names a key: the key itself, or a folder that it is below.
abbrev pub names : Text → Text → Bool
names bucket key = eqb bucket key || is_below bucket key

-- what the code tests of a folder
is_below_lem :
    (bucket key : Text)
    → (is_folder bucket && starts_with (folder_of bucket) key) ≡ is_below bucket key
unfolding is_folder folder_of starts_with
is_below_lem [] key = refl
is_below_lem (c ∷ []) [] = ground arith
is_below_lem (c ∷ []) (d ∷ key) = ground arith
is_below_lem (c ∷ e ∷ []) [] = ground arith
is_below_lem (c ∷ e ∷ []) (d ∷ []) = ground arith
is_below_lem (c ∷ e ∷ []) (d ∷ f ∷ key) = ground arith
is_below_lem (c ∷ e ∷ f ∷ bucket) [] = ground arith
is_below_lem (c ∷ e ∷ f ∷ bucket) (d ∷ key) = ground (arith, is_below_lem (e ∷ f ∷ bucket) key)

member-append :
    (key : Text) (xs ys : List Text) → member key (xs ++ ys) ≡ (member key xs || member key ys)
member-append key [] ys = refl
member-append key (x ∷ xs) ys = ground (arith, member-append key xs ys)

member-names_in :
    (folder key : Text) (ks : List Text)
    → member key (names_in folder ks) ≡ (member key ks && starts_with folder key)
unfolding names_in
member-names_in folder key [] = refl
member-names_in folder key (k ∷ ks) = ground (arith, member-names_in folder key ks, eqb_iff k key)

module _ {ℓ} {V : Type ℓ} where
  -- Among the keys of the object, those found are the ones that the request names.
  pub member-existing_stats :
      (m : Object V) (bucket key : Text)
      → has key m ≡ true
      → member key (existing_stats m bucket) ≡ names bucket key
  unfolding existing_stats has_property
  member-existing_stats m bucket key h = ground (
    arith,
    member-append key (if has bucket m || is_inherited bucket then bucket ∷ [] else [])
        (if is_folder bucket then names_in (folder_of bucket) (keys m) else []),
    member-names_in (folder_of bucket) key (keys m),
    member-keys key m,
    eqb_iff bucket key,
    is_below_lem bucket key,
  )

  lookup-delete_all :
      (ks : List Text) (m : Object V) (key : Text)
      → lookup key (delete_all ks m).0 ≡ (if member key ks then none else lookup key m)
  unfolding delete_all
  lookup-delete_all [] m key = refl
  lookup-delete_all (k ∷ ks) m key =
      ground (arith, lookup-delete_all ks (remove k m) key, lookup-remove k key m)

  lookup-delete_each :
      (cmdline : List Text) (m : Object V) (key : Text)
      → lookup key (delete_each cmdline m).0
        ≡ (if some_of (λ b. names b key) cmdline then none else lookup key m)
  unfolding delete_each
  lookup-delete_each [] m key = refl
  lookup-delete_each (b ∷ bs) m key =
      let found = existing_stats m b in
      ground (
        arith,
        lookup-delete_each bs (delete_all found m).0 key,
        lookup-delete_all found m key,
        member-existing_stats m b key,
      )

  reported_all :
      (ks : List Text) (m : Object V) (key : Text)
      → member key ks ≡ true
      → member (deleted key) (delete_all ks m).1 ≡ true
  unfolding delete_all
  reported_all [] m key h = cc
  reported_all (k ∷ ks) m key h =
      ground
        (arith, reported_all ks (remove k m) key, eqb_iff k key, eqb_iff (deleted k) (deleted key))

  reported_each :
      (cmdline : List Text) (m : Object V) (key : Text)
      → has key m ≡ true
      → some_of (λ b. names b key) cmdline ≡ true
      → member (deleted key) (delete_each cmdline m).1 ≡ true
  unfolding delete_each has
  reported_each [] m key h e = cc
  reported_each (b ∷ bs) m key h e =
      let found = existing_stats m b in
      let step = delete_all found m in
      let line = deleted key in
      ground (
        arith,
        reported_each bs step.0 key,
        reported_all found m key,
        lookup-delete_all found m key,
        member-existing_stats m b key,
        member-append line (not_found b found) (step.1 ++ (delete_each bs step.0).1),
        member-append line step.1 (delete_each bs step.0).1,
      )

  -- After the deletions a key is gone if some request names it, itself or by its folder `….*`, and has
  -- its value otherwise.
  pub lookup-delete_stats :
      (m : Object V) (cmdline : List Text) (key : Text)
      → lookup key (delete_stats m cmdline).0
        ≡ (if some_of (λ b. names b key) cmdline then none else lookup key m)
  unfolding delete_stats
  lookup-delete_stats m cmdline key = lookup-delete_each cmdline m key

  -- A key of the table that some request names is reported as deleted.
  pub delete_stats_reported :
      (m : Object V) (cmdline : List Text) (key : Text)
      → has key m ≡ true
      → some_of (λ b. names b key) cmdline ≡ true
      → member (deleted key) (delete_stats m cmdline).1 ≡ true
  unfolding delete_stats
  delete_stats_reported m cmdline key h e = ground (
    arith,
    reported_each cmdline m key h e,
    member-append (deleted key) (delete_each cmdline m).1 (codes "END\n\n" ∷ []),
  )

  -- A name that every object inherits is reported as deleted though the table has no such key, and the
  -- table stays as it was.
  pub delete_stats_inherited :
      (m : Object V) (bucket key : Text)
      → is_inherited bucket ≡ true
      → is_folder bucket ≡ false
      → has bucket m ≡ false
      → ((delete_stats m (bucket ∷ [])).1 ≡ deleted bucket ∷ codes "END\n\n" ∷ [])
        × (lookup key (delete_stats m (bucket ∷ [])).0 ≡ lookup key m)
  unfolding delete_stats delete_each existing_stats has_property delete_all has not_found
  delete_stats_inherited m bucket key i f h =
      rw (i, f) (ground arith, ground (arith, lookup-remove bucket key m, eqb_iff bucket key))
