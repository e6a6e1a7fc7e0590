-- ===== src/Mgmt.antt =====
-- lib/mgmt_console.js: which statistics a request names, and their deletion.
pub mod Commands
pub mod Deletion
pub mod Effects
use statsd.Base.{
  ℕ, ◌-◌, Bool, true, false, ◌&&◌, List, [], ◌∷◌, ◌++◌, ◌==◌, if◌then◌else◌, take, drop, length,
}
use statsd.Js.Object.{Object, has_property, keys, remove}
use statsd.Js.Text.{Text, codes, eqb, starts_with}

-- `bucket.slice(-2) == ".*"`
unfoldable pub is_folder : Text → Bool
is_folder bucket = eqb (drop (length bucket - 2) bucket) (codes ".*")

-- `bucket.slice(0, -1)`
unfoldable pub folder_of : Text → Text
folder_of bucket = take (length bucket - 1) bucket

-- The loop over the names of a folder.
unfoldable pub names_in : Text → List Text → List Text
unfolding starts_with
names_in folder [] = []
names_in folder (name ∷ names) =
    let rest = names_in folder names in if starts_with folder name then name ∷ rest else rest

-- The warning, where nothing is deletable.
unfoldable pub not_found : Text → List Text → List Text
not_found bucket [] = (codes "metric " ++ (bucket ++ codes " not found\n")) ∷ []
not_found bucket (name ∷ names) = []

-- The message of a deletion.
unfoldable pub deleted : Text → Text
deleted name = codes "deleted: " ++ (name ++ codes "\n")

module _ {ℓ} {V : Type ℓ} where
  -- The bucket itself where the object has that property, and the names of its folder.
  unfoldable pub existing_stats : Object V → Text → List Text
  unfolding has_property is_folder folder_of names_in keys
  existing_stats stats_type bucket =
      (if has_property bucket stats_type then bucket ∷ [] else [])
      ++ (if is_folder bucket then names_in (folder_of bucket) (keys stats_type) else [])

  -- The inner loop: each name is deleted, and reported.
  unfoldable pub delete_all : List Text → Object V → Object V × List Text
  unfolding remove deleted
  delete_all [] stats_type = (stats_type, [])
  delete_all (name ∷ names) stats_type =
      let rest = delete_all names (remove name stats_type) in (rest.0, deleted name ∷ rest.1)

  -- The loop over the command line.
  unfoldable pub delete_each : List Text → Object V → Object V × List Text
  unfolding existing_stats delete_all not_found
  delete_each [] stats_type = (stats_type, [])
  delete_each (bucket ∷ cmdline) stats_type =
      let deletable = existing_stats stats_type bucket in
      let step = delete_all deletable stats_type in
      let rest = delete_each cmdline step.0 in
      (rest.0, not_found bucket deletable ++ (step.1 ++ rest.1))

  -- The object after the deletions, and what the stream was written.
  unfoldable pub delete_stats : Object V → List Text → Object V × List Text
  unfolding delete_each
  delete_stats stats_type cmdline =
      let out = delete_each cmdline stats_type in (out.0, out.1 ++ codes "END\n\n" ∷ [])
