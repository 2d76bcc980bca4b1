-- ===== src/Vfs/Tests.antt =====
-- The paths of the shell on concrete texts, and their theorem applied to them.
use cyberdeck.Common.{◌≡◌, ◌≤◌, refl, true, some, List, [], ◌∷◌, length}
use cyberdeck.Vfs.{
  Text, ResolvedPath, namespace_path, slash, dot, max_path_bytes, max_components, resolve,
  normalize, components, put_all, put, append_all, append_component, drop_last, eq_text,
  until_slash, index_of, after_first, is_mutable_backend, is_filesystem_backend, backend_for,
}
use cyberdeck.Vfs.Paths.{path_of, all_components, resolve-path_of}

-- `/data/a`, and `../../dev/./x` from there.
abbrev home : Text
home = slash ∷ 100 ∷ 97 ∷ 116 ∷ 97 ∷ slash ∷ 97 ∷ []

abbrev upward : Text
upward =
    dot ∷ dot ∷ slash ∷ dot ∷ dot ∷ slash ∷ dot ∷ dot ∷ slash ∷ 100 ∷ 101 ∷ 118 ∷ slash ∷ dot
    ∷ slash ∷ 120 ∷ []

abbrev device : ResolvedPath
device = record {
  kind = namespace_path;
  namespace_index = 2;
  path = slash ∷ 100 ∷ 101 ∷ 118 ∷ slash ∷ 120 ∷ [];
}

upward_lem : resolve home upward ≡ some device
unfolding resolve normalize components put_all put append_all append_component drop_last eq_text
    until_slash index_of after_first
upward_lem = refl

resolve-path_of_example :
    (cs : List Text) × (device.path ≡ path_of cs)
    × (all_components cs ≡ true)
    × (length cs ≤ max_components)
    × (length device.path ≤ max_path_bytes)
resolve-path_of_example = resolve-path_of home upward device upward_lem

-- `/data/a` from itself.
abbrev file : ResolvedPath
file = record { kind = namespace_path; namespace_index = 1; path = home }

file_lem : (resolve home home ≡ some file) × (is_mutable_backend file ≡ true)
unfolding resolve normalize components put_all put append_all append_component drop_last eq_text
    until_slash index_of after_first is_mutable_backend is_filesystem_backend backend_for
file_lem = (refl, refl)
