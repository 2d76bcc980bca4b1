-- ===== src/Vfs.antt =====
-- components/cyberdeck/src/apps/shell/cyberdeck_vfs_namespace.cpp and its header: the paths of the
-- shell, normalised, and the namespaces and backends that they lead to.
pub mod Paths
pub mod Backends
mod Tests
use cyberdeck.Common.{
  ℕ, zero, suc, ◌+◌, Bool, true, false, not, ◌&&◌, ◌||◌, Option, none, some, List, [], ◌∷◌, ◌++◌,
  length, get_or, ltb, leb, ◌==◌, if◌then◌else◌,
}

-- A C string without its terminator.
abbrev pub Text : Type 0
Text = List ℕ

pub data PathKind : Type 0 where
  invalid root namespace_path : PathKind

pub data BackendKind : Type 0 where
  invalid metadata filesystem null_device : BackendKind

pub record ResolvedPath : Type 0 where
  pub kind : PathKind
  pub namespace_index : ℕ
  pub path : Text

abbrev pub namespace_count : ℕ
namespace_count = 5

abbrev pub data_namespace_index : ℕ
data_namespace_index = 1

abbrev pub dev_namespace_index : ℕ
dev_namespace_index = 2

abbrev pub system_namespace_index : ℕ
system_namespace_index = 4

abbrev pub max_path_bytes : ℕ
max_path_bytes = 256

abbrev pub max_components : ℕ
max_components = 16

abbrev pub max_component_bytes : ℕ
max_component_bytes = 64

abbrev pub slash : ℕ
slash = 0x2F

abbrev pub dot : ℕ
dot = 0x2E

abbrev pub apps_name : Text
apps_name = 97 ∷ 112 ∷ 112 ∷ 115 ∷ []

abbrev pub data_name : Text
data_name = 100 ∷ 97 ∷ 116 ∷ 97 ∷ []

abbrev pub dev_name : Text
dev_name = 100 ∷ 101 ∷ 118 ∷ []

abbrev pub tmp_name : Text
tmp_name = 116 ∷ 109 ∷ 112 ∷ []

abbrev pub system_name : Text
system_name = 115 ∷ 121 ∷ 115 ∷ 116 ∷ 101 ∷ 109 ∷ []

-- The names of `k_entries`.
abbrev pub names : List Text
names = apps_name ∷ data_name ∷ dev_name ∷ tmp_name ∷ system_name ∷ []

abbrev pub empty {ℓ} : {A : Type ℓ} → List A → Bool
empty [] = true
empty (x ∷ xs) = false

pub eq_text : Text → Text → Bool
eq_text [] [] = true
eq_text [] (y ∷ ys) = false
eq_text (x ∷ xs) [] = false
eq_text (x ∷ xs) (y ∷ ys) = (x == y) && eq_text xs ys

-- The components of a text: its runs of bytes other than a slash; `cur` is the run being read.
pub components : Text → Text → List Text
components cur [] = if empty cur then [] else cur ∷ []
components cur (c ∷ text) =
    let fresh = components [] text in
    let longer = components (cur ++ c ∷ []) text in
    if c == slash then (if empty cur then fresh else cur ∷ fresh) else longer

pub drop_last {ℓ} : {A : Type ℓ} → List A → List A
drop_last [] = []
drop_last (x ∷ []) = []
drop_last (x ∷ y ∷ ys) = x ∷ drop_last (y ∷ ys)

-- One component, on those kept so far; nothing where `normalize` fails.
pub put : List Text → Text → Option (List Text)
unfolding eq_text drop_last
put kept c =
    if eq_text c (dot ∷ [])
    then some kept
    else if eq_text c (dot ∷ dot ∷ [])
    then some (drop_last kept)
    else if (length kept == max_components) || ltb max_component_bytes (length c)
    then none
    else some (kept ++ c ∷ [])

pub put_all : List Text → List Text → Option (List Text)
unfolding put
put_all kept [] = some kept
put_all kept (c ∷ cs) = elim (put kept c) [ none ↦ none | some more ↦ put_all more cs ]

pub append_component : Text → Text → Option Text
append_component path c =
    if empty c
      || ltb max_component_bytes (length c)
      || ltb max_path_bytes (length path + length c + 1)
    then none
    else some ((if length path == 1 then path else path ++ slash ∷ []) ++ c)

pub append_all : Text → List Text → Option Text
unfolding append_component
append_all path [] = some path
append_all path (c ∷ cs) = elim (append_component path c) [
  | none ↦ none
  | some longer ↦ append_all longer cs
]

abbrev pub is_absolute : Text → Bool
is_absolute text = get_or text 0 0 == slash

pub normalize : Text → Text → Option Text
unfolding components put_all append_all
normalize cwd operand =
    if not (is_absolute cwd)
    then none
    else elim (if is_absolute operand
        then put_all [] (components [] operand)
        else put_all [] (components [] cwd ++ components [] operand)) [
          | none ↦ none
          | some kept ↦ append_all (slash ∷ []) kept
        ]

-- The bytes before the first slash.
pub until_slash : Text → Text
until_slash [] = []
until_slash (c ∷ text) = let rest = until_slash text in if c == slash then [] else c ∷ rest

pub index_of : ℕ → List Text → Text → Option ℕ
unfolding eq_text
index_of i [] c = none
index_of i (name ∷ more) c = if eq_text name c then some i else index_of (suc i) more c

pub after_first : Text → Text
after_first [] = []
after_first (c ∷ text) = text

pub resolve : Text → Text → Option ResolvedPath
unfolding normalize until_slash index_of after_first
resolve cwd operand = elim (normalize cwd operand) [
  | none ↦ none
  | some path ↦
      if length path == 1
      then some (record { kind = root; namespace_index = 0; path = path })
      else elim (index_of 0 names (until_slash (after_first path))) [
        | none ↦ none
        | some i ↦ some (record { kind = namespace_path; namespace_index = i; path = path })
      ]
]

abbrev null_path : Text
null_path = 47 ∷ 100 ∷ 101 ∷ 118 ∷ 47 ∷ 110 ∷ 117 ∷ 108 ∷ 108 ∷ []

pub backend_for : ResolvedPath → BackendKind
unfolding eq_text
backend_for r = elim r.kind [
  | namespace_path ↦
      if (r.namespace_index == data_namespace_index)
        || (r.namespace_index == system_namespace_index)
      then filesystem
      else if (r.namespace_index == dev_namespace_index) && eq_text r.path null_path
      then null_device
      else metadata
  | _ ↦ BackendKind.invalid
]

pub is_filesystem_backend : ResolvedPath → Bool
unfolding backend_for
is_filesystem_backend r = elim (backend_for r) [ filesystem ↦ true | _ ↦ false ]

pub is_mutable_backend : ResolvedPath → Bool
unfolding is_filesystem_backend
is_mutable_backend r = is_filesystem_backend r && (r.namespace_index == data_namespace_index)

pub is_null_device : ResolvedPath → Bool
unfolding backend_for
is_null_device r = elim (backend_for r) [ null_device ↦ true | _ ↦ false ]

pub has_slash : Text → Bool
has_slash [] = false
has_slash (c ∷ text) = (c == slash) || has_slash text

pub is_namespace_root : Text → Bool
unfolding resolve has_slash
is_namespace_root text = elim (resolve (slash ∷ []) text) [
  | none ↦ false
  | some r ↦ elim r.kind [ namespace_path ↦ not (has_slash (after_first r.path)) | _ ↦ false ]
]
