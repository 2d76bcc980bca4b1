-- ===== src/Vfs/Backends.antt =====
-- Where a path can be written.
use cyberdeck.Common.{
  ℕ, ◌≡◌, refl, sym, Bool, true, false, Option, none, some, Option-cases, inl, inr, [], ◌∷◌, length,
  ◌==◌, if◌then◌else◌, arith,
}
use cyberdeck.Vfs.{
  Text, PathKind, ResolvedPath, root, namespace_path, names, apps_name, dev_name, tmp_name,
  system_name, data_name, eq_text, normalize, until_slash, index_of, after_first, resolve,
  backend_for, is_filesystem_backend, is_mutable_backend,
}

eq_text_sound : (a b : Text) → eq_text a b ≡ true → a ≡ b
unfolding eq_text
eq_text_sound [] [] e = refl
eq_text_sound [] (y ∷ ys) e = ground arith
eq_text_sound (x ∷ xs) [] e = ground arith
eq_text_sound (x ∷ xs) (y ∷ ys) e = ground (arith, eq_text_sound xs ys)

-- The first of five tests that holds.
abbrev first_of : Bool → Bool → Bool → Bool → Bool → Option ℕ
first_of a b c d e =
    if a
    then some 0
    else if b
    then some 1
    else if c
    then some 2
    else if d
    then some 3
    else if e
    then some 4
    else none

second_of : (a b c d e : Bool) → first_of a b c d e ≡ some 1 → b ≡ true
second_of true b c d e h = absurd (ground arith)
second_of false true c d e h = refl
second_of false false true d e h = absurd (ground arith)
second_of false false false true e h = absurd (ground arith)
second_of false false false false true h = absurd (ground arith)
second_of false false false false false h = absurd (ground arith)

index_of_data : (c : Text) → index_of 0 names c ≡ some 1 → eq_text data_name c ≡ true
unfolding index_of
index_of_data c e =
    second_of (eq_text apps_name c) (eq_text data_name c) (eq_text dev_name c) (eq_text tmp_name c)
      (eq_text system_name c) e

mutable_index :
    (r : ResolvedPath)
    → is_mutable_backend r ≡ true
    → (r.kind ≡ namespace_path) × (r.namespace_index ≡ 1)
unfolding is_mutable_backend is_filesystem_backend backend_for
mutable_index r h = by_kind r.kind refl
  where
    by_kind : (k : PathKind) → r.kind ≡ k → (r.kind ≡ namespace_path) × (r.namespace_index ≡ 1)
    by_kind PathKind.invalid e = ground arith
    by_kind root e = ground arith
    by_kind namespace_path e = ground arith

writable_path :
    (path : Text) (b : Bool) (o : Option ℕ) (r : ResolvedPath)
    → (if b then some (record { kind = root; namespace_index = 0; path = path }) else elim o [
      | none ↦ none
      | some i ↦ some (record { kind = namespace_path; namespace_index = i; path = path })
    ])
      ≡ some r
    → r.kind ≡ namespace_path
    → (r.path ≡ path) × (o ≡ some r.namespace_index)
writable_path path true o r e k = absurd (ground arith)
writable_path path false none r e k = absurd (ground arith)
writable_path path false (some i) r e k = ground arith

-- Only the user data can be written: a path that resolves, from whatever directory and with
-- whatever steps upward, and whose backend is mutable, has `data` as its first component.
pub resolve-is_mutable_backend :
    (cwd operand : Text) (r : ResolvedPath)
    → resolve cwd operand ≡ some r
    → is_mutable_backend r ≡ true
    → until_slash (after_first r.path) ≡ data_name
unfolding resolve
resolve-is_mutable_backend cwd operand r e w = elim (Option-cases (normalize cwd operand)) [
  | inl z ↦ absurd (ground arith)
  | inr (path, s) ↦
      let (kind, index) = mutable_index r w in
      let (same, found) =
        writable_path path (length path == 1) (index_of 0 names (until_slash (after_first path))) r
          (rw (resolve, s) at e) kind in
      rw same (
        sym (
          eq_text_sound data_name (until_slash (after_first path))
            (index_of_data (until_slash (after_first path)) (rw index at found))))
]
