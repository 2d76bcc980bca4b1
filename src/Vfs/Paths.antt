-- ===== src/Vfs/Paths.antt =====
-- A resolved path is in normal form.
use cyberdeck.Common.{
  ℕ, ◌≤◌, ◌<◌, ◌≡◌, refl, subst, sym, ◌∙◌, append_assoc, append-nil, ◌⊎◌, Bool, true, false, not,
  ◌&&◌, ◌||◌, Option, none, some, Option-cases, Bool-cases, inl, inr, List, [], ◌∷◌, ◌++◌, length,
  length-append, leb, ◌==◌, if◌then◌else◌, arith,
}
use cyberdeck.Vfs.{
  Text, ResolvedPath, root, namespace_path, names, slash, dot, max_path_bytes, max_components,
  max_component_bytes, empty, eq_text, components, drop_last, put, put_all, append_component,
  append_all, is_absolute, normalize, until_slash, index_of, after_first, resolve, has_slash,
}

-- A component of a normal path.
abbrev pub is_component : Text → Bool
is_component c =
    not (empty c)
    && not (has_slash c)
    && not (eq_text c (dot ∷ []))
    && not (eq_text c (dot ∷ dot ∷ []))
    && leb (length c) max_component_bytes

pub all_components : List Text → Bool
all_components [] = true
all_components (c ∷ cs) = is_component c && all_components cs

-- The components, each behind a slash; the root is a slash alone.
pub joined : List Text → Text
joined [] = []
joined (c ∷ cs) = slash ∷ (c ++ joined cs)

abbrev pub path_of : List Text → Text
path_of [] = slash ∷ []
path_of (c ∷ cs) = joined (c ∷ cs)

-- The runs that `components` gives are not empty and hold no slash.
pieces : List Text → Bool
pieces [] = true
pieces (c ∷ cs) = not (empty c) && not (has_slash c) && pieces cs

has_slash-snoc : (a : Text) (c : ℕ) → has_slash (a ++ c ∷ []) ≡ (has_slash a || (c == slash))
unfolding has_slash
has_slash-snoc [] c = ground arith
has_slash-snoc (x ∷ a) c = ground (arith, has_slash-snoc a c)

components-pieces : (cur text : Text) → has_slash cur ≡ false → pieces (components cur text) ≡ true
unfolding components pieces has_slash
components-pieces cur [] h = ground arith
components-pieces cur (c ∷ text) h =
    ground (
      arith,
      components-pieces [] text,
      components-pieces (cur ++ c ∷ []) text,
      has_slash-snoc cur c,
    )

pieces-append : (a b : List Text) → pieces a ≡ true → pieces b ≡ true → pieces (a ++ b) ≡ true
unfolding pieces
pieces-append [] b p q = q
pieces-append (c ∷ a) b p q = ground (arith, pieces-append a b)

all_components-drop_last :
    (cs : List Text)
    → all_components cs ≡ true
    → (all_components (drop_last cs) ≡ true) × (length (drop_last cs) ≤ length cs)
unfolding all_components drop_last
all_components-drop_last [] h = (refl, omega arith)
all_components-drop_last (c ∷ []) h = ground arith
all_components-drop_last (c ∷ d ∷ cs) h = ground (arith, all_components-drop_last (d ∷ cs))

all_components-snoc :
    (cs : List Text) (c : Text)
    → all_components cs ≡ true
    → is_component c ≡ true
    → all_components (cs ++ c ∷ []) ≡ true
unfolding all_components
all_components-snoc [] c h k = ground arith
all_components-snoc (d ∷ cs) c h k = ground (arith, all_components-snoc cs c)

-- The components kept so far.
record IsKept (cs : List Text) : Type 0 where
  each : all_components cs ≡ true
  few : length cs ≤ max_components

put-IsKept :
    (kept more : List Text) (c : Text)
    → put kept c ≡ some more
    → (not (empty c) && not (has_slash c)) ≡ true
    → IsKept kept
    → IsKept more
unfolding put
put-IsKept kept more c e p k = ground (
  arith,
  k.each,
  k.few,
  all_components-drop_last kept k.each,
  all_components-snoc kept c k.each,
  length-append kept (c ∷ []),
)

put_all-IsKept :
    (kept cs out : List Text)
    → put_all kept cs ≡ some out
    → pieces cs ≡ true
    → IsKept kept
    → IsKept out
unfolding put_all pieces
put_all-IsKept kept [] out e p k = subst (λ x. IsKept x) (ground arith) k
put_all-IsKept kept (c ∷ cs) out e p k = elim (Option-cases (put kept c)) [
  | inl n ↦ absurd (ground arith)
  | inr (more, s) ↦
      put_all-IsKept more cs out (ground arith) (ground arith)
        (put-IsKept kept more c s (ground arith) k)
]

append_component-longer :
    (path longer c : Text)
    → append_component path c ≡ some longer
    → (longer ≡ (if length path == 1 then path else path ++ slash ∷ []) ++ c)
      × (length longer ≤ max_path_bytes)
      × (length path < length longer)
unfolding append_component
append_component-longer path longer c e = ground (
  arith,
  length-append path (slash ∷ []),
  length-append path c,
  length-append (path ++ slash ∷ []) c,
  nonempty c,
)
  where
    nonempty : (c : Text) → (empty c ≡ true) ⊎ (0 < length c)
    nonempty [] = inl refl
    nonempty (x ∷ c) = inr (omega arith)

-- A path that is not the slash alone grows by a slash and a component each time.
append_all-joined :
    (path out : Text) (cs : List Text)
    → append_all path cs ≡ some out
    → 1 < length path
    → length path ≤ max_path_bytes
    → (out ≡ path ++ joined cs) × (length out ≤ max_path_bytes)
unfolding append_all joined
append_all-joined path out [] e n h =
    let same : path ≡ out = ground arith in
    (sym same ∙ sym (append-nil path), subst (λ o. length o ≤ max_path_bytes) same h)
append_all-joined path out (c ∷ cs) e n h = elim (Option-cases (append_component path c)) [
  | inl z ↦ absurd (ground arith)
  | inr (longer, s) ↦
      let (shape, fits, grows) = append_component-longer path longer c s in
      let more : append_all longer cs ≡ some out = ground arith in
      let long : 1 < length longer = omega arith in
      let (ends, bound) = append_all-joined longer out cs more long fits in
      let split : longer ≡ (path ++ slash ∷ []) ++ c = ground arith in
      (
        ends
            ∙ rw split (
                append_assoc (path ++ slash ∷ []) c (joined cs)
                ∙ append_assoc path (slash ∷ []) (c ++ joined cs)),
        bound,
      )
]

append_all-path_of :
    (out : Text) (cs : List Text)
    → append_all (slash ∷ []) cs ≡ some out
    → (out ≡ path_of cs) × (length out ≤ max_path_bytes)
unfolding append_all joined
append_all-path_of out [] e = ground arith
append_all-path_of out (c ∷ cs) e = elim (Option-cases (append_component (slash ∷ []) c)) [
  | inl z ↦ absurd (ground arith)
  | inr (longer, s) ↦
      let (shape, fits, grows) = append_component-longer (slash ∷ []) longer c s in
      let more : append_all longer cs ≡ some out = ground arith in
      let (ends, bound) = append_all-joined longer out cs more (omega arith) fits in
      let split : longer ≡ slash ∷ c = ground arith in (ends ∙ rw split refl, bound)
]

normalize-path_of :
    (cwd operand out : Text)
    → normalize cwd operand ≡ some out
    → (cs : List Text) × (out ≡ path_of cs) × (length out ≤ max_path_bytes) × IsKept cs
unfolding normalize
normalize-path_of cwd operand out e = elim (Bool-cases (is_absolute operand)) [
  | inl a ↦ from (components [] operand) (components-pieces [] operand nothing) (ground arith)
  | inr a ↦
      from (components [] cwd ++ components [] operand)
        (pieces-append (components [] cwd) (components [] operand)
          (components-pieces [] cwd nothing) (components-pieces [] operand nothing))
        (ground arith)
]
  where
    nothing : has_slash [] ≡ false
    nothing = unfold has_slash in refl

    from :
        (cs : List Text)
        → pieces cs ≡ true
        → (elim (put_all [] cs) [ none ↦ none | some kept ↦ append_all (slash ∷ []) kept ])
          ≡ some out
        → (cs : List Text) × (out ≡ path_of cs) × (length out ≤ max_path_bytes) × IsKept cs
    from cs p f = elim (Option-cases (put_all [] cs)) [
      | inl z ↦ absurd (ground arith)
      | inr (kept, s) ↦
          let (shape, fits) = append_all-path_of out kept (ground arith) in
          (
            kept,
            shape,
            fits,
            put_all-IsKept [] cs kept s p
                (record { each = unfold all_components in refl; few = omega arith }),
          )
    ]

-- The two ways in which a normalised path resolves.
resolved_path :
    (path : Text) (b : Bool) (o : Option ℕ) (r : ResolvedPath)
    → (if b then some (record { kind = root; namespace_index = 0; path = path }) else elim o [
      | none ↦ none
      | some i ↦ some (record { kind = namespace_path; namespace_index = i; path = path })
    ])
      ≡ some r
    → r.path ≡ path
resolved_path path true o r e = cc e
resolved_path path false none r e = absurd (ground arith)
resolved_path path false (some i) r e = cc e

-- Whatever the current directory and the operand are, a path that resolves is in normal form: it is
-- the root, or components each behind one slash, none empty, a dot, two dots, or with a slash in
-- it, each of at most 64 bytes, at most 16 of them, and at most 256 bytes in all.
pub resolve-path_of :
    (cwd operand : Text) (r : ResolvedPath)
    → resolve cwd operand ≡ some r
    → (cs : List Text) × (r.path ≡ path_of cs)
      × (all_components cs ≡ true)
      × (length cs ≤ max_components)
      × (length r.path ≤ max_path_bytes)
unfolding resolve
resolve-path_of cwd operand r e = elim (Option-cases (normalize cwd operand)) [
  | inl z ↦ absurd (ground arith)
  | inr (path, s) ↦
      let (cs, shape, fits, kept) = normalize-path_of cwd operand path s in
      let same =
        resolved_path path (length path == 1) (index_of 0 names (until_slash (after_first path))) r
          (rw (resolve, s) at e) in
      (cs, same ∙ shape, kept.each, kept.few, rw same fits)
]
