-- ===== src/Records/Validation/Normalized.antt =====
-- Exactly which paths `require_absolute_normalized_path` accepts.
use optic.Prelude.{
  ℕ, String, true, false, ◌||◌, List, [], ◌∷◌, ◌++◌, map, append_assoc, append-nil, ◌≡◌, ◌≢◌, ◌↔◌,
  inl, inr, refl, sym, ap, subst, ◌∙◌, arith, All, All-imp, Passes, is_empty, ◌==◌, ne_of_==,
  if◌then◌else◌, Bool-cases,
}
use optic.Prelude.Text.{Text, text_beq, text_beq_iff}
use optic.Records.Validation.{
  FilePath, slash, Component, parent_dir, normal, extend_first, pieces, body, components,
  needs_separator, collect, has_parent, require_absolute_normalized_path,
}

abbrev pub NoSlash : Text → Type 0
NoSlash = All (λ c. c ≢ slash)

-- The name of a directory entry.
pub record IsName (p : Text) : Type 0 where
  pub nonempty : p ≢ []
  pub not_dot : p ≢ b'.' ∷ []
  pub not_parent : p ≢ b'.' ∷ b'.' ∷ []
  pub no_slash : NoSlash p

-- Each name behind a separator.
abbrev pub joined : List Text → Text
joined [] = []
joined (p ∷ ps) = slash ∷ (p ++ joined ps)

-- The one spelling of an absolute path with these names.
abbrev pub rendered : List Text → FilePath
rendered [] = slash ∷ []
rendered (p ∷ ps) = joined (p ∷ ps)

extend_first-NoSlash :
    (c : ℕ) (ps : List Text) → c ≢ slash → All NoSlash ps → All NoSlash (extend_first c ps)
extend_first-NoSlash c [] n h = ((n, tt), tt)
extend_first-NoSlash c (p ∷ ps) n h = ((n, h.0), h.1)

pieces-NoSlash : (cs : Text) → All NoSlash (pieces cs)
unfolding pieces
pieces-NoSlash [] = (tt, tt)
pieces-NoSlash (c ∷ cs) = elim (Bool-cases (c == slash)) [
  | inl sep ↦ rw sep (tt, pieces-NoSlash cs)
  | inr other ↦
      rw other (extend_first-NoSlash c (pieces cs) (ne_of_== c slash other) (pieces-NoSlash cs))
]

pieces-joined :
    (ps : List Text) (p : Text) → NoSlash p → All NoSlash ps → pieces (p ++ joined ps) ≡ p ∷ ps
unfolding pieces
pieces-joined [] [] h t = refl
pieces-joined (q ∷ qs) [] h t = ground (arith, pieces-joined qs q t.0 t.1)
pieces-joined ps (c ∷ p) h t = ground (arith, pieces-joined ps p h.1 t)

body-IsName : (p : Text) (ps : List Text) → IsName p → body (p ∷ ps) ≡ normal p ∷ body ps
body-IsName [] ps n = absurd (n.nonempty refl)
body-IsName (c ∷ p) ps n = ground (
  arith,
  text_beq_iff (c ∷ p) (b'.' ∷ []),
  text_beq_iff (c ∷ p) (b'.' ∷ b'.' ∷ []),
  n.not_dot,
  n.not_parent,
)

body-names : (ps : List Text) → All IsName ps → body ps ≡ map normal ps
body-names [] h = refl
body-names (p ∷ ps) h = body-IsName p ps h.0 ∙ ap (◌∷◌ (normal p)) (body-names ps h.1)

record Named (cs : List Component) : Type 0 where
  names : List Text
  are_names : All IsName names
  are_all : cs ≡ map normal names

-- A piece that is kept and is not `..` is a name.
kept-IsName :
    (p : Text)
    → NoSlash p
    → (is_empty p || text_beq p (b'.' ∷ [])) ≡ false
    → text_beq p (b'.' ∷ b'.' ∷ []) ≡ false
    → IsName p
kept-IsName [] h kept plain = absurd (cc kept)
kept-IsName (c ∷ p) h kept plain = record {
  nonempty = λ e. cc e;
  not_dot = λ e. cc (kept, (text_beq_iff (c ∷ p) (b'.' ∷ [])).1 e);
  not_parent = λ e. cc (plain, (text_beq_iff (c ∷ p) (b'.' ∷ b'.' ∷ [])).1 e);
  no_slash = h;
}

Named-cons :
    (p : Text) (ps : List Text)
    → NoSlash p
    → (is_empty p || text_beq p (b'.' ∷ [])) ≡ false
    → has_parent ((if text_beq p (b'.' ∷ b'.' ∷ []) then parent_dir else normal p) ∷ body ps)
      ≡ false
    → (has_parent (body ps) ≡ false → Named (body ps))
    → Named ((if text_beq p (b'.' ∷ b'.' ∷ []) then parent_dir else normal p) ∷ body ps)
Named-cons p ps h kept n rest = elim (Bool-cases (text_beq p (b'.' ∷ b'.' ∷ []))) [
  | inl parent ↦ absurd (cc (rw parent at n))
  | inr plain ↦
      let later = rest (rw plain at n) in
      rw plain (record {
        names = p ∷ later.names;
        are_names = (kept-IsName p h kept plain, later.are_names);
        are_all = ap (◌∷◌ (normal p)) later.are_all;
      })
]

body-Named : (ps : List Text) → All NoSlash ps → has_parent (body ps) ≡ false → Named (body ps)
body-Named [] h n = record { names = []; are_names = tt; are_all = refl }
body-Named (p ∷ ps) h n = elim (Bool-cases (is_empty p || text_beq p (b'.' ∷ []))) [
  | inl skipped ↦ rw skipped (body-Named ps h.1 (rw skipped at n))
  | inr kept ↦ rw kept (Named-cons p ps h.0 kept (rw kept at n) (body-Named ps h.1))
]

needs_separator-NoSlash : (p : Text) → p ≢ [] → NoSlash p → needs_separator p ≡ true
needs_separator-NoSlash [] ne h = absurd (ne refl)
needs_separator-NoSlash (c ∷ []) ne h = ground arith
needs_separator-NoSlash (c ∷ d ∷ p) ne h = needs_separator-NoSlash (d ∷ p) (cc) h.1

needs_separator-append : (a p : Text) → p ≢ [] → needs_separator (a ++ p) ≡ needs_separator p
needs_separator-append [] p ne = refl
needs_separator-append (c ∷ []) [] ne = absurd (ne refl)
needs_separator-append (c ∷ []) (d ∷ p) ne = refl
needs_separator-append (c ∷ d ∷ a) p ne = needs_separator-append (d ∷ a) p ne

separates : (p : Text) (path : FilePath) → IsName p → needs_separator (path ++ (slash ∷ p)) ≡ true
separates [] path n = absurd (n.nonempty refl)
separates (c ∷ p) path n =
    needs_separator-append path (slash ∷ c ∷ p) (cc)
    ∙ needs_separator-NoSlash (c ∷ p) n.nonempty n.no_slash

collect-names :
    (ps : List Text) (path : FilePath)
    → needs_separator path ≡ true
    → All IsName ps
    → collect path (map normal ps) ≡ path ++ joined ps
collect-names [] path h t = sym (append-nil path)
collect-names (p ∷ ps) path h (n, t) =
    rw (h, collect)
      (collect-names ps (path ++ (slash ∷ p)) (separates p path n) t
        ∙ append_assoc path (slash ∷ p) (joined ps))

collect-rendered :
    (ps : List Text) → All IsName ps → collect (slash ∷ []) (map normal ps) ≡ rendered ps
collect-rendered [] h = refl
collect-rendered (p ∷ ps) (n, t) = collect-names ps (slash ∷ p) (separates p [] n) t

has_parent-names : (ps : List Text) → has_parent (map normal ps) ≡ false
has_parent-names [] = refl
has_parent-names (p ∷ ps) = has_parent-names ps

accepted_parts :
    (field : String) (c : ℕ) (cs : Text)
    → Passes (require_absolute_normalized_path field (c ∷ cs))
    → (c ≡ slash)
      × (has_parent (body (pieces cs)) ≡ false)
      × (collect (slash ∷ []) (body (pieces cs)) ≡ c ∷ cs)
unfolding require_absolute_normalized_path components
accepted_parts field c cs h =
    ground (arith, text_beq_iff (collect (slash ∷ []) (body (pieces cs))) (c ∷ cs))

accepted :
    (field : String) (value : FilePath)
    → Passes (require_absolute_normalized_path field value)
    → (names : List Text) × All IsName names × (value ≡ rendered names)
accepted field [] h = absurd (unfold require_absolute_normalized_path in cc h)
accepted field (c ∷ cs) h =
    let (abs, below, same) = accepted_parts field c cs h in
    let named = body-Named (pieces cs) (pieces-NoSlash cs) below in
    (
      named.names,
      named.are_names,
      sym same
          ∙ ap (collect (slash ∷ [])) named.are_all
          ∙ collect-rendered named.names named.are_names,
    )

rendered-accepted :
    (field : String) (names : List Text)
    → All IsName names
    → Passes (require_absolute_normalized_path field (rendered names))
unfolding require_absolute_normalized_path components
rendered-accepted field [] h = refl
rendered-accepted field (p ∷ ps) h = ground (
  arith,
  pieces-joined ps p h.0.no_slash (All-imp (λ q n. n.no_slash) ps h.1),
  body-names (p ∷ ps) h,
  has_parent-names (p ∷ ps),
  collect-rendered (p ∷ ps) h,
  text_beq_iff (rendered (p ∷ ps)) (rendered (p ∷ ps)),
)

-- A path is accepted exactly if it is `/`, or names behind single separators: absolute, without
-- `.`, `..`, a doubled or a trailing separator.
pub require_absolute_normalized_path_iff :
    (field : String) (value : FilePath)
    → Passes (require_absolute_normalized_path field value)
      ↔ ((names : List Text) × All IsName names × (value ≡ rendered names))
require_absolute_normalized_path_iff field value = (
  accepted field value,
  λ (names, are_names, e).
      subst (λ v. Passes (require_absolute_normalized_path field v)) (sym e)
        (rendered-accepted field names are_names),
)
