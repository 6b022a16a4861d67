-- ===== src/Compiler/Artifacts/Complete.antt =====
-- Every expected module becomes one indexed module and one artifact, in their order and under new
-- identifiers.
use optic.Prelude.{
  ℕ, ◌+◌, ◌≡◌, refl, sym, ap, subst, ◌∙◌, arith, Option, List, [], ◌∷◌, ◌++◌, append_assoc,
  append-nil, ok, >>=-ok, ok-inj, ensure, map_err, map_err-ok, ok_or, not, ◌==◌, leb, Bool-cases,
  inl, inr,
}
use optic.Prelude.Text.{Text, codes}
use optic.Records.Artifact.{ArtifactId, ArtifactKind, ArtifactRecord}
use optic.Records.ByteRange.{checked_add}
use optic.Records.LlvmModuleRecord
use optic.Records.LlvmModuleRecord.{LlvmModuleRecord, LlvmStage}
use optic.Records.LlvmDefinitionRecord.{LlvmDefinitionRecord}
use optic.Records.Validation.{FilePath, require_text}
use optic.Records.Decimal.{u64_max}
use optic.Store.{other, is_file, Metadata}
use optic.LlvmIndex.Scanner.{index}
use optic.Compiler.{Error, compiler_environment, filesystem, invalid_record, plain, shows_text}
use optic.Compiler.Artifacts.{
  Tools, artifact_path, materialize, materialize_each, regular_file, run,
}
use optic.Compiler.Manifest.{ExpectedModule}

new-fields :
    (artifact : ArtifactId) (name : Text) (stage : LlvmStage)
    (definitions : List LlvmDefinitionRecord) (u : LlvmModuleRecord)
    → LlvmModuleRecord.new artifact name stage definitions ≡ ok u
    → u ≡ record {
      artifact = artifact;
      compiler_module = name;
      stage = stage;
      definitions = definitions;
    }
unfolding LlvmModuleRecord.new
new-fields artifact name stage definitions u h =
    let (_, _, h1) = >>=-ok (require_text "LLVM compiler module" name) _ h in
    let (_, _, h2) = >>=-ok (LlvmModuleRecord.require_distinct_symbols definitions) _ h1 in
    ok-inj _ h2 refl

pub successor : (n m : ℕ) (e : Error) → ok_or (checked_add n 1) e ≡ ok m → n + 1 ≡ m
successor n m e h = elim (Bool-cases (leb (n + 1) u64_max)) [
  | inl fits ↦ ground (arith, h, fits)
  | inr over ↦ absurd (ground (arith, h, over))
]

module _ (tools : Tools) (directory disassembler : FilePath) (stage : LlvmStage) where
  abbrev pub path_of : ArtifactId → FilePath
  path_of id = artifact_path tools directory disassembler stage id

  -- What is recorded of a module: its name, its new identifier, the length of the text, and the
  -- definitions that the index of the text finds.
  pub record IsMade (id : ArtifactId) (m : ExpectedModule) (u : LlvmModuleRecord)
      (a : ArtifactRecord) : Type 0 where
    pub name : u.compiler_module ≡ m.name
    pub stage_kept : u.stage ≡ stage
    pub module_id : u.artifact ≡ id
    pub artifact_id : a.id ≡ id
    pub kind : a.kind ≡ ArtifactKind.llvm
    pub metadata : Metadata
    pub inspected : tools.symlink_metadata (path_of id) ≡ ok metadata
    pub length_kept : a.byte_len ≡ metadata.len
    pub bytes : List ℕ
    pub ending : Option Text
    pub opened : tools.open_file (path_of id) ≡ ok (bytes, ending)
    pub indexed : index bytes ending ≡ ok u.definitions

  inspect :
      (path : FilePath) (m : Metadata)
      → regular_file tools path ≡ ok m
      → tools.symlink_metadata path ≡ ok m
  unfolding regular_file
  inspect path m h =
      let (metadata, found, h1) =
        >>=-ok (map_err (filesystem "inspect compiler artifact" path) (tools.symlink_metadata path))
          _ h in
      let (_, _, h2) =
        >>=-ok
          (ensure (is_file metadata.kind) (
            filesystem "read regular compiler artifact" path
              (other (codes "artifact must be a regular file"))))
          _ h1 in
      map_err-ok (filesystem "inspect compiler artifact" path) (tools.symlink_metadata path)
        (found ∙ h2)

  materialize-IsMade :
      (id : ArtifactId) (m : ExpectedModule) (made : LlvmModuleRecord × ArtifactRecord)
      → materialize tools directory disassembler stage id m ≡ ok made
      → IsMade id m made.0 made.1
  unfolding materialize
  materialize-IsMade id m made h =
      let path = path_of id in
      let (_, _, h1) =
        >>=-ok
          (map_err
            (λ e.
              filesystem "disassemble expected bitcode module" m.path (other (tools.show_error e)))
            (run tools disassembler (m.path ∷ codes "-o" ∷ path ∷ [])))
          _ h in
      let (metadata, inspected, h2) = >>=-ok (regular_file tools path) _ h1 in
      let (input, opened, h3) =
        >>=-ok (map_err (filesystem "open optimized LLVM artifact" path) (tools.open_file path)) _
          h2 in
      let (definitions, indexed, h4) =
        >>=-ok
          (map_err
            (λ e.
              filesystem "index optimized LLVM artifact" path (other (tools.show_index_error e)))
            (index input.0 input.1))
          _ h3 in
      let (u, recorded, h5) =
        >>=-ok (map_err invalid_record (LlvmModuleRecord.new id m.name stage definitions)) _ h4 in
      let same =
        ok-inj (ok (u, record { id = id; kind = ArtifactKind.llvm; byte_len = metadata.len })) refl
          h5 in
      let fields =
        new-fields id m.name stage definitions u (map_err-ok invalid_record _ recorded) in
      subst (λ (p : LlvmModuleRecord × ArtifactRecord). IsMade id m p.0 p.1) same
        (record {
          name = ap (λ (v : LlvmModuleRecord). v.compiler_module) fields;
          stage_kept = ap (λ (v : LlvmModuleRecord). v.stage) fields;
          module_id = ap (λ (v : LlvmModuleRecord). v.artifact) fields;
          artifact_id = refl;
          kind = refl;
          metadata = metadata;
          inspected = inspect path metadata inspected;
          length_kept = refl;
          bytes = input.0;
          ending = input.1;
          opened = map_err-ok _ _ opened;
          indexed =
              map_err-ok _ _ indexed
              ∙ ap ok (sym (ap (λ (v : LlvmModuleRecord). v.definitions) fields));
        })

  -- The modules and the artifacts that are made of the expected modules, with consecutive
  -- identifiers.
  abbrev pub AllMade :
      ℕ → List ExpectedModule → List LlvmModuleRecord → List ArtifactRecord → Type 0
  AllMade next [] [] [] = Unit
  AllMade next (m ∷ expected) (u ∷ modules) (a ∷ artifacts) =
      IsMade (record { value = next }) m u a × AllMade (next + 1) expected modules artifacts
  AllMade next _ _ _ = ⊥

  -- What the loop has added.
  abbrev pub Added :
      ℕ
      → List ExpectedModule
      → List LlvmModuleRecord
      → List ArtifactRecord
      → List LlvmModuleRecord × List ArtifactRecord
      → Type 0
  Added next expected modules artifacts (modules', artifacts') =
      (us : List LlvmModuleRecord) × (new : List ArtifactRecord) × (modules' ≡ modules ++ us)
      × (artifacts' ≡ artifacts ++ new)
      × AllMade next expected us new

  pub materialize_each-Added :
      (expected : List ExpectedModule) (next : ℕ) (modules : List LlvmModuleRecord)
      (artifacts : List ArtifactRecord) (result : List LlvmModuleRecord × List ArtifactRecord)
      → materialize_each tools directory disassembler stage expected next modules artifacts
        ≡ ok result
      → Added next expected modules artifacts result
  unfolding materialize_each
  materialize_each-Added [] next modules artifacts result h =
      let same = ok-inj (ok (modules, artifacts)) refl h in
      (
        [],
        [],
        sym (ap (λ (p : List LlvmModuleRecord × List ArtifactRecord). p.0) same)
            ∙ sym (append-nil modules),
        sym (ap (λ (p : List LlvmModuleRecord × List ArtifactRecord). p.1) same)
            ∙ sym (append-nil artifacts),
        tt,
      )
  materialize_each-Added (m ∷ expected) next modules artifacts result h =
      let (metadata, _, h1) = >>=-ok (regular_file tools m.path) _ h in
      let (_, _, h2) =
        >>=-ok
          (ensure (not (metadata.len == 0))
            (compiler_environment (shows_text "expected bitcode must not be empty" m.path)))
          _ h1 in
      let (following, follows, h3) =
        >>=-ok
          (ok_or (checked_add next 1) (compiler_environment (plain "artifact IDs must fit in u64")))
          _ h2 in
      let (made, is_made, h4) =
        >>=-ok (materialize tools directory disassembler stage (record { value = next }) m) _ h3 in
      let (us, new, e, e', rest) =
        materialize_each-Added expected following (modules ++ made.0 ∷ [])
          (artifacts ++ made.1 ∷ []) result h4 in
      (
        made.0 ∷ us,
        made.1 ∷ new,
        e ∙ append_assoc modules (made.0 ∷ []) us,
        e' ∙ append_assoc artifacts (made.1 ∷ []) new,
        (
          materialize-IsMade (record { value = next }) m made is_made,
          subst (λ (n : ℕ). AllMade n expected us new) (sym (successor next following _ follows))
              rest,
        ),
      )
