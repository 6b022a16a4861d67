-- ===== src/Compiler/Artifacts/Identifiers.antt =====
-- The identifiers of new artifacts are none of those that are there.
use optic.Prelude.{
  ℕ, ◌+◌, ◌<◌, ◌≤◌, ◌≡◌, ◌≢◌, refl, sym, ap, subst, arith, true, false, Option, none, some, List,
  [], ◌∷◌, ◌++◌, ok, >>=-ok, ensure, All, Distinct, ltb, ltb→lt, Bool, if◌then◌else◌,
}
use optic.Prelude.Text.{codes}
use optic.Records.Artifact.{ArtifactId, ArtifactRecord}
use optic.Records.Collection.Valid.{artifact_ids}
use optic.Records.CompilerIdentity.{CompilerIdentity}
use optic.Records.LlvmModuleRecord.{LlvmModuleRecord, LlvmStage}
use optic.Records.LlvmProvenance.{LlvmProvenance}
use optic.Records.Validation.{FilePath}
use optic.Compiler.{compiler_environment, plain, shows_text}
use optic.Compiler.Artifacts.{
  Tools, collect_modules, disassembler_of, first_id, next_after, is_supported, max_id,
  option_text_beq, run, stage_of,
}
use optic.Compiler.Artifacts.Versions.{disassembler_version}
use optic.Compiler.Artifacts.Complete.{AllMade, successor, materialize_each-Added}
use optic.Compiler.Manifest.{ExpectedModule}

abbrev pub Below : ℕ → List ArtifactRecord → Type 0
Below n = All (λ (a : ArtifactRecord). a.id.value < n)

abbrev From : ℕ → List ArtifactRecord → Type 0
From n = All (λ (a : ArtifactRecord). n ≤ a.id.value)

Below-mono :
    (n m : ℕ) (artifacts : List ArtifactRecord) → n ≤ m → Below n artifacts → Below m artifacts
Below-mono n m [] h b = tt
Below-mono n m (a ∷ artifacts) h (first, rest) =
    (omega (arith, first, h), Below-mono n m artifacts h rest)

abbrev Bounded : List ArtifactRecord → Option ℕ → Type 0
Bounded artifacts none = artifacts ≡ []
Bounded artifacts (some m) = Below (m + 1) artifacts

bounded_max :
    (a : ArtifactRecord) (artifacts : List ArtifactRecord) (m : ℕ) (b : Bool)
    → ltb m a.id.value ≡ b
    → Below (m + 1) artifacts
    → Below ((if b then a.id.value else m) + 1) (a ∷ artifacts)
bounded_max a artifacts m true h below =
    let more = ltb→lt m a.id.value h in
    (omega arith, Below-mono (m + 1) (a.id.value + 1) artifacts (omega (arith, more)) below)
bounded_max a artifacts m false h below = (ground (arith, h), below)

with_first :
    (a : ArtifactRecord) (artifacts : List ArtifactRecord) (o : Option ℕ)
    → Bounded artifacts o
    → Bounded (a ∷ artifacts) (elim o as (λ _. Option ℕ) [
      | none ↦ some a.id.value
      | some m ↦ some (if ltb m a.id.value then a.id.value else m)
    ])
with_first a artifacts none h = (omega arith, subst (Below (a.id.value + 1)) (sym h) tt)
with_first a artifacts (some m) h = bounded_max a artifacts m (ltb m a.id.value) refl h

max_id-Bounded : (artifacts : List ArtifactRecord) → Bounded artifacts (max_id artifacts)
unfolding max_id
max_id-Bounded [] = refl
max_id-Bounded (a ∷ artifacts) =
    with_first a artifacts (max_id artifacts) (max_id-Bounded artifacts)

next_after-Below :
    (artifacts : List ArtifactRecord) (o : Option ℕ) (next : ℕ)
    → Bounded artifacts o
    → next_after o ≡ ok next
    → Below next artifacts
next_after-Below artifacts none next b h = subst (Below next) (sym b) tt
next_after-Below artifacts (some m) next b h =
    subst (λ (n : ℕ). Below n artifacts) (successor m next _ h) b

first_id-Below :
    (artifacts : List ArtifactRecord) (next : ℕ)
    → first_id artifacts ≡ ok next
    → Below next artifacts
unfolding first_id
first_id-Below artifacts next h =
    next_after-Below artifacts (max_id artifacts) next (max_id-Bounded artifacts) h

From-mono :
    (n m : ℕ) (artifacts : List ArtifactRecord) → n ≤ m → From m artifacts → From n artifacts
From-mono n m [] h b = tt
From-mono n m (a ∷ artifacts) h (first, rest) =
    (omega (arith, first, h), From-mono n m artifacts h rest)

apart :
    (a : ArtifactRecord) (n : ℕ) (artifacts : List ArtifactRecord)
    → a.id.value < n
    → From n artifacts
    → All (λ id. a.id ≢ id) (artifact_ids artifacts)
apart a n [] h f = tt
apart a n (b ∷ artifacts) h (first, rest) = (
  λ e. let same = ap (λ (i : ArtifactId). i.value) e in omega (arith, h, first, same),
  apart a n artifacts h rest,
)

module _ (tools : Tools) (directory disassembler : FilePath) (stage : LlvmStage) where
  AllMade-From :
      (next : ℕ) (expected : List ExpectedModule) (us : List LlvmModuleRecord)
      (new : List ArtifactRecord)
      → AllMade tools directory disassembler stage next expected us new
      → From next new × Distinct (artifact_ids new)
  AllMade-From next [] [] [] h = (tt, tt)
  AllMade-From next [] [] (a ∷ new) h = absurd h
  AllMade-From next [] (u ∷ us) new h = absurd h
  AllMade-From next (m ∷ expected) [] new h = absurd h
  AllMade-From next (m ∷ expected) (u ∷ us) [] h = absurd h
  AllMade-From next (m ∷ expected) (u ∷ us) (a ∷ new) (made, rest) =
      let (from, distinct) = AllMade-From (next + 1) expected us new rest in
      let value = ap (λ (i : ArtifactId). i.value) made.artifact_id in
      (
        (omega (arith, value), From-mono next (next + 1) new (omega arith) from),
        (apart a (next + 1) new (omega (arith, value)) from, distinct),
      )

both :
    (a : ArtifactRecord) (old new : List ArtifactRecord)
    → All (λ id. a.id ≢ id) (artifact_ids old)
    → All (λ id. a.id ≢ id) (artifact_ids new)
    → All (λ id. a.id ≢ id) (artifact_ids (old ++ new))
both a [] new h k = k
both a (b ∷ old) new (first, rest) k = (first, both a old new rest k)

Distinct-append :
    (n : ℕ) (old new : List ArtifactRecord)
    → Below n old
    → Distinct (artifact_ids old)
    → From n new
    → Distinct (artifact_ids new)
    → Distinct (artifact_ids (old ++ new))
Distinct-append n [] new b d f e = e
Distinct-append n (a ∷ old) new (first, rest) (unlike, d) f e =
    (both a old new unlike (apart a n new first f), Distinct-append n old new rest d f e)

-- What a collection of modules has made, behind the artifacts of the sources.
pub record IsComplete (tools : Tools) (expected : List ExpectedModule) (directory : FilePath)
    (disassembler : FilePath) (artifacts : List ArtifactRecord)
    (result : List LlvmModuleRecord × List ArtifactRecord) : Type 0 where
  pub stage : LlvmStage
  pub first : ℕ
  pub new : List ArtifactRecord
  pub old_below : Below first artifacts
  pub kept : result.1 ≡ artifacts ++ new
  pub made : AllMade tools directory disassembler stage first expected result.0 new
  pub distinct : Distinct (artifact_ids result.1)

module _ (tools : Tools) where
  -- Where the collection of LLVM modules succeeds behind artifacts with distinct identifiers, it has
  -- made exactly one module and one artifact of each expected module, in their order, and kept the
  -- artifacts before. The new identifiers are consecutive and above all others, so all stay
  -- distinct. Each module has the expected name, the definitions that the index of its text finds,
  -- and an artifact whose length is that of the text's file.
  pub collect_modules-IsComplete :
      (expected : List ExpectedModule) (compiler : CompilerIdentity) (directory : FilePath)
      (provenance : LlvmProvenance) (artifacts : List ArtifactRecord)
      (result : List LlvmModuleRecord × List ArtifactRecord)
      → Distinct (artifact_ids artifacts)
      → collect_modules tools expected compiler directory provenance artifacts ≡ ok result
      → IsComplete tools expected directory (disassembler_of tools compiler) artifacts result
  unfolding collect_modules
  collect_modules-IsComplete expected compiler directory provenance artifacts result d h =
      let disassembler = disassembler_of tools compiler in
      let (_, _, h1) =
        >>=-ok
          (ensure (is_supported tools provenance)
            (compiler_environment (plain "collected LLVM requires a supported configuration")))
          _ h in
      let (stage, _, h2) = >>=-ok (stage_of provenance.lto) _ h1 in
      let (_, _, h3) =
        >>=-ok
          (ensure (tools.is_regular disassembler)
            (compiler_environment (shows_text "optimized LLVM collection requires" disassembler)))
          _ h2 in
      let (output, _, h4) = >>=-ok (run tools disassembler (codes "--version" ∷ [])) _ h3 in
      let (_, _, h5) =
        >>=-ok
          (ensure (option_text_beq (disassembler_version output.stdout) provenance.llvm_version)
            (compiler_environment (plain "llvm-dis must match the compiler's LLVM version")))
          _ h4 in
      let (next, first, h6) = >>=-ok (first_id artifacts) _ h5 in
      let (us, new, e, kept, made) =
        materialize_each-Added tools directory disassembler stage expected next [] artifacts result
          h6 in
      let below = first_id-Below artifacts next first in
      let (from, unlike) =
        AllMade-From tools directory disassembler stage next expected us new made in
      record {
        stage = stage;
        first = next;
        new = new;
        old_below = below;
        kept = kept;
        made =
            subst
              (λ (modules : List LlvmModuleRecord).
                AllMade tools directory disassembler stage next expected modules new)
              (sym e) made;
        distinct =
            subst (λ (l : List ArtifactRecord). Distinct (artifact_ids l)) (sym kept)
              (Distinct-append next artifacts new below d from unlike);
      }
