-- ===== src/Evidence/Llvm/Bounds.antt =====
-- The bodies that a query returns lie in the artifacts of their modules.
use optic.Prelude.{
  Bool, true, false, List, [], ◌∷◌, ◌≡◌, ◌≢◌, sym, refl, ◌∙◌, subst, arith, ok, >>=-ok, map_err,
  map_err-ok, All, All-get_elem?,
}
use optic.Prelude.Sorting.{Sorted, insert_sorted, sort_by, All-sort_by, sort_by-Sorted}
use optic.Prelude.Text.{Text}
use optic.Records.Artifact.{ArtifactKind, ArtifactRecord}
use optic.Records.Collection.Valid.{InBounds}
use optic.Records.Collection.Modules.{IsModule}
use optic.Records.Collection.Consistent.{IsCollection}
use optic.Records.InstanceManifest.{InstanceManifest}
use optic.Records.InstanceRecord.{InstanceRecord}
use optic.Records.InstanceRef.{InstanceRef}
use optic.Records.LlvmDefinitionRecord.{LlvmDefinitionRecord}
use optic.Records.LlvmModuleRecord.{LlvmModuleRecord, LlvmCollection, collected, not_captured}
use optic.Records.LlvmProvenance.{LlvmProvenance}
use optic.Evidence.{Store, store, referenced_instance}
use optic.Evidence.Llvm.{
  LlvmBody, LlvmEvidence, available, ModuleEvidence, order, conclude, select_bodies, llvm_evidence,
  body, body_of, absent, unsupported,
}
use optic.Evidence.Llvm.Chains.{End, nothing, defined, opaque_alias, Leads, evidence_at}
use optic.Evidence.Llvm.Resolution.{resolve_module_iff}
use optic.Evidence.Llvm.Bodies.{bodies_of, some_unsupported, Resolves, Leads-Member, order-IsOrder}
use optic.Evidence.Llvm.Answers.{select_parts}

body-inj : (a b : LlvmBody) → body b ≡ body a → a ≡ b
body-inj a b h = ground (arith, h)

module _ (artifacts : List ArtifactRecord) (reference : InstanceRef) where
  -- The body is of the reference's capture, within an LLVM artifact.
  abbrev pub Held : LlvmBody → Type 0
  Held b =
      (b.evidence.capture_id ≡ reference.capture_id)
      × InBounds artifacts b.evidence.artifact ArtifactKind.llvm b.evidence.range

  body_at :
      (p : LlvmProvenance) (m : LlvmModuleRecord) (xs ys : List Text) (s : Text) (e : End)
      (b : LlvmBody)
      → IsModule artifacts p m
      → Leads m.definitions s ys e
      → body b ≡ evidence_at m reference xs e
      → Held b
  body_at p m xs ys s nothing b valid chain h = absurd (cc h)
  body_at p m xs ys s opaque_alias b valid chain h = absurd (cc h)
  body_at p m xs ys s (defined d) b valid chain h =
      let (i, at) = Leads-Member m.definitions s ys (defined d) d refl chain in
      let inside =
        All-get_elem?
          (λ (x : LlvmDefinitionRecord). InBounds artifacts m.artifact ArtifactKind.llvm x.range)
          m.definitions i valid.definitions at in
      subst Held (body-inj (body_of m reference xs d) b h) (refl, inside)

  bodies_Held :
      (p : LlvmProvenance) (F : Type 0) (raw_symbol : Text) (ms : List LlvmModuleRecord)
      (es : List ModuleEvidence)
      → All (IsModule artifacts p) ms
      → Resolves F raw_symbol reference ms es
      → All Held (bodies_of es)
  bodies_Held p F raw_symbol [] [] v rs = tt
  bodies_Held p F raw_symbol [] (x ∷ es) v rs = absurd rs
  bodies_Held p F raw_symbol (m ∷ ms) [] v rs = absurd rs
  bodies_Held p F raw_symbol (m ∷ ms) (absent ∷ es) (v, vs) (first, rest) =
      bodies_Held p F raw_symbol ms es vs rest
  bodies_Held p F raw_symbol (m ∷ ms) (unsupported ∷ es) (v, vs) (first, rest) =
      bodies_Held p F raw_symbol ms es vs rest
  bodies_Held p F raw_symbol (m ∷ ms) (body b ∷ es) (v, vs) (first, rest) =
      let (xs, e, chain, same) =
        (resolve_module_iff {F = F} m reference raw_symbol (body b)).0 first in
      (body_at p m xs xs raw_symbol e b v chain same, bodies_Held p F raw_symbol ms es vs rest)

available-inj :
    (xs ys : List LlvmBody) → LlvmEvidence.available xs ≡ LlvmEvidence.available ys → xs ≡ ys
available-inj xs ys h = ground (arith, h)

insert_sorted-cons : (b : LlvmBody) (bs : List LlvmBody) → insert_sorted order b bs ≢ []
unfolding insert_sorted
insert_sorted-cons b [] = λ e. cc e
insert_sorted-cons b (x ∷ bs) = λ e. ground (arith, e)

sort_by-nil : (bs : List LlvmBody) → sort_by order bs ≡ [] → bs ≡ []
unfolding sort_by
sort_by-nil [] h = refl
sort_by-nil (b ∷ bs) h = absurd (insert_sorted-cons b (sort_by order bs) h)

conclude_available :
    (bs found : List LlvmBody) (f : Bool)
    → available found ≡ conclude bs f
    → (found ≡ sort_by order bs) × (bs ≢ [])
conclude_available [] found true h = absurd (cc h)
conclude_available [] found false h = absurd (cc h)
conclude_available (b ∷ bs) found f h = (available-inj found (sort_by order (b ∷ bs)) h, λ e. cc e)

module _ (F : Type 0) (reference : InstanceRef) (raw_symbol : Text) where
  select_Held :
      (instances : List InstanceRecord) (artifacts : List ArtifactRecord) (p : LlvmProvenance)
      (l : LlvmCollection) (bodies : List LlvmBody)
      → IsCollection instances artifacts p l
      → select_bodies {F = F} l raw_symbol reference ≡ ok (available bodies)
      → (bodies ≢ []) × Sorted order bodies × All (Held artifacts reference) bodies
  select_Held instances artifacts p (not_captured reason) bodies c h =
      absurd (unfold select_bodies in cc h)
  select_Held instances artifacts p (collected ms) bodies c h =
      let (es, rs, same) = (select_parts F raw_symbol reference ms (available bodies)).0 h in
      let (sorted, nonempty) =
        conclude_available (bodies_of es) bodies (some_unsupported es) same in
      let (_, _, _, modules, _, _) = c in
      let held = bodies_Held artifacts reference p F raw_symbol ms es modules rs in
      (
        λ e. nonempty (sort_by-nil (bodies_of es) (sym sorted ∙ e)),
        subst (Sorted order) (sym sorted) (sort_by-Sorted order order-IsOrder (bodies_of es)),
        subst (All (Held artifacts reference)) (sym sorted)
            (All-sort_by order (Held artifacts reference) (bodies_of es) held),
      )

module _ (F : Type 0) (s : Store F) (reference : InstanceRef) where
  read_llvm :
      (e : LlvmEvidence)
      → llvm_evidence s reference ≡ ok e
      → (m : InstanceManifest) × (i : InstanceRecord) × (s.read_instances reference.capture_id
          ≡ ok m)
        × (select_bodies {F = F} m.llvm i.raw_symbol reference ≡ ok e)
  unfolding llvm_evidence
  read_llvm e h =
      let (m, read, rest) = >>=-ok (map_err store (s.read_instances reference.capture_id)) _ h in
      let (i, at, same) = >>=-ok (referenced_instance m reference) _ rest in
      (m, i, map_err-ok store (s.read_instances reference.capture_id) read, same)

  -- The bodies of an answer: each is a range within an LLVM artifact that the manifest of the
  -- reference's capture declares, there is one at least, and they are in the order of module, start
  -- and length.
  pub llvm_evidence-InBounds :
      (bodies : List LlvmBody)
      → llvm_evidence s reference ≡ ok (available bodies)
      → (m : InstanceManifest) × (s.read_instances reference.capture_id ≡ ok m)
        × (bodies ≢ [])
        × Sorted order bodies
        × All (Held m.artifacts reference) bodies
  llvm_evidence-InBounds bodies h =
      let (m, i, read, selected) = read_llvm (available bodies) h in
      let valid = (s.read_valid reference.capture_id m read).0 in
      let (nonempty, sorted, held) =
        select_Held F reference i.raw_symbol m.instances m.artifacts m.llvm_provenance m.llvm bodies
          valid.collection selected in
      (m, read, nonempty, sorted, held)
