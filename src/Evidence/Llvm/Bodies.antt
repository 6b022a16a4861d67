-- ===== src/Evidence/Llvm/Bodies.antt =====
-- What a query for LLVM bodies answers, over all modules of a capture.
use optic.Prelude.{
  suc, Bool, true, false, ◌||◌, some, List, [], ◌∷◌, ◌++◌, append_assoc, append-nil, ◌≡◌, inl, inr,
  sym, refl, ap₂, ◌∙◌, ap, arith, Result, ok, >>=-ok, Option-cases, Member,
}
use optic.Prelude.Sorting.{IsOrder, cmp-IsOrder, compare-IsOrder, key-IsOrder, then-IsOrder}
use optic.Prelude.Text.{Text}
use optic.Records.InstanceRef.{InstanceRef}
use optic.Records.LlvmDefinitionRecord.{LlvmDefinitionRecord}
use optic.Records.LlvmModuleRecord.{LlvmModuleRecord}
use optic.Evidence.{Error}
use optic.Evidence.Llvm.{
  LlvmBody, ModuleEvidence, get, resolve_module, resolve_modules, order, body, absent, unsupported,
}
use optic.Evidence.Llvm.Fuel.{look, at_function}
use optic.Evidence.Llvm.Chains.{End, defined, final, Leads, stop, hop}

get-Member :
    (ds : List LlvmDefinitionRecord) (s : Text) (d : LlvmDefinitionRecord)
    → get ds s ≡ some d
    → Member ds d
unfolding get
get-Member [] s d h = absurd (cc h)
get-Member (x ∷ ds) s d h = elim (Option-cases (get ds s)) [
  | inr (later, at) ↦
      let same : later ≡ d = ground arith in
      let (i, there) = get-Member ds s later at in (suc i, there ∙ ap some same)
  | inl last ↦ (0, ground arith)
]

look-function :
    (ds : List LlvmDefinitionRecord) (s : Text) (d : LlvmDefinitionRecord)
    → look ds s ≡ at_function d
    → get ds s ≡ some d
unfolding look
look-function ds s d h = ground arith

-- The definition that a chain ends at is one of the module.
pub Leads-Member :
    (ds : List LlvmDefinitionRecord) (s : Text) (xs : List Text) (e : End)
    (d : LlvmDefinitionRecord)
    → e ≡ defined d
    → Leads ds s xs e
    → Member ds d
Leads-Member ds s xs e d same (stop _ _ at) =
    get-Member ds s d (look-function ds s d (at ∙ ap final same))
Leads-Member ds s xs e d same (hop _ t ys _ _ rest) = Leads-Member ds t ys e d same rest

pub order-IsOrder : IsOrder order
order-IsOrder =
    then-IsOrder
      (then-IsOrder (key-IsOrder (λ (b : LlvmBody). b.compiler_module) cmp-IsOrder)
        (key-IsOrder (λ (b : LlvmBody). b.evidence.range.start) compare-IsOrder))
      (key-IsOrder (λ (b : LlvmBody). b.evidence.range.length) compare-IsOrder)

abbrev pub bodies_of : List ModuleEvidence → List LlvmBody
bodies_of [] = []
bodies_of (body b ∷ es) = b ∷ bodies_of es
bodies_of (absent ∷ es) = bodies_of es
bodies_of (unsupported ∷ es) = bodies_of es

abbrev pub some_unsupported : List ModuleEvidence → Bool
some_unsupported [] = false
some_unsupported (unsupported ∷ es) = true
some_unsupported (body b ∷ es) = some_unsupported es
some_unsupported (absent ∷ es) = some_unsupported es

-- A round of the loop over the modules.
abbrev push : List LlvmBody → ModuleEvidence → List LlvmBody
push before (body b) = before ++ b ∷ []
push before absent = before
push before unsupported = before

abbrev flagged : Bool → ModuleEvidence → Bool
flagged flag (body b) = flag
flagged flag absent = flag
flagged flag unsupported = true

push-bodies_of :
    (before : List LlvmBody) (e : ModuleEvidence) (es : List ModuleEvidence)
    → push before e ++ bodies_of es ≡ before ++ bodies_of (e ∷ es)
push-bodies_of before (body b) es = append_assoc before (b ∷ []) (bodies_of es)
push-bodies_of before absent es = refl
push-bodies_of before unsupported es = refl

flagged-some_unsupported :
    (flag : Bool) (e : ModuleEvidence) (es : List ModuleEvidence)
    → flagged flag e || some_unsupported es ≡ flag || some_unsupported (e ∷ es)
flagged-some_unsupported flag (body b) es = refl
flagged-some_unsupported flag absent es = refl
flagged-some_unsupported flag unsupported es = ground arith

module _ (F : Type 0) (raw_symbol : Text) (reference : InstanceRef) where
  -- The modules answer so, in order.
  abbrev pub Resolves : List LlvmModuleRecord → List ModuleEvidence → Type 0
  Resolves [] [] = Unit
  Resolves (m ∷ ms) (e ∷ es) =
      (resolve_module {F = F} m reference raw_symbol ≡ ok e) × Resolves ms es
  Resolves _ _ = ⊥

  abbrev pub go :
      List LlvmModuleRecord → List LlvmBody → Bool → Result (Error F) (List LlvmBody × Bool)
  go ms before flag = resolve_modules ms raw_symbol reference before flag

  go-cons :
      (m : LlvmModuleRecord) (ms : List LlvmModuleRecord) (before : List LlvmBody) (flag : Bool)
      (e : ModuleEvidence)
      → resolve_module {F = F} m reference raw_symbol ≡ ok e
      → go (m ∷ ms) before flag ≡ go ms (push before e) (flagged flag e)
  unfolding resolve_modules
  go-cons m ms before flag (body b) h = rw h refl
  go-cons m ms before flag absent h = rw h refl
  go-cons m ms before flag unsupported h = rw h refl

  -- Every module of a loop that succeeds answers.
  go-first :
      (m : LlvmModuleRecord) (ms : List LlvmModuleRecord) (before : List LlvmBody) (flag : Bool)
      (r : List LlvmBody × Bool)
      → go (m ∷ ms) before flag ≡ ok r
      → (e : ModuleEvidence) × (resolve_module {F = F} m reference raw_symbol ≡ ok e)
  unfolding resolve_modules
  go-first m ms before flag r h =
      let (e, first, _) = >>=-ok (resolve_module {F = F} m reference raw_symbol) _ h in (e, first)

  pub go_sound :
      (ms : List LlvmModuleRecord) (before : List LlvmBody) (flag : Bool) (bs : List LlvmBody)
      (f : Bool)
      → go ms before flag ≡ ok (bs, f)
      → (es : List ModuleEvidence) × Resolves ms es
        × (bs ≡ before ++ bodies_of es)
        × (f ≡ flag || some_unsupported es)
  go_sound [] before flag bs f h =
      unfold resolve_modules in ([], tt, ground (arith, append-nil before), ground arith)
  go_sound (m ∷ ms) before flag bs f h =
      let (e, first) = go-first m ms before flag (bs, f) h in
      let (es, rest, bodies, flags) =
        go_sound ms (push before e) (flagged flag e) bs f
          (sym (go-cons m ms before flag e first) ∙ h) in
      (
        e ∷ es,
        (first, rest),
        bodies ∙ push-bodies_of before e es,
        flags ∙ flagged-some_unsupported flag e es,
      )

  pub go_complete :
      (ms : List LlvmModuleRecord) (es : List ModuleEvidence) (before : List LlvmBody) (flag : Bool)
      → Resolves ms es
      → go ms before flag ≡ ok (before ++ bodies_of es, flag || some_unsupported es)
  go_complete [] [] before flag h = unfold resolve_modules in ground (arith, append-nil before)
  go_complete (m ∷ ms) [] before flag h = absurd h
  go_complete [] (e ∷ es) before flag h = absurd h
  go_complete (m ∷ ms) (e ∷ es) before flag (first, rest) =
      go-cons m ms before flag e first
      ∙ go_complete ms es (push before e) (flagged flag e) rest
      ∙ ap₂ (λ bs f. ok (bs, f)) (push-bodies_of before e es) (flagged-some_unsupported flag e es)
