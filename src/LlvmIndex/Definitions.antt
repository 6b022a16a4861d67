-- ===== src/LlvmIndex/Definitions.antt =====
-- What reading a definition guarantees: the range of the record is that of the bytes read.
use optic.Prelude.{
  ℕ, suc, ◌-◌, Option, none, some, List, [], ◌∷◌, ◌++◌, append_assoc, ◌≡◌, refl, sym, ap, subst,
  ◌∙◌, arith, ok, err, map_err,
}
use optic.Prelude.Text.{Text, codes, text_eq}
use optic.Records.Error.{Checked}
use optic.Records.ByteRange
use optic.Records.ByteRange.{ByteRange}
use optic.Records.LlvmDefinitionRecord
use optic.Records.LlvmDefinitionRecord.{
  LlvmDefinitionRecord, LlvmDefinitionKind, function, direct_alias, expression_alias, ifunc,
}
use optic.LlvmIndex.Stream.{
  invalid_record, Stream, Read, pure, ◌>>=◌, ◌>>◌, end_header, again, done,
}
use optic.LlvmIndex.Token.{Token, matching_close}
use optic.LlvmIndex.Symbol.{decode_symbol}
use optic.LlvmIndex.Header.{lift, is_token, is_one_of}
use optic.LlvmIndex.Scanner.{
  modifiers, variables, alias_kind, read_global_kind, record_from, read_global_definition,
  read_function_definition,
}
use optic.LlvmIndex.Runs.{
  Runs, returns, fails, bind, weaken, on_if, Turn, repeat-Runs, IsActive, Reads-IsActive, Moves,
  Moves-trans, Moves-eaten, Reads, Reads-refl, Reads-trans, Moves-less,
}
use optic.LlvmIndex.Runs.Bytes.{skip_line-Runs}
use optic.LlvmIndex.Runs.Tokens.{IsValidated}
use optic.LlvmIndex.Runs.Reading.{read_required_token-Runs, expect-Runs}
use optic.LlvmIndex.Decoding.{decode-Runs}
use optic.LlvmIndex.Headers.{
  Follows, both, next_token, group-Runs, consume_parentheses-Runs, read_function-Runs,
}
use optic.LlvmIndex.Aliases.{read_alias_target-Runs}
use optic.LlvmIndex.Bodies.{skip_body-Runs}

-- Any result, behind the start; the budget may have ended.
abbrev pub Advances : {A : Type 0} → Stream → A → Stream → Type 0
Advances s a t = Moves 0 s t

pub move : {j k : ℕ} {s t u : Stream} → Moves j s t → Moves k t u → Moves 0 s u
move p q = Moves-eaten 0 (Moves-trans p q) (omega arith)

pub step : {j k : ℕ} {s t u : Stream} → Moves (suc j) s t → Moves k t u → Moves 1 s u
step p q = Moves-eaten 1 (Moves-trans p q) (omega (arith, (Moves-trans p q).least))

-- To begin or end a header consumes nothing.
pub unbudgeted : (s : Stream) (header : Option ℕ) → Moves 0 s (record s { header_start = header })
unbudgeted s header = record {
  eaten = [];
  splits = refl;
  counts = omega arith;
  least = omega arith;
  same_ending = refl;
  bounded = λ h. h;
}

-- The kind of a definition that is an alias or an ifunc.
abbrev pub IsAlias : LlvmDefinitionKind → Type 0
IsAlias function = ⊥
IsAlias _ = Unit

abbrev IsAliasKind : Option LlvmDefinitionKind → Type 0
IsAliasKind none = Unit
IsAliasKind (some kind) = IsAlias kind

alias_kind-IsAlias : (target : Option Text) → IsAlias (alias_kind target)
alias_kind-IsAlias none = tt
alias_kind-IsAlias (some target) = tt

abbrev KindRead : Stream → Option LlvmDefinitionKind → Stream → Type 0
KindRead s kind t = Moves 0 s t × IsAliasKind kind

stop_kind :
    {s t u : Stream} {j k : ℕ} (kind : Option LlvmDefinitionKind)
    → IsAliasKind kind
    → Moves j s t
    → Moves k t u
    → Runs (Turn {S = Unit {0}} (Follows s) (KindRead s) t) (ok (done kind, u))
stop_kind kind h p q = returns _ _ (move p q, h)

more_kind :
    {s t u : Stream} {j k : ℕ}
    → Reads j s t
    → Reads (suc k) t u
    → Runs (Turn {S = Unit {0}} (Follows s) (KindRead s) t) (ok (again tt, u))
more_kind p q = returns _ _ (both p q, Moves-less q.moves)

paren_closes : matching_close b'(' ≡ some b')'
unfolding matching_close
paren_closes = refl

read_global_kind-Runs : (s : Stream) → IsActive s → Runs (KindRead s) (read_global_kind s)
unfolding read_global_kind
read_global_kind-Runs s active =
    repeat-Runs _ (Follows s) (KindRead s)
      (λ _ t p. bind (next_token active p) λ token u q.
        let active' = Reads-IsActive (both p q.0) active in
        on_if (is_one_of variables token) _ _ u
          (λ _. bind (skip_line-Runs (record u { header_start = none })) λ _ v r.
            stop_kind none tt p.moves (Moves-trans q.0.moves (move (unbudgeted u none) r.0.moves)))
          λ _.
            on_if (is_token "alias" token) _ _ u
              (λ _. bind (read_alias_target-Runs u active') λ target v r.
                stop_kind (some (alias_kind target)) (alias_kind-IsAlias target) p.moves
                  (Moves-trans q.0.moves r.moves))
              λ _.
                on_if (is_token "ifunc" token) _ _ u
                  (λ _.
                    bind (read_alias_target-Runs u active')
                      λ _ v r. stop_kind (some ifunc) tt p.moves (Moves-trans q.0.moves r.moves))
                  λ _.
                    on_if (is_one_of modifiers token) _ _ u (λ _. more_kind p q.0)
                      λ _.
                        on_if (is_token "addrspace" token) _ _ u
                          (λ _.
                            bind (consume_parentheses-Runs u active')
                              λ _ v r. more_kind p (Reads-trans q.0 r))
                          λ _.
                            on_if (is_token "(" token) _ _ u
                              (λ _.
                                bind (group-Runs b'(' b')' u paren_closes active')
                                  λ _ v r. more_kind p (Reads-trans q.0 r))
                              λ _. fails _ tt)
      tt s (Reads-refl s)

-- A record is checked by its own module.
checked-Runs :
    {A : Type 0} (start : ℕ) (c : Checked A) (s : Stream)
    → Runs (λ a t. (t ≡ s) × (c ≡ ok a)) (lift (map_err (λ e. invalid_record start e) c) s)
checked-Runs start (ok a) s = returns a s (refl, refl)
checked-Runs start (err e) s = fails _ tt

new-fields :
    (symbol : Text) (range : ByteRange) (kind : LlvmDefinitionKind) (d : LlvmDefinitionRecord)
    → LlvmDefinitionRecord.new symbol range kind ≡ ok d
    → (d.range ≡ range) × (d.kind ≡ kind)
unfolding LlvmDefinitionRecord.new
new-fields symbol range kind d h = ground arith

-- The record of the bytes between two states.
abbrev pub Records : ℕ → LlvmDefinitionKind → Stream → LlvmDefinitionRecord → Stream → Type 0
Records start kind s d t =
    (t ≡ s) × ((d.range.start ≡ start) × ((d.range.length ≡ s.offset - start) × (d.kind ≡ kind)))

record_from-Runs :
    (start : ℕ) (symbol : Text) (kind : LlvmDefinitionKind) (s : Stream)
    → Runs (Records start kind s) (record_from start symbol kind s)
unfolding record_from
record_from-Runs start symbol kind s =
    bind (checked-Runs start (ByteRange.new start (s.offset - start)) s) λ range t (same, made).
      weaken (checked-Runs start (LlvmDefinitionRecord.new symbol range kind) t) λ d u (same', e).
        let fields = (ByteRange.new-ok start (s.offset - start) range).0 made in
        let kept = new-fields symbol range kind d e in
        (
          same' ∙ same,
          (ap (λ r. r.start) kept.0 ∙ fields.0, (ap (λ r. r.length) kept.0 ∙ fields.1, kept.1)),
        )

-- A record of the bytes between two states, of this kind, or none.
abbrev pub Finds :
    (LlvmDefinitionKind → Type 0) → Stream → Option LlvmDefinitionRecord → Stream → Type 0
Finds K s none t = Moves 1 s t
Finds K s (some d) t =
    Moves 1 s t × ((d.range.start ≡ s.offset) × ((d.range.length ≡ t.offset - s.offset) × K d.kind))

found :
    (K : LlvmDefinitionKind → Type 0) (kind : LlvmDefinitionKind) (s t u : Stream)
    (d : LlvmDefinitionRecord)
    → K kind
    → Moves 1 s t
    → Records s.offset kind t d u
    → Finds K s (some d) u
found K kind s t u d k m (same, (e, (e', e''))) = (
  subst (λ v. Moves 1 s v) (sym same) m,
  (e, (e' ∙ ap (λ v. v.offset - s.offset) (sym same), subst K (sym e'') k)),
)

global_end :
    (s t : Stream) (token : Token) (kind : Option LlvmDefinitionKind)
    → IsValidated token.bytes
    → Moves 1 s t
    → IsAliasKind kind
    → Runs (Finds IsAlias s) (
        elim kind as (λ _. Read (Option LlvmDefinitionRecord)) [
          | none ↦ end_header >> pure none
          | some k ↦ lift (decode_symbol token) >>= λ symbol.
              record_from s.offset symbol k >>= λ d. end_header >> pure (some d)
        ]
          t)
global_end s t token none valid m k = returns none _ (step m (unbudgeted t none))
global_end s t token (some kind) valid m k = bind (decode-Runs token t valid) λ symbol u p.
    bind (record_from-Runs s.offset symbol kind u) λ d v r.
      let finds = found IsAlias kind s u v d k (step m p.moves) r in
      returns (some d) _ (step finds.0 (unbudgeted v none), finds.1)

pub read_global_definition-Runs :
    (s : Stream) → Runs (Finds IsAlias s) (read_global_definition s.offset s)
unfolding read_global_definition
read_global_definition-Runs s =
    let t = record s { header_start = some s.offset } in
    bind (read_required_token-Runs t tt) λ token u p.
      bind (expect-Runs (codes "=") u (Reads-IsActive p.0 tt)) λ _ v q.
        bind (read_global_kind-Runs v (Reads-IsActive (both p.0 q) tt)) λ kind w r.
          global_end s w token kind p.1
            (step (Moves-trans (unbudgeted s (some s.offset)) p.0.moves) (move q.moves r.0)) r.1

pub read_function_definition-Runs :
    (s u : Stream)
    → Moves 1 s u
    → Runs
        (λ d v.
          Finds (λ kind. kind ≡ function) s (some d) v
          × ((body : List ℕ) × (u.rest ≡ body ++ b'}' ∷ v.rest)))
        (read_function_definition s.offset u)
unfolding read_function_definition
read_function_definition-Runs s u m =
    let t = record u { header_start = some s.offset } in
    bind (read_function-Runs t tt) λ symbol v p.
      bind (skip_body-Runs (record v { header_start = none })) λ _ w (q, (body, e)).
        weaken (record_from-Runs s.offset symbol function w) λ d x r. (
          found (λ kind. kind ≡ function) function s w x d refl
              (step m (
                move (Moves-trans (unbudgeted u (some s.offset)) p.moves)
                  (Moves-trans (unbudgeted v none) q.moves)))
              r,
          (
            p.moves.eaten ++ body,
            p.moves.splits
                ∙ ap (λ l. p.moves.eaten ++ l) e
                ∙ sym (append_assoc p.moves.eaten body (b'}' ∷ w.rest))
                ∙ ap (λ z. (p.moves.eaten ++ body) ++ b'}' ∷ z.rest) (sym r.0),
          ),
        )
