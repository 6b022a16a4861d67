-- ===== src/LlvmIndex/Runs/Reading.antt =====
-- What reading header tokens and groups guarantees, with a byte budget.
use optic.Prelude.{
  ℕ, Bool, true, false, not, ◌&&◌, Option, none, some, List, [], ◌∷◌, ◌≢◌, arith, ◌==◌,
  if◌then◌else◌,
}
use optic.Prelude.Text.{Text, text_beq}
use optic.LlvmIndex.Stream.{Stream, Read, pure, ◌>>=◌, Round, again, done, is_ascii_whitespace}
use optic.LlvmIndex.Token.{
  Token, skip_blank, require_budget, read_token, read_required_token, expect, matching_close,
  is_close, single, on_delimiter, close_group, consume_group,
}
use optic.LlvmIndex.Runs.{
  Runs, returns, fails, bind, on_option, on_if, Turn, repeat-Runs, Reads, Reads-refl, Reads-trans,
  Reads-least, Moves-less, IsActive, HasBudget, Reads-IsActive,
}
use optic.LlvmIndex.Runs.Bytes.{on_take, on_peek, take_more-Runs, skip_line-Runs}
use optic.LlvmIndex.Runs.Tokens.{IsValidated, complete_token-Runs}

-- A round that reads and has no result: it goes on, or ends here.
blank_round :
    (s t u : Stream) (b : Bool)
    → Reads 0 s t
    → Reads 1 t u
    → Turn
        (λ (_ : Unit {0}) t. Reads 0 s t)
        (λ (_ : Bool) t. Reads 0 s t)
        t
        (if b then done true else again tt)
        u
blank_round s t u true p q = Reads-least 0 (omega arith) (Reads-trans p q)
blank_round s t u false p q = (Reads-least 0 (omega arith) (Reads-trans p q), Moves-less q.moves)

skip_blank-Runs : (stop : Bool) (s : Stream) → Runs (λ _ t. Reads 0 s t) (skip_blank stop s)
unfolding skip_blank
skip_blank-Runs stop s =
    repeat-Runs _ (λ _ t. Reads 0 s t) (λ _ t. Reads 0 s t)
      (λ a t i.
        on_peek t _ _ (λ u p. returns _ u (Reads-trans i p.0))
          λ byte tail e.
            on_if (byte == b';') _ _ t
              (λ _.
                bind (skip_line-Runs t)
                  λ _ u (_, more). returns _ u (blank_round s t u stop i (more (byte, (tail, e)))))
              λ _.
                on_if (is_ascii_whitespace byte) _ _ t
                  (λ _.
                    bind (take_more-Runs t (byte, (tail, e)))
                      λ b u p. returns _ u (blank_round s t u (stop && byte == 10) i p))
                  λ _. returns _ t i)
      tt s (Reads-refl s)

-- A token, or nothing behind white space and comments.
abbrev pub MayRead : Stream → Option Token → Stream → Type 0
MayRead s none t = Reads 0 s t
MayRead s (some token) t = Reads 1 s t × IsValidated token.bytes

budget_of :
    (rest : List ℕ) (ending : Option Text) (offset : ℕ) (header : Option ℕ)
    → HasBudget header
    → let s : Stream = record {
      rest = rest;
      ending = ending;
      offset = offset;
      header_start = header;
    } in
      Runs (λ _ t. Reads 0 s t) (require_budget s)
budget_of rest ending offset none active = elim active [ ]
budget_of rest ending offset (some start) active = returns tt _ (Reads-refl _)

require_budget-Runs : (s : Stream) → IsActive s → Runs (λ _ t. Reads 0 s t) (require_budget s)
require_budget-Runs s active = budget_of s.rest s.ending s.offset s.header_start active

pub read_token-Runs : (stop : Bool) (s : Stream) → IsActive s → Runs (MayRead s) (read_token stop s)
unfolding read_token
read_token-Runs stop s active = bind (require_budget-Runs s active) λ _ t p.
    bind (skip_blank-Runs stop t) λ ended u q.
      on_if ended _ _ u (λ _. returns none u (Reads-trans p q))
        λ _.
          on_take u _ _ (λ v r. returns none v (Reads-trans p (Reads-trans q r.0)))
            λ byte v r. bind (complete_token-Runs byte v) λ bytes w x.
              returns (some (record { bytes = bytes; offset = u.offset })) w
                (Reads-trans p (Reads-trans q (Reads-trans r.0 x.0)), x.1)

-- A token that must be there.
abbrev pub DoesRead : Stream → Token → Stream → Type 0
DoesRead s token t = Reads 1 s t × IsValidated token.bytes

-- The two ways on from a token that may be there.
module _ {A : Type 0} {P : A → Stream → Type 0} (s : Stream) (m : Read A) (f : Token → Read A) where
  pub after_token :
      ((t : Stream) → Reads 0 s t → Runs P (m t))
      → ((token : Token) (t : Stream) → DoesRead s token t → Runs P (f token t))
      → (next : Option Token) (t : Stream) → MayRead s next t
      → Runs P (elim next as (λ _. Read A) [ none ↦ m | some token ↦ f token ] t)
  after_token h h' none t p = h t p
  after_token h h' (some token) t p = h' token t p

pub read_required_token-Runs : (s : Stream) → IsActive s → Runs (DoesRead s) (read_required_token s)
unfolding read_required_token
read_required_token-Runs s active =
    bind (read_token-Runs false s active)
      λ next t p. after_token s _ _ (λ u _. fails _ tt) (λ token u q. returns token u q) next t p

pub expect-Runs :
    (expected : Text) (s : Stream) → IsActive s → Runs (λ _ t. Reads 1 s t) (expect expected s)
unfolding expect
expect-Runs expected s active = bind (read_required_token-Runs s active) λ token t p.
    on_if (not (text_beq token.bytes expected)) _ _ t (λ _. fails _ tt) λ _. returns tt t p.0

on_delimiter-Runs :
    (token : Token) (byte : ℕ) (closing : List ℕ) (s : Stream)
    → Runs (λ _ t. Reads 0 s t) (on_delimiter token byte closing s)
unfolding on_delimiter
on_delimiter-Runs token byte [] s = returns [] s (Reads-refl s)
on_delimiter-Runs token byte (expected ∷ outer) s =
    on_option (matching_close byte) _ _ s
      (λ _.
        on_if (not (is_close byte)) _ _ s (λ _. returns _ s (Reads-refl s))
          λ _.
            on_if (not (byte == expected)) _ _ s (λ _. fails _ tt) λ _. returns _ s (Reads-refl s))
      λ close _. returns _ s (Reads-refl s)

-- A round over the stack of closing delimiters.
abbrev GroupTurn : Stream → Stream → Round (List ℕ) (Unit {0}) → Stream → Type 0
GroupTurn s = Turn (λ _ t. Reads 0 s t) (λ _ t. Reads 0 s t)

group_round :
    (s t u : Stream) (token : Token) (closing : List ℕ)
    → Reads 0 s t
    → Reads 1 t u
    → Runs (GroupTurn s t) (
        elim (single token.bytes) as (λ _. Read (Round (List ℕ) (Unit {0}))) [
          | none ↦ pure (again closing)
          | some byte ↦ on_delimiter token byte closing >>= λ rest. pure (again rest)
        ]
          u)
group_round s t u token closing p q =
    on_option (single token.bytes) _ _ u
      (λ _. returns _ u (Reads-least 0 (omega arith) (Reads-trans p q), Moves-less q.moves))
      λ byte _. bind (on_delimiter-Runs token byte closing u) λ rest v r. returns _ v (
        Reads-least 0 (omega arith) (Reads-trans p (Reads-trans q r)),
        Moves-less (Reads-trans q r).moves,
      )

close_group_round :
    (s t : Stream) (closing : List ℕ)
    → IsActive s
    → Reads 0 s t
    → Runs (GroupTurn s t) (
        elim closing as (λ _. Read (Round (List ℕ) (Unit {0}))) [
          | [] ↦ pure (done tt)
          | expected ∷ outer ↦ read_required_token >>= λ token. elim (single token.bytes) [
            | none ↦ pure (again (expected ∷ outer))
            | some byte ↦ on_delimiter token byte (expected ∷ outer) >>= λ rest. pure (again rest)
          ]
        ]
          t)
close_group_round s t [] active p = returns _ t p
close_group_round s t (expected ∷ outer) active p =
    bind (read_required_token-Runs t (Reads-IsActive p active))
      λ token u q. group_round s t u token (expected ∷ outer) p q.0

close_group-Runs :
    (closing : List ℕ) (s : Stream) → IsActive s → Runs (λ _ t. Reads 0 s t) (close_group closing s)
unfolding close_group
close_group-Runs closing s active =
    repeat-Runs _ (λ _ t. Reads 0 s t) _ (λ closing t i. close_group_round s t closing active i)
      closing s (Reads-refl s)

pub consume_group-Runs :
    (opening : ℕ) (s : Stream)
    → matching_close opening ≢ none
    → IsActive s
    → Runs (λ _ t. Reads 0 s t) (consume_group opening s)
unfolding consume_group
consume_group-Runs opening s opens active =
    on_option (matching_close opening) _ _ s (λ h. absurd (opens h))
      λ close _. close_group-Runs (close ∷ []) s active
