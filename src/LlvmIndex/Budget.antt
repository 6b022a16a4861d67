-- ===== src/LlvmIndex/Budget.antt =====
-- The byte budget of headers.
use optic.Prelude.{◌≡◌, refl, Option, some, ok, Result, ℕ, subst, sym, ◌∙◌, ok-inj}
use optic.Prelude.Text.{Text}
use optic.LlvmIndex.Stream.{Stream, Error}
use optic.LlvmIndex.Header.{read_function}
use optic.LlvmIndex.Alias.{read_alias_target}
use optic.LlvmIndex.Runs.{Runs, returns, fails, Allows, HasBudget}
use optic.LlvmIndex.Headers.{Follows, read_function-Runs}
use optic.LlvmIndex.Aliases.{read_alias_target-Runs}

inspect :
    {A : Type 0} {P : A → Stream → Type 0} {r : Result Error (A × Stream)} (a : A) (t : Stream)
    → Runs P r
    → r ≡ ok (a, t)
    → P a t
inspect {P = P} a t (returns a' t' p) h = subst (λ x. P x.0 x.1) (ok-inj (ok (a', t')) refl h) p
inspect a t (fails e real) h = absurd (cc h)

kept_budget :
    {A : Type 0} (start : ℕ) (s : Stream) (a : A) (t : Stream)
    → s.header_start ≡ some start
    → Allows s.offset (some start)
    → Follows s a t
    → Allows t.offset (some start)
kept_budget start s a t h w p =
    subst (Allows t.offset) (p.same_header ∙ h) (p.within (subst (Allows s.offset) (sym h) w))

-- A function header that began at an offset at most 1 MiB back, read to its opening brace, ends at
-- most 1 MiB behind that offset.
pub function_budget :
    (start : ℕ) (s : Stream) (symbol : Text) (t : Stream)
    → s.header_start ≡ some start
    → Allows s.offset (some start)
    → read_function s ≡ ok (symbol, t)
    → Allows t.offset (some start)
function_budget start s symbol t h w e =
    kept_budget start s symbol t h w
      (inspect symbol t (read_function-Runs s (subst HasBudget (sym h) tt)) e)

-- So does the operand of an alias or ifunc, with its suffixes.
pub alias_budget :
    (start : ℕ) (s : Stream) (target : Option Text) (t : Stream)
    → s.header_start ≡ some start
    → Allows s.offset (some start)
    → read_alias_target s ≡ ok (target, t)
    → Allows t.offset (some start)
alias_budget start s target t h w e =
    kept_budget start s target t h w
      (inspect target t (read_alias_target-Runs s (subst HasBudget (sym h) tt)) e)
