-- ===== src/LlvmIndex/Braces.antt =====
-- Function bodies as a grammar, and that skipping reads them to their end.
use optic.Prelude.{
  ℕ, suc, Bool, true, false, not, ◌||◌, List, [], ◌∷◌, ◌++◌, append_assoc, ◌≡◌, refl, sym, ap,
  subst, ◌∙◌, arith, All, ◌==◌,
}
use optic.LlvmIndex.Stream.{quote, backslash, is_ascii_hexdigit}
use optic.LlvmIndex.Decoding.{digit_not_backslash}
use optic.LlvmIndex.Body.{Scan, stay, on_plain, on_byte}

-- The bytes of a string, without line ends: a backslash begins an escape.
pub data Inside : List ℕ → Type 0 where
  nothing : Inside []
  character :
      (c : ℕ) (rest : List ℕ)
      → (c == quote) ≡ false
      → (c == backslash) ≡ false
      → (c == 10 || c == 13) ≡ false
      → Inside rest
      → Inside (c ∷ rest)
  backslashes : (rest : List ℕ) → Inside rest → Inside (backslash ∷ backslash ∷ rest)
  digits :
      (first second : ℕ) (rest : List ℕ)
      → is_ascii_hexdigit first ≡ true
      → is_ascii_hexdigit second ≡ true
      → Inside rest
      → Inside (backslash ∷ first ∷ second ∷ rest)

abbrev pub is_special : ℕ → Bool
is_special c = c == b';' || c == quote || c == b'{' || c == b'}'

-- What stands behind as many opening braces, through the brace that closes the first.
pub data Balanced : ℕ → List ℕ → Type 0 where
  close : Balanced 1 (b'}' ∷ [])
  open_brace :
      (depth : ℕ) (rest : List ℕ) → Balanced (suc depth) rest → Balanced depth (b'{' ∷ rest)
  close_brace :
      (depth : ℕ) (rest : List ℕ)
      → Balanced (suc depth) rest
      → Balanced (suc (suc depth)) (b'}' ∷ rest)
  plain :
      (depth c : ℕ) (rest : List ℕ)
      → is_special c ≡ false
      → Balanced depth rest
      → Balanced depth (c ∷ rest)
  comment :
      (depth : ℕ) (text rest : List ℕ)
      → All (λ c. (c == 10) ≡ false) text
      → Balanced depth rest
      → Balanced depth (b';' ∷ text ++ 10 ∷ rest)
  string :
      (depth : ℕ) (text rest : List ℕ)
      → Inside text
      → Balanced depth rest
      → Balanced depth (quote ∷ text ++ quote ∷ rest)

-- From one state of the scan to another, over these bytes.
pub data Steps : Scan → List ℕ → Scan → Type 0 where
  none_left : (s : Scan) → Steps s [] s
  step :
      (s t u : Scan) (c : ℕ) (rest : List ℕ)
      → on_byte s c ≡ stay t
      → Steps t rest u
      → Steps s (c ∷ rest) u

Steps-append : {s t u : Scan} {a b : List ℕ} → Steps s a t → Steps t b u → Steps s (a ++ b) u
Steps-append (none_left s) q = q
Steps-append {u = u} {b = b} (step s t _ c rest h p) q =
    step s t u c (rest ++ b) h (Steps-append p q)

abbrev pub at : ℕ → Scan
at depth = record { depth = depth; quoted = false; comment = false; escape_digits = 0 }

abbrev inside : ℕ → ℕ → Scan
inside depth escape = record {
  depth = depth;
  quoted = true;
  comment = false;
  escape_digits = escape;
}

abbrev commented : ℕ → Scan
commented depth = record { depth = depth; quoted = false; comment = true; escape_digits = 0 }

comment-Steps :
    (depth : ℕ) (text : List ℕ)
    → All (λ c. (c == 10) ≡ false) text
    → Steps (commented depth) (text ++ 10 ∷ []) (at depth)
unfolding on_byte
comment-Steps depth [] h =
    step (commented depth) (at depth) (at depth) 10 [] refl (none_left (at depth))
comment-Steps depth (c ∷ text) (h, hs) =
    step (commented depth) (commented depth) (at depth) c (text ++ 10 ∷ [])
      (ap (λ b. stay (record { depth = depth; quoted = false; comment = not b; escape_digits = 0 }))
        h)
      (comment-Steps depth text hs)

inside-Steps :
    (depth : ℕ) {text : List ℕ}
    → Inside text
    → Steps (inside depth 0) (text ++ quote ∷ []) (at depth)
unfolding on_byte
inside-Steps depth nothing = step _ (at depth) (at depth) quote [] refl (none_left (at depth))
inside-Steps depth (character c rest h h' h'' q) =
    step _ (inside depth 0) (at depth) c (rest ++ quote ∷ []) (rw (h'', h, h') refl)
      (inside-Steps depth q)
inside-Steps depth (backslashes rest q) =
    step _ (inside depth 2) (at depth) backslash _ refl
      (step _ (inside depth 0) (at depth) backslash _ refl (inside-Steps depth q))
inside-Steps depth (digits x y rest h h' q) = step _ (inside depth 2) (at depth) backslash _ refl (
    step _ (inside depth 1) (at depth) x _ (rw (digit_not_backslash x h, h) refl)
      (step _ (inside depth 0) (at depth) y _ (rw h' refl) (inside-Steps depth q)))

plain-stay : (depth c : ℕ) → is_special c ≡ false → on_byte (at depth) c ≡ stay (at depth)
unfolding on_byte on_plain
plain-stay depth c h = ground arith

close-stay : (depth : ℕ) → on_byte (at (suc (suc depth))) b'}' ≡ stay (at (suc depth))
unfolding on_byte on_plain
close-stay depth = ground arith

-- All but the last brace.
pub record Ends (depth : ℕ) (text : List ℕ) : Type 0 where
  pub before : List ℕ
  pub splits : text ≡ before ++ b'}' ∷ []
  pub steps : Steps (at depth) before (at 1)

more :
    {depth depth' : ℕ} {rest : List ℕ} (first : List ℕ)
    → Steps (at depth) first (at depth')
    → Ends depth' rest
    → Ends depth (first ++ rest)
more first s e = record {
  before = first ++ e.before;
  splits = ap (λ l. first ++ l) e.splits ∙ sym (append_assoc first e.before (b'}' ∷ []));
  steps = Steps-append s e.steps;
}

one : (s t : Scan) (c : ℕ) → on_byte s c ≡ stay t → Steps s (c ∷ []) t
one s t c h = step s t t c [] h (none_left t)

pub Balanced-Ends : {depth : ℕ} {text : List ℕ} → Balanced depth text → Ends depth text
unfolding on_byte on_plain
Balanced-Ends close = record { before = []; splits = refl; steps = none_left (at 1) }
Balanced-Ends (open_brace depth rest b) =
    more (b'{' ∷ []) (one (at depth) (at (suc depth)) b'{' (ap (λ d. stay (at d)) (omega arith)))
      (Balanced-Ends b)
Balanced-Ends (close_brace depth rest b) =
    more (b'}' ∷ []) (one _ _ b'}' (close-stay depth)) (Balanced-Ends b)
Balanced-Ends (plain depth c rest h b) =
    more (c ∷ []) (one _ _ c (plain-stay depth c h)) (Balanced-Ends b)
Balanced-Ends (comment depth text rest h b) =
    subst (λ l. Ends depth (b';' ∷ l)) (append_assoc text (10 ∷ []) rest)
      (more (b';' ∷ text ++ 10 ∷ [])
        (step (at depth) (commented depth) (at depth) b';' _ refl (comment-Steps depth text h))
        (Balanced-Ends b))
Balanced-Ends (string depth text rest q b) =
    subst (λ l. Ends depth (quote ∷ l)) (append_assoc text (quote ∷ []) rest)
      (more (quote ∷ text ++ quote ∷ [])
        (step (at depth) (inside depth 0) (at depth) quote _ refl (inside-Steps depth q))
        (Balanced-Ends b))
