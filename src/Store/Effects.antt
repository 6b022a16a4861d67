-- ===== src/Store/Effects.antt =====
-- What writing a capture uses of the operating system, and steps that keep a record of changes.
use optic.Prelude.{ℕ, List, [], ◌∷◌, Result, ok, err}
use optic.Store.{StorePath, IoError, FileSystem, Error}

-- The calls that change the file system. A file is created new, then written.
pub data Change : Type 0 where
  create_dir create_file flush : StorePath → Change
  write : StorePath → List ℕ → Change
  rename : StorePath → StorePath → Change

-- What the calls see of a state of the world, and what a change does to it, also when it fails.
pub record Os (W : Type 0) : Type 0 where
  pub observe : W → FileSystem
  pub read_exact : W → StorePath → ℕ → ℕ → Result IoError (List ℕ)
  pub change : Change → W → Result IoError (Unit {0}) × W

-- The changes that have succeeded, the latest first.
pub record Run (W : Type 0) : Type 0 where
  pub world : W
  pub changes : List Change

-- Steps that may fail, with the changes that they make.
abbrev pub Act : Type 0 → Type 0 → Type 0
Act W A = Run W → Result Error A × Run W

module _ {W A : Type 0} where
  abbrev pub pure : A → Act W A
  pure a run = (ok a, run)

  abbrev pub fail : Error → Act W A
  fail e run = (err e, run)

  -- `?` on a result.
  abbrev pub lift : Result Error A → Act W A
  lift r run = (r, run)

module _ {W A B : Type 0} where
  abbrev pub continue : Result Error A × Run W → (A → Act W B) → Result Error B × Run W
  continue (ok a, run) f = f a run
  continue (err e, run) f = (err e, run)

  infixl 5 ◌>>=◌ ◌>>◌
  abbrev pub ◌>>=◌ : Act W A → (A → Act W B) → Act W B
  (m >>= f) run = continue (m run) f

  abbrev pub ◌>>◌ : Act W A → Act W B → Act W B
  (m >> k) run = continue (m run) (λ _. k)

-- `for x in xs { f(x)?; }`
abbrev pub each : {W A : Type 0} → (A → Act W (Unit {0})) → List A → Act W (Unit {0})
each f [] = pure tt
each f (x ∷ xs) = f x >> each f xs

module _ {W : Type 0} (os : Os W) where
  abbrev pub look : {A : Type 0} → (FileSystem → Result Error A) → Act W A
  look f run = (f (os.observe run.world), run)

  abbrev pub changed :
      (IoError → Error)
      → Change
      → List Change
      → Result IoError (Unit {0}) × W
      → Result Error (Unit {0}) × Run W
  changed failure c changes (ok _, w) = (ok tt, record { world = w; changes = c ∷ changes })
  changed failure c changes (err e, w) = (err (failure e), record { world = w; changes = changes })

  abbrev pub attempt : (IoError → Error) → Change → Act W (Unit {0})
  attempt failure c run = changed failure c run.changes (os.change c run.world)
