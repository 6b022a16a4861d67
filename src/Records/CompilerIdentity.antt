-- ===== src/Records/CompilerIdentity.antt =====
-- crates/cargo-optic-records/src/compiler_identity.rs
use optic.Prelude.{ok, ◌>>◌}
use optic.Prelude.Text.{Text, text_eq}
use optic.Records.Error.{Checked}
use optic.Records.Validation.{FilePath, require_text, require_absolute_normalized_path}

pub record CompilerIdentity : Type 0 where
  pub rustc : FilePath
  pub release : Text
  pub commit_hash : Text
  pub host : Text
  pub sysroot : FilePath

unfoldable pub new : FilePath → Text → Text → Text → FilePath → Checked CompilerIdentity
new rustc release commit_hash host sysroot = do
  require_absolute_normalized_path "rustc path" rustc
  require_text "rustc release" release
  require_text "rustc commit hash" commit_hash
  require_text "rustc host" host
  require_absolute_normalized_path "rustc sysroot" sysroot
  ok (record {
    rustc = rustc;
    release = release;
    commit_hash = commit_hash;
    host = host;
    sysroot = sysroot;
  })

pub record RawCompilerIdentity : Type 0 where
  pub rustc : FilePath
  pub release : Text
  pub commit_hash : Text
  pub host : Text
  pub sysroot : FilePath

unfoldable pub try_from : RawCompilerIdentity → Checked CompilerIdentity
unfolding new
try_from raw = new raw.rustc raw.release raw.commit_hash raw.host raw.sysroot
