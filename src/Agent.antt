-- ===== src/Agent.antt =====
-- internal/agent: what the broker takes from the standard library as given, and context digests.
pub mod Digest
use agent_whiteboard.Base.{ℕ, Bool, List, Option, Str}

-- The parts of a parsed URL that the source reads: `Scheme`, `Host`, `Hostname()`, `User != nil`,
-- `Path`, `RawQuery`, `Fragment` and `String()`.
pub record Url : Type 0 where
  pub scheme : Str
  pub host : Str
  pub hostname : Str
  pub has_user : Bool
  pub path : Str
  pub raw_query : Str
  pub fragment : Str
  pub text : Str

-- `sha256.Sum256`, `url.Parse` and `filepath.Clean`: the source relies on no law of theirs.
pub record Platform : Type 0 where
  pub sha256 : List ℕ → List ℕ
  pub parse_url : Str → Option Url
  pub clean_path : Str → Str
