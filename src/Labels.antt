-- ===== src/Labels.antt =====
-- The producer-label manifest: manager/engine/base/manifest.py. The path functions of os.path, the
-- hash of hashlib are parameters, as is what the files hold; the writing of the file is left out.
pub mod Sources
pub mod Complete
mod Examples
use Prim.Native.String.{◌++◌ as append_text}
use coinjoin_emulator.Base.{
  ℕ, Bool, true, false, not, ◌&&◌, ◌||◌, String, Option, none, some, List, [], ◌∷◌, ◌++◌, str_eq,
  if◌then◌else◌, or_default,
}

-- `ProducerLabelEvidence`; a key that is left out reads as None.
pub record ProducerLabelEvidence : Type 0 where
  pub engine : String
  pub complete : Bool
  pub sources : List String
  pub reason : Option String
  pub positive_rule : Option String
  pub positive_count : Option ℕ

pub record ManifestSource : Type 0 where
  pub path : String
  pub size_bytes : ℕ
  pub sha256 : String

pub record ProducerLabelManifest : Type 0 where
  pub schema_version : String
  pub engine : String
  pub complete : Bool
  pub reason : Option String
  pub positive_rule : Option String
  pub positive_count : Option ℕ
  pub sources : List ManifestSource

-- What is asked of the paths and the files.
pub record Files : Type 1 where
  pub realpath : String → String
  pub join : String → String → String
  pub commonpath : String → String → String
  pub isfile : String → Bool
  pub relpath : String → String → String
  pub slashes : String → String
  pub getsize : String → ℕ
  pub chunks : String → List String
  pub Digest : Type 0
  pub no_digest : Digest
  pub digest_update : String → Digest → Digest
  pub hexdigest : Digest → String

unfoldable pub digest_chunks : (f : Files) → List String → f.Digest → f.Digest
digest_chunks f [] digest = digest
digest_chunks f (chunk ∷ chunks) digest = digest_chunks f chunks (f.digest_update chunk digest)

-- `_sha256_file`.
unfoldable pub sha256_file : Files → String → String
unfolding digest_chunks
sha256_file f path = f.hexdigest (digest_chunks f (f.chunks path) f.no_digest)

-- `reason or text`: an empty reason counts as none.
unfoldable pub reason_or : Option String → String → String
reason_or none text = text
reason_or (some r) text = if str_eq r "" then text else r

unfoldable pub missing_text : String → String
missing_text name = append_text "producer-label source is missing: " name

-- What the loop over the sources keeps.
pub record Capture : Type 0 where
  pub captured : Bool
  pub why : Option String
  pub records : List ManifestSource

unfoldable pub refuse_source : String → Capture → Capture
unfolding reason_or
refuse_source text c = record c { captured = false; why = some (reason_or c.why text) }

-- Whether the file that a name leads to is one below the data.
unfoldable pub is_inside : Files → String → String → Bool
is_inside f root path = str_eq (f.commonpath root path) root && f.isfile path

unfoldable pub source_record : Files → String → String → ManifestSource
unfolding sha256_file
source_record f root path = record {
  path = f.slashes (f.relpath path root);
  size_bytes = f.getsize path;
  sha256 = sha256_file f path;
}

-- A turn of the loop.
unfoldable pub add_source : Files → String → String → Capture → Capture
unfolding refuse_source is_inside source_record missing_text
add_source f root name c =
    if str_eq name ""
    then refuse_source "producer-label source path is invalid" c
    else let path = f.realpath (f.join root name) in
      if is_inside f root path
      then record c { records = c.records ++ (source_record f root path ∷ []) }
      else refuse_source (missing_text name) c

unfoldable pub add_sources : Files → String → List String → Capture → Capture
unfolding add_source
add_sources f root [] c = c
add_sources f root (name ∷ names) c = add_sources f root names (add_source f root name c)

unfoldable pub no_records : List ManifestSource → Bool
no_records [] = true
no_records (_ ∷ _) = false

-- A complete capture has a source.
unfoldable pub require_source : Capture → Capture
unfolding refuse_source no_records
require_source c =
    if c.captured && no_records c.records
    then refuse_source "producer-label capture produced no source files" c
    else c

unfoldable pub unknown_evidence : ProducerLabelEvidence
unknown_evidence = record {
  engine = "unknown";
  complete = false;
  sources = [];
  reason = none;
  positive_rule = none;
  positive_count = none;
}

unfoldable pub manifest_of : ProducerLabelEvidence → Capture → ProducerLabelManifest
unfolding reason_or
manifest_of e c = record {
  schema_version = "1.0";
  engine = e.engine;
  complete = c.captured;
  reason =
      if c.captured then none else some (reason_or c.why "producer-label capture was incomplete");
  positive_rule = e.positive_rule;
  positive_count = e.positive_count;
  sources = c.records;
}

unfoldable pub capture_sources : Files → String → ProducerLabelEvidence → Capture
unfolding add_sources require_source
capture_sources f root e =
    require_source (
      add_sources f root e.sources (record { captured = e.complete; why = e.reason; records = [] }))

-- The manifest that `write_producer_label_manifest` writes.
unfoldable pub producer_label_manifest :
    Files → String → Option ProducerLabelEvidence → ProducerLabelManifest
unfolding manifest_of capture_sources unknown_evidence
producer_label_manifest f data_path evidence =
    let e = or_default evidence unknown_evidence in
    manifest_of e (capture_sources f (f.realpath data_path) e)
