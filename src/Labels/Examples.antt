-- ===== src/Labels/Examples.antt =====
-- Evidence of two names, of which the second leads to no file.
use Prim.Native.String.{◌++◌ as append_text}
use coinjoin_emulator.Base.{◌≡◌, true, false, String, none, some, [], ◌∷◌, str_eq, if◌then◌else◌}
use coinjoin_emulator.Labels.{
  ProducerLabelEvidence, Files, ManifestSource, is_inside, source_record, sha256_file,
  digest_chunks, missing_text, reason_or, producer_label_manifest,
}
use coinjoin_emulator.Labels.Complete.{manifest_with, producer_label_manifest-eq}

abbrev one_file : Files
one_file = record {
  realpath = λ p. p;
  join = λ a b. append_text a (append_text "/" b);
  commonpath = λ a b. a;
  isfile = λ p. str_eq p "/data/a";
  relpath = λ p r. if str_eq p "/data/a" then "a" else p;
  slashes = λ p. p;
  getsize = λ p. 3;
  chunks = λ p. "xy" ∷ "z" ∷ [];
  Digest = String;
  no_digest = "";
  digest_update = λ chunk digest. append_text digest chunk;
  hexdigest = λ digest. digest;
}

abbrev two_names : ProducerLabelEvidence
two_names = record {
  engine = "joinmarket";
  complete = true;
  sources = "a" ∷ "b" ∷ [];
  reason = none;
  positive_rule = none;
  positive_count = some 1;
}

abbrev listed : ManifestSource
listed = record { path = "a"; size_bytes = 3; sha256 = "xyz" }

producer_label_manifest-eq_example :
    producer_label_manifest one_file "/data" (some two_names)
    ≡ manifest_with two_names false (some "producer-label source is missing: b") (listed ∷ [])
unfolding reason_or source_record sha256_file digest_chunks missing_text is_inside
producer_label_manifest-eq_example = producer_label_manifest-eq one_file "/data" (some two_names)
