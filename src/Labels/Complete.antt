-- ===== src/Labels/Complete.antt =====
-- When a manifest is complete, what it lists, and that it gives a reason otherwise.
use coinjoin_emulator.Base.{
  ◌≡◌, refl, ◌∙◌, ap, Bool, false, not, ◌&&◌, String, Option, none, some, List, [], map, keep,
  if◌then◌else◌, Bool-cases, inl, inr, arith, or_default,
}
use coinjoin_emulator.Labels.{
  unknown_evidence, ProducerLabelEvidence, ManifestSource, ProducerLabelManifest, Files, Capture,
  reason_or, refuse_source, add_sources, no_records, require_source, manifest_of, capture_sources,
  producer_label_manifest,
}
use coinjoin_emulator.Labels.Sources.{
  is_source, record_of, all_sources, is_empty, first_defect, add_sources-records,
  add_sources-captured, add_sources-why, first_defect-found, no_records-sources, reason_or-again,
}

-- The reason that is given, else the first defect of the sources, else what the capture lacks.
abbrev pub reason_for : Files → String → ProducerLabelEvidence → String
reason_for f root e = reason_or e.reason (
    or_default (first_defect f root e.sources) (
      if e.complete
      then "producer-label capture produced no source files"
      else "producer-label capture was incomplete"))

-- The manifest of some evidence with these entries.
abbrev pub manifest_with :
    ProducerLabelEvidence → Bool → Option String → List ManifestSource → ProducerLabelManifest
manifest_with e complete why sources = record {
  schema_version = "1.0";
  engine = e.engine;
  complete = complete;
  reason = why;
  positive_rule = e.positive_rule;
  positive_count = e.positive_count;
  sources = sources;
}

-- A reason for a manifest that is not complete.
abbrev unless_complete : Bool → String → Option String
unless_complete complete why = if complete then none else some why

manifest_of-require_source :
    (e : ProducerLabelEvidence) (c : Capture)
    → manifest_of e (require_source c)
      ≡ manifest_with e
          (c.captured && not (no_records c.records))
          (unless_complete (c.captured && not (no_records c.records)) (
            reason_or c.why (
              if c.captured
              then "producer-label capture produced no source files"
              else "producer-label capture was incomplete")))
          c.records
unfolding manifest_of require_source refuse_source
manifest_of-require_source e c = elim (Bool-cases c.captured) [
  | inl k ↦ elim (Bool-cases (no_records c.records)) [
    | inl n ↦
        rw (k, n)
          (ap (λ r. manifest_with e false (some r) c.records)
            (reason_or-again c.why "producer-label capture produced no source files" _ refl))
    | inr n ↦ rw (k, n) refl
  ]
  | inr k ↦ rw k refl
]

module _ (f : Files) (root : String) (e : ProducerLabelEvidence) where
  abbrev started : Capture
  started = record { captured = e.complete; why = e.reason; records = [] }

  abbrev captured_sources : Capture
  captured_sources = add_sources f root e.sources started

  -- What makes a capture complete: the evidence says so, there are sources, and each of them is a file.
  abbrev pub is_captured : Bool
  is_captured = e.complete && all_sources f root e.sources && not (is_empty e.sources)

  captured_reason :
      reason_or captured_sources.why (
        if captured_sources.captured
        then "producer-label capture produced no source files"
        else "producer-label capture was incomplete")
      ≡ reason_for f root e
  captured_reason =
      let known = add_sources-captured f root e.sources started in
      add_sources-why f root e.sources started _
      ∙ elim (Bool-cases (all_sources f root e.sources)) [
        | inl a ↦
            let same : captured_sources.captured ≡ e.complete = ground (arith, known, a) in
            rw same refl
        | inr a ↦ ap (reason_or e.reason) (first_defect-found f root e.sources _ _ a)
      ]

  captured_complete :
      (captured_sources.captured && not (no_records captured_sources.records)) ≡ is_captured
  captured_complete =
      let known = add_sources-captured f root e.sources started in
      let listed = add_sources-records f root e.sources started in
      elim (Bool-cases (all_sources f root e.sources)) [
        | inl a ↦
            let kept = ap no_records listed ∙ no_records-sources f root e.sources a in
            ground (arith, known, a, kept)
        | inr a ↦ ground (arith, known, a)
      ]

  captured_manifest :
      manifest_of e (require_source captured_sources)
      ≡ manifest_with e is_captured
          (unless_complete is_captured (reason_for f root e))
          (map (record_of f root) (keep (is_source f root) e.sources))
  captured_manifest =
      manifest_of-require_source e captured_sources
      ∙ cc (captured_complete, captured_reason, add_sources-records f root e.sources started)

-- The manifest that evidence comes to: its entries, by the names that lead to files.
abbrev pub manifest_for : Files → String → ProducerLabelEvidence → ProducerLabelManifest
manifest_for f root e =
    manifest_with e (is_captured f root e)
      (unless_complete (is_captured f root e) (reason_for f root e))
      (map (record_of f root) (keep (is_source f root) e.sources))

-- The manifest lists the names of the evidence that lead to files below the data, in their order; it is
-- complete exactly when the evidence says so, names a source, and every name is one; and otherwise
-- it gives the reason of the evidence, else the first defect of a name, else what the capture lacks.
pub producer_label_manifest-eq :
    (f : Files) (data_path : String) (evidence : Option ProducerLabelEvidence)
    → producer_label_manifest f data_path evidence
      ≡ manifest_for f (f.realpath data_path) (or_default evidence unknown_evidence)
unfolding producer_label_manifest capture_sources
producer_label_manifest-eq f data_path evidence =
    captured_manifest f (f.realpath data_path) (or_default evidence unknown_evidence)
