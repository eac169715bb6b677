-- ===== src/Labels/Sources.antt =====
-- What the loop over the sources keeps: their records, whether it is complete, and the first defect.
use Prim.Native.String.{count}
use text.Mathlib.TextLemmas.{length-append}
use coinjoin_emulator.Base.{
  ◌≡◌, refl, sym, ◌∙◌, ap, Bool, true, false, not, ◌&&◌, String, Option, none, some, List, [], ◌∷◌,
  ◌++◌, map, keep, append-nil, append_assoc, str_eq, eq_iff, if◌then◌else◌, Bool-cases, inl, inr,
  arith, or_default,
}
use coinjoin_emulator.Labels.{
  ManifestSource, Files, Capture, reason_or, refuse_source, is_inside, source_record, add_source,
  add_sources, no_records, missing_text,
}

-- A name that leads to a file below the data.
abbrev pub is_source : Files → String → String → Bool
is_source f root name = not (str_eq name "") && is_inside f root (f.realpath (f.join root name))

abbrev pub record_of : Files → String → String → ManifestSource
record_of f root name = source_record f root (f.realpath (f.join root name))

-- Whether every name is a source.
abbrev pub all_sources : Files → String → List String → Bool
all_sources f root [] = true
all_sources f root (n ∷ ns) = is_source f root n && all_sources f root ns

abbrev pub is_empty : List String → Bool
is_empty [] = true
is_empty (_ ∷ _) = false

module _ (f : Files) (root : String) where
  add_source-records :
      (n : String) (c : Capture)
      → (add_source f root n c).records
        ≡ c.records ++ map (record_of f root) (keep (is_source f root) (n ∷ []))
  unfolding add_source refuse_source
  add_source-records n c = elim (Bool-cases (str_eq n "")) [
    | inl e ↦ rw e (sym (append-nil c.records))
    | inr e ↦ elim (Bool-cases (is_inside f root (f.realpath (f.join root n)))) [
      | inl i ↦ rw (e, i) refl
      | inr i ↦ rw (e, i) (sym (append-nil c.records))
    ]
  ]

  add_source-captured :
      (n : String) (c : Capture)
      → (add_source f root n c).captured ≡ (c.captured && is_source f root n)
  unfolding add_source refuse_source
  add_source-captured n c = ground arith

  pub add_sources-records :
      (ns : List String) (c : Capture)
      → (add_sources f root ns c).records
        ≡ c.records ++ map (record_of f root) (keep (is_source f root) ns)
  unfolding add_sources
  add_sources-records [] c = sym (append-nil c.records)
  add_sources-records (n ∷ ns) c =
      let rest = add_sources-records ns (add_source f root n c) in
      let here = add_source-records n c in
      elim (Bool-cases (is_source f root n)) [
        | inl y ↦
            rest
            ∙ ap (λ rs. rs ++ map (record_of f root) (keep (is_source f root) ns)) here
            ∙ rw y (append_assoc c.records _ _)
        | inr y ↦
            rest
            ∙ ap (λ rs. rs ++ map (record_of f root) (keep (is_source f root) ns)) here
            ∙ rw y (
                ap (λ rs. rs ++ map (record_of f root) (keep (is_source f root) ns))
                  (append-nil c.records))
      ]

  pub add_sources-captured :
      (ns : List String) (c : Capture)
      → (add_sources f root ns c).captured ≡ (c.captured && all_sources f root ns)
  unfolding add_sources
  add_sources-captured [] c = ground arith
  add_sources-captured (n ∷ ns) c =
      ground (arith, add_sources-captured ns (add_source f root n c), add_source-captured n c)

  -- What is wrong with the first name that is no source.
  abbrev pub first_defect : List String → Option String
  first_defect [] = none
  first_defect (n ∷ ns) =
      if str_eq n ""
      then some "producer-label source path is invalid"
      else if is_inside f root (f.realpath (f.join root n))
      then first_defect ns
      else some (missing_text n)

missing_text-ne : (n : String) → str_eq (missing_text n) "" ≡ false
unfolding missing_text
missing_text-ne n = elim (Bool-cases (str_eq (missing_text n) "")) [
  | inl e ↦
      let empty = ap count ((eq_iff (missing_text n) "").0 e) in
      absurd (omega (arith, empty, length-append "producer-label source is missing: " n))
  | inr e ↦ e
]

-- A reason that is not empty stays.
pub reason_or-again :
    (r : Option String) (a b : String)
    → str_eq a "" ≡ false
    → reason_or (some (reason_or r a)) b ≡ reason_or r a
unfolding reason_or
reason_or-again none a b h = rw h refl
reason_or-again (some r) a b h = elim (Bool-cases (str_eq r "")) [
  | inl e ↦ rw (e, h) refl
  | inr e ↦ rw (e, e) refl
]

module _ (f : Files) (root : String) where
  add_source-why :
      (n : String) (c : Capture) (ns : List String) (d : String)
      → reason_or (add_source f root n c).why (or_default (first_defect f root ns) d)
        ≡ reason_or c.why (or_default (first_defect f root (n ∷ ns)) d)
  unfolding add_source refuse_source
  add_source-why n c ns d = elim (Bool-cases (str_eq n "")) [
    | inl e ↦ rw e (reason_or-again c.why "producer-label source path is invalid" _ refl)
    | inr e ↦ elim (Bool-cases (is_inside f root (f.realpath (f.join root n)))) [
      | inl i ↦ rw (e, i) refl
      | inr i ↦ rw (e, i) (reason_or-again c.why (missing_text n) _ (missing_text-ne n))
    ]
  ]

  pub add_sources-why :
      (ns : List String) (c : Capture) (d : String)
      → reason_or (add_sources f root ns c).why d
        ≡ reason_or c.why (or_default (first_defect f root ns) d)
  unfolding add_sources
  add_sources-why [] c d = refl
  add_sources-why (n ∷ ns) c d =
      add_sources-why ns (add_source f root n c) d ∙ add_source-why n c ns d

  -- A name that is no source is a defect.
  pub first_defect-found :
      (ns : List String) (a b : String)
      → all_sources f root ns ≡ false
      → or_default (first_defect f root ns) a ≡ or_default (first_defect f root ns) b
  first_defect-found [] a b h = cc h
  first_defect-found (n ∷ ns) a b h = elim (Bool-cases (str_eq n "")) [
    | inl e ↦ rw e refl
    | inr e ↦ elim (Bool-cases (is_inside f root (f.realpath (f.join root n)))) [
      | inl i ↦ rw (e, i) (first_defect-found ns a b (ground (arith, h, e, i)))
      | inr i ↦ rw (e, i) refl
    ]
  ]

  pub no_records-sources :
      (ns : List String)
      → all_sources f root ns ≡ true
      → no_records (map (record_of f root) (keep (is_source f root) ns)) ≡ is_empty ns
  unfolding no_records
  no_records-sources [] h = refl
  no_records-sources (n ∷ ns) h =
      let here : is_source f root n ≡ true = ground (arith, h) in rw here refl
