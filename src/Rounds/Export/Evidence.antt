-- ===== src/Rounds/Export/Evidence.antt =====
-- When the evidence calls the labels complete, and how many transactions it attributes.
use coinjoin_emulator.Base.{
  ℕ, ◌+◌, ◌≡◌, refl, ◌∙◌, ap, Bool, true, false, not, ◌&&◌, String, Option, none, some, List, [],
  ◌∷◌, ◌++◌, if◌then◌else◌, any, keep, length, arith, ◌≤◌, count_if, is_some,
}
use coinjoin_emulator.Rounds.{
  Status, RoundEvent, destination_address, is_status, confirmed_destination_txid,
}
use coinjoin_emulator.Rounds.Export.{
  IncompleteReason, is_none, reason_if, round_ids, add_txid, positive_txids, incomplete_reasons,
  no_reasons, producer_label_evidence,
}

-- A label that names its transaction or none, without doubt: it has a destination, and neither
-- another round nor another transaction has it.
abbrev pub is_unambiguous : RoundEvent → Bool
is_unambiguous e =
    not (is_none (destination_address e))
    && (not (is_status e.status Status.duplicate_destination)
        && not (is_status e.status Status.multiple_matches))

abbrev is_nil : {A : Type 0} → List A → Bool
is_nil [] = true
is_nil (_ ∷ _) = false

no_reasons-append :
    (xs ys : List IncompleteReason) → no_reasons (xs ++ ys) ≡ (no_reasons xs && no_reasons ys)
unfolding no_reasons
no_reasons-append [] ys = refl
no_reasons-append (x ∷ xs) ys = refl

no_reasons-reason_if :
    {A : Type 0} (why : List A → IncompleteReason) (xs : List A)
    → no_reasons (reason_if why xs) ≡ is_nil xs
unfolding no_reasons reason_if
no_reasons-reason_if why [] = refl
no_reasons-reason_if why (x ∷ xs) = refl

is_nil-keep :
    (p : RoundEvent → Bool) (es : List RoundEvent) → is_nil (round_ids (keep p es)) ≡ not (any p es)
is_nil-keep p [] = refl
is_nil-keep p (e ∷ es) = ground (arith, is_nil-keep p es)

-- Every element passes.
abbrev pub every : (RoundEvent → Bool) → List RoundEvent → Bool
every p [] = true
every p (e ∷ es) = p e && every p es

none-doubtful :
    (es : List RoundEvent)
    → (not (any (λ e. is_none (destination_address e)) es)
        && (not (any (λ e. is_status e.status Status.duplicate_destination) es)
            && not (any (λ e. is_status e.status Status.multiple_matches) es)))
      ≡ every is_unambiguous es
none-doubtful [] = refl
none-doubtful (e ∷ es) = ground (arith, none-doubtful es)

four_reasons :
    (a b c d : List IncompleteReason) (p q r s : Bool)
    → no_reasons a ≡ p
    → no_reasons b ≡ q
    → no_reasons c ≡ r
    → no_reasons d ≡ s
    → no_reasons (a ++ b ++ c ++ d) ≡ (p && (q && (r && s)))
four_reasons a b c d p q r s ha hb hc hd = ground (
  arith,
  no_reasons-append (a ++ b ++ c) d,
  no_reasons-append (a ++ b) c,
  no_reasons-append a b,
  ha,
  hb,
  hc,
  hd,
)

-- A reason for the rounds that a test finds.
reason-keep :
    (why : List ℕ → IncompleteReason) (p : RoundEvent → Bool) (es : List RoundEvent)
    → no_reasons (reason_if why (round_ids (keep p es))) ≡ not (any p es)
reason-keep why p es = no_reasons-reason_if why (round_ids (keep p es)) ∙ is_nil-keep p es

-- The labels are complete exactly if there is no taker without labels and every label is unambiguous.
pub producer_label_evidence-complete :
    (labels : List RoundEvent) (takers : List String)
    → (producer_label_evidence labels takers).complete
      ≡ (is_nil takers && every is_unambiguous labels)
unfolding producer_label_evidence incomplete_reasons
producer_label_evidence-complete labels takers =
    four_reasons _ _ _ _ _ _ _ _ (no_reasons-reason_if IncompleteReason.unlabelled_takers takers)
      (reason-keep IncompleteReason.no_destination (λ e. is_none (destination_address e)) labels)
      (reason-keep IncompleteReason.shared_destination
        (λ e. is_status e.status Status.duplicate_destination) labels)
      (reason-keep IncompleteReason.several_transactions
        (λ e. is_status e.status Status.multiple_matches) labels)
    ∙ ap (λ z. is_nil takers && z) (none-doubtful labels)

attributed-add :
    (o : Option String) (ts : List String) (n : ℕ)
    → length ts ≤ n
    → length (add_txid o ts) ≤ (if is_some o then 1 else 0) + n
unfolding add_txid
attributed-add none ts n h = omega arith
attributed-add (some t) ts n h = ground (arith, h)

-- No more transactions are attributed than there are rounds with one of their own.
pub producer_label_evidence-le :
    (labels : List RoundEvent) (takers : List String)
    → (producer_label_evidence labels takers).positive_count
      ≤ count_if (λ e. is_some (confirmed_destination_txid e)) labels
unfolding producer_label_evidence positive_txids
producer_label_evidence-le labels takers = go labels
  where
    go :
        (es : List RoundEvent)
        → length (positive_txids es) ≤ count_if (λ e. is_some (confirmed_destination_txid e)) es
    go [] = omega arith
    go (e ∷ es) = attributed-add (confirmed_destination_txid e) (positive_txids es) _ (go es)
