-- ===== src/Funding/Prepared.antt =====
-- The prepared invoices are worth what the scenario's funds are.
use mathlib.Core.List.{Perm}
use coinjoin_emulator.Base.{
  ℕ, ◌+◌, ◌≡◌, refl, ◌∙◌, ap, sym, String, List, [], ◌∷◌, map, Result, ok, err, arith,
}
use coinjoin_emulator.Base.Sums.{sum, sum-append, sum-perm}
use coinjoin_emulator.PostmixSpends.{Call, then_call}
use coinjoin_emulator.Funding.{
  Invoice, Due, Invoices, Fund, fund_value, fund_due, add_invoice, invoice_client, invoice_clients,
  prepare_invoices,
}

-- The value of all invoices.
abbrev pub worth : Invoices → ℕ
worth [] = 0
worth ((d, xs) ∷ g) = sum (λ i. i.1) xs + worth g

-- The funds of all clients.
abbrev pub all_funds : {W : Type 0} → List (Call W String × List Fund) → ℕ
all_funds [] = 0
all_funds ((a, fs) ∷ cs) = sum fund_value fs + all_funds cs

worth-add_invoice :
    (d : Due) (x : Invoice) (g : Invoices) → worth (add_invoice d x g) ≡ worth g + x.1
unfolding add_invoice
worth-add_invoice d x [] = omega arith
worth-add_invoice d x ((e, xs) ∷ g) =
    ground (arith, sum-append (λ (i : Invoice). i.1) xs (x ∷ []), worth-add_invoice d x g)

worth-shuffled :
    (shuffle : List Invoice → List Invoice) (g : Invoices)
    → ((xs : List Invoice) → Perm (shuffle xs) xs)
    → worth (map (λ e. (e.0, shuffle e.1)) g) ≡ worth g
worth-shuffled shuffle [] p = refl
worth-shuffled shuffle ((d, xs) ∷ g) p =
    omega (arith, sum-perm (λ (i : Invoice). i.1) (p xs), worth-shuffled shuffle g p)

module _ {W : Type 0} where
  -- A sequence of two calls returns only if both do.
  then-inv :
      {A B : Type 0} (r : Result String A × W) (next : A → Call W B) (b : B)
      → (then_call r next).0 ≡ ok b
      → (a : A) × (v : W) × (r ≡ (ok a, v)) × ((next a v).0 ≡ ok b)
  then-inv (ok a, v) next b h = (a, v, refl, h)
  then-inv (err e, v) next b h = absurd (cc h)

  worth-client :
      (new : Call W String) (fs : List Fund) (g h : Invoices) (w : W)
      → (invoice_client new fs g w).0 ≡ ok h
      → worth h ≡ worth g + sum fund_value fs
  unfolding invoice_client
  worth-client new [] g h w e = let same : g ≡ h = cc e in (ap worth (sym same) ∙ omega arith)
  worth-client new (f ∷ fs) g h w e =
      let (to, v, called, rest) = then-inv (new w) _ h e in
      omega (
        arith,
        worth-client new fs (add_invoice (fund_due f) (to, fund_value f) g) h v rest,
        worth-add_invoice (fund_due f) (to, fund_value f) g,
      )

  worth-clients :
      (cs : List (Call W String × List Fund)) (g h : Invoices) (w : W)
      → (invoice_clients cs g w).0 ≡ ok h
      → worth h ≡ worth g + all_funds cs
  unfolding invoice_clients
  worth-clients [] g h w e = let same : g ≡ h = cc e in (ap worth (sym same) ∙ omega arith)
  worth-clients ((new, fs) ∷ cs) g h w e =
      let (k, v, called, rest) = then-inv (invoice_client new fs g w) _ h e in
      omega (arith, worth-client new fs g k w (ap (λ r. r.0) called), worth-clients cs k h v rest)

  -- If every client gives its addresses, the invoices are worth, over what was scheduled before, the
  -- funds of all clients, however they are spread over times and shuffled.
  pub prepare_invoices-worth :
      (shuffle : List Invoice → List Invoice) (cs : List (Call W String × List Fund))
      (g h : Invoices) (w : W)
      → ((xs : List Invoice) → Perm (shuffle xs) xs)
      → (prepare_invoices shuffle cs g w).0 ≡ ok h
      → worth h ≡ worth g + all_funds cs
  unfolding prepare_invoices
  prepare_invoices-worth shuffle cs g h w p e =
      let (k, v, called, rest) = then-inv (invoice_clients cs g w) _ h e in
      let same : map (λ e. (e.0, shuffle e.1)) k ≡ h = cc rest in
      ap worth (sym same)
      ∙ worth-shuffled shuffle k p
      ∙ worth-clients cs g k w (ap (λ r. r.0) called)
