-- ===== src/Base/Outcome.antt =====
-- What a call that may raise returns: a value, or the error that was raised.
use mathlib.Core.Path.{◌≡◌, refl}
use mathlib.Core.Bool.{Bool, true, false}

pub data Result (E A : Type 0) : Type 0 where
  ok : A → Result E A
  err : E → Result E A

-- Goes on with the value; an error is passed on.
abbrev pub bind : {E A B : Type 0} → (A → Result E B) → Result E A → Result E B
bind next (err e) = err e
bind next (ok value) = next value

infixl 5 ◌>>=◌
abbrev pub ◌>>=◌ : {E A B : Type 0} → Result E A → (A → Result E B) → Result E B
call >>= next = bind next call

-- Whether the call returned.
abbrev pub is_ok : {E A : Type 0} → Result E A → Bool
is_ok (err _) = false
is_ok (ok _) = true

-- Calls in sequence return only if each of them does.
pub bind-eq-ok :
    {E A B : Type 0} {b : B} (next : A → Result E B) (call : Result E A)
    → bind next call ≡ ok b
    → (value : A) × (call ≡ ok value) × (next value ≡ ok b)
bind-eq-ok next (err e) returned = cc
bind-eq-ok next (ok value) returned = (value, refl, returned)

pub ok-inj : {E A : Type 0} {x y : A} → ◌≡◌ {A = Result E A} (ok x) (ok y) → x ≡ y
ok-inj h = cc h

pub err-inj : {E A : Type 0} {x y : E} → ◌≡◌ {A = Result E A} (err x) (err y) → x ≡ y
err-inj h = cc h
