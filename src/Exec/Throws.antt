-- ===== src/Exec/Throws.antt =====
-- What a call may throw, one rule for each way to build a call.
use sync_server.Base.{Bool, true, false, if◌then◌else◌}
use sync_server.Exec.{
  Outcome, ok, err, Exn, Exec, pure, raise, lift, catch_with, try, continue, ◌>>=◌, require,
}

abbrev pub Only {ℓ} : {A : Type ℓ} → (Exn → Type 0) → Outcome A → Type 0
Only P (ok a) = Unit {0}
Only P (err e) = P e

-- From any state, `m` returns or throws an exception of `P`.
pub record Throws {ℓ} {S A : Type ℓ} (P : Exn → Type 0) (m : Exec S A) : Type ℓ where
  pub at : (s : S) → Only P (m s).0

module _ {ℓ} {S A : Type ℓ} {P : Exn → Type 0} where
  pub Throws-pure : (a : A) → Throws P (pure {S = S} a)
  Throws-pure a = record { at = λ s. tt }

  pub Throws-raise : (e : Exn) → P e → Throws P (raise {S = S} {A = A} e)
  Throws-raise e h = record { at = λ s. h }

  pub Throws-lift : (r : Outcome A) → Only P r → Throws P (lift {S = S} r)
  Throws-lift r h = record { at = λ s. h }

  pub Throws-if :
      (b : Bool) (m n : Exec S A) → Throws P m → Throws P n → Throws P (if b then m else n)
  Throws-if true m n hm hn = hm
  Throws-if false m n hm hn = hn

Only-catch {ℓ} :
    {A : Type ℓ} (P Q : Exn → Type 0) (h : Exn → Exn) (r : Outcome A)
    → ((e : Exn) → P e → Q (h e))
    → Only P r
    → Only Q (catch_with h r)
Only-catch P Q h (ok a) f o = tt
Only-catch P Q h (err e) f o = f e o

module _ {ℓ} {S A : Type ℓ} {P Q : Exn → Type 0} where
  pub Throws-try :
      (m : Exec S A) (h : Exn → Exn) → ((e : Exn) → P e → Q (h e)) → Throws P m → Throws Q (try m h)
  Throws-try m h f t = record { at = λ s. Only-catch P Q h (m s).0 f (t.at s) }

Only-all {ℓ} : {A : Type ℓ} (r : Outcome A) → Only (λ _. Unit {0}) r
Only-all (ok a) = tt
Only-all (err e) = tt

-- Any call throws some exception, if any.
pub Throws-all {ℓ} : {S A : Type ℓ} (m : Exec S A) → Throws (λ _. Unit {0}) m
Throws-all m = record { at = λ s. Only-all (m s).0 }

module _ {ℓ} {S A B : Type ℓ} {P : Exn → Type 0} where
  Only-continue :
      (r : Outcome A) (f : A → Exec S B) (s : S)
      → Only P r
      → ((a : A) → Throws P (f a))
      → Only P (continue r f s).0
  Only-continue (ok a) f s h t = (t a).at s
  Only-continue (err e) f s h t = h

  pub Throws-bind :
      (m : Exec S A) (f : A → Exec S B)
      → Throws P m
      → ((a : A) → Throws P (f a))
      → Throws P (m >>= f)
  Throws-bind m f hm hf = record { at = λ s. Only-continue (m s).0 f (m s).1 (hm.at s) hf }

pub Throws-require {ℓ} :
    {S : Type ℓ} {P : Exn → Type 0} (b : Bool) (e : Exn) → P e → Throws P (require {S = S} b e)
Throws-require true e h = record { at = λ s. tt }
Throws-require false e h = record { at = λ s. h }

pub ruleset throws_rules =
    (Throws-pure, Throws-raise, Throws-lift, Throws-if, Throws-bind, Throws-require)
