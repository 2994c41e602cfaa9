-- ===== src/Exec.antt =====
-- Calls that change a state and may throw. What was written before a throw stays written, so the
-- state comes back beside the exception too.
pub mod Throws
use sync_server.Base.{Bool, Bytes, Option, none, some, if◌then◌else◌}
use sync_server.Http.{Status, close_con, build_default_reply, build_reply}

-- `reply` is a `register_server_exception` with its message, `text` a `const char *`, `json` a
-- `jsonP_exception`. `fault` is no exception: the C++ code has no defined behaviour from there on.
pub data Exn : Type 0 where
  reply : Bytes → Exn
  text : Bytes → Exn
  json fault : Exn

pub data Outcome {ℓ} (A : Type ℓ) : Type ℓ where
  ok : A → Outcome A
  err : Exn → Outcome A

abbrev pub Exec {ℓ} : Type ℓ → Type ℓ → Type ℓ
Exec S A = S → Outcome A × S

abbrev pub thrown : Option Bytes → Exn
thrown none = fault
thrown (some r) = reply r

-- `register_server_exception{configHttp.build_reply(status, close_con)}`
unfoldable pub http_error : Status → Exn
http_error status = thrown (build_default_reply status close_con)

-- ... with a message of its own
unfoldable pub http_error_with : Status → Bytes → Exn
http_error_with status msg = thrown (build_reply status close_con (some msg))

abbrev pub catch_with {ℓ} : {A : Type ℓ} → (Exn → Exn) → Outcome A → Outcome A
catch_with handler (ok a) = ok a
catch_with handler (err e) = err (handler e)

-- The bind of calls that change no state.
abbrev pub then_with {ℓ κ} : {A : Type ℓ} {B : Type κ} → Outcome A → (A → Outcome B) → Outcome B
then_with (ok a) f = f a
then_with (err e) f = err e

module _ {ℓ} {S A : Type ℓ} where
  abbrev pub pure : A → Exec S A
  pure a s = (ok a, s)

  abbrev pub raise : Exn → Exec S A
  raise e s = (err e, s)

  abbrev pub lift : Outcome A → Exec S A
  lift r s = (r, s)

  -- `try { m } catch …`, where each handler throws again
  abbrev pub try : Exec S A → (Exn → Exn) → Exec S A
  try m handler s = let (r, s') = m s in (catch_with handler r, s')

module _ {ℓ} {S : Type ℓ} where
  abbrev pub get_state : Exec S S
  get_state s = (ok s, s)

module _ {ℓ} {S A B : Type ℓ} where
  abbrev pub continue : Outcome A → (A → Exec S B) → Exec S B
  continue (ok a) f s = f a s
  continue (err e) f s = (err e, s)

  infixl 5 ◌>>=◌ ◌>>◌
  abbrev pub ◌>>=◌ : Exec S A → (A → Exec S B) → Exec S B
  ◌>>=◌ m f s = let (r, s') = m s in continue r f s'

  abbrev pub ◌>>◌ : Exec S A → Exec S B → Exec S B
  m >> n = m >>= λ _. n

-- `if (!b) throw e;`
abbrev pub require {ℓ} : {S : Type ℓ} → Bool → Exn → Exec S (Unit {ℓ})
require b e s = if b then (ok tt, s) else (err e, s)
