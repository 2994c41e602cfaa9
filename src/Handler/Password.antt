-- ===== src/Handler/Password.antt =====
-- `verify_password`.
use sync_server.Base.{
  Bool, true, false, Option, none, some, [], ◌∷◌, ◌≡◌, refl, ap, beq_refl, Bytes, beq,
}
use sync_server.Exec.{Outcome, ok, err, fault}
use sync_server.Map.{Map, get}
use sync_server.Password.{hash_password}
use sync_server.Exec.Throws.{Only}
use sync_server.Handler.Quiet.{NotJson}
use sync_server.Handler.State.{UserInfo}

module _ (digest : Bytes → Option Bytes) where
  matches : Bytes → Option Bytes → Bool
  matches stored none = false
  matches stored (some hashed) = beq stored hashed

  -- A null password is read by `strlen`.
  verify_known : Option UserInfo → Option Bytes → Outcome Bool
  unfolding matches hash_password
  verify_known none pw = ok false
  verify_known (some info) none = err fault
  verify_known (some info) (some pw) =
      ok (matches info.user.account_password (hash_password digest pw))

  -- `count(user)` compares a null key with the keys that are there, if there are any.
  unfoldable pub verify_password : Map UserInfo → Option Bytes → Option Bytes → Outcome Bool
  unfolding verify_known
  verify_password [] none pw = ok false
  verify_password (entry ∷ infos) none pw = err fault
  verify_password infos (some user) pw = verify_known (get user infos) pw

  verify_password-some :
      (infos : Map UserInfo) (user : Bytes) (pw : Option Bytes)
      → verify_password infos (some user) pw ≡ verify_known (get user infos) pw
  unfolding verify_password
  verify_password-some [] user pw = refl
  verify_password-some (entry ∷ infos) user pw = refl

  -- A user that is in the map, under the hash of the password.
  pub verify_password-get :
      (infos : Map UserInfo) (user pw hash : Bytes) (info : UserInfo)
      → get user infos ≡ some info
      → hash_password digest pw ≡ some hash
      → info.user.account_password ≡ hash
      → verify_password infos (some user) (some pw) ≡ ok true
  unfolding verify_password
  verify_password-get infos user pw hash info known hashes stored =
      rw (verify_password-some infos user (some pw), known, verify_known)
        (rw hashes (ap ok (rw stored (beq_refl hash))))

  -- A user that is not in the map.
  pub verify_password_unknown :
      (infos : Map UserInfo) (user : Bytes) (pw : Option Bytes)
      → get user infos ≡ none
      → verify_password infos (some user) pw ≡ ok false
  unfolding verify_password
  verify_password_unknown infos user pw unknown =
      rw (verify_password-some infos user pw, unknown, verify_known)

  verify_known-Only : (o : Option UserInfo) (pw : Option Bytes) → Only NotJson (verify_known o pw)
  unfolding verify_known
  verify_known-Only none pw = tt
  verify_known-Only (some i) none = tt
  verify_known-Only (some i) (some pw) = tt

  -- It throws nothing that a caller could catch.
  pub verify_password-Only :
      (infos : Map UserInfo) (user pw : Option Bytes) → Only NotJson (verify_password infos user pw)
  unfolding verify_password
  verify_password-Only [] none pw = tt
  verify_password-Only (entry ∷ infos) none pw = tt
  verify_password-Only infos (some user) pw =
      rw (verify_password-some infos user pw) (verify_known-Only (get user infos) pw)
