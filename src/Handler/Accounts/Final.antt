-- ===== src/Handler/Accounts/Final.antt =====
-- A final synchronisation that is answered as complete.
use sync_server.Base.{◌≡◌, ◌≢◌, refl, Bool, true, false, List, Bytes, ℤ, ap, sym, ◌∙◌}
use sync_server.Exec.{Outcome, Exn, ok, err, http_error}
use sync_server.Http.{http_500}
use sync_server.Store.{Account}
use sync_server.Handler.State.{State, Server}
use sync_server.Handler.Accounts.{
  Sent, accounts_of, read_final, store_accounts, handle_sync_final, sync_final_resp,
}

err-ne-ok : {x : Exn} {m : Bytes} → err x ≢ ok m
err-ne-ok h = cc

ok_inj : {m n : Bytes} → ok m ≡ ok n → n ≡ m
ok_inj h = cc

module _ {S : Type 0} (sv : Server S) where
  -- What the two calls of the store make of the request.
  abbrev pub StoredAndRecorded : ℤ → Bytes → List Account → State S → State S → Type 0
  StoredAndRecorded now email accounts s s' =
      (t : S) × (sv.data_store.upsert_accounts_for_user email accounts s.store ≡ (ok true, t))
      × (sv.data_store.update_last_sync_for_user email now t ≡ (ok true, s'.store))
      × (s'.user_infos ≡ s.user_infos)

  abbrev recorded : State S → Outcome Bool × S → Outcome Bytes × State S
  recorded s (ok true, u) = (ok sync_final_resp, record s { store = u })
  recorded s (ok false, u) = (err (http_error http_500), record s { store = u })
  recorded s (err e, u) = (err e, record s { store = u })

  abbrev stored : ℤ → Bytes → State S → Outcome Bool × S → Outcome Bytes × State S
  stored now email s (ok true, t) = recorded s (sv.data_store.update_last_sync_for_user email now t)
  stored now email s (ok false, t) = (err (http_error http_500), record s { store = t })
  stored now email s (err e, t) = (err e, record s { store = t })

  pub recorded-eq :
      (now : ℤ) (email : Bytes) (accounts : List Account) (s : State S) (t : S)
      → sv.data_store.upsert_accounts_for_user email accounts s.store ≡ (ok true, t)
      → (q : Outcome Bool) (u : S) → sv.data_store.update_last_sync_for_user email now t ≡ (q, u)
      → store_accounts sv now email accounts s ≡ recorded s (q, u)
  unfolding store_accounts
  recorded-eq now email accounts s t e (ok true) u f = rw (e, store_accounts) (rw f)
  recorded-eq now email accounts s t e (ok false) u f = rw (e, store_accounts) (rw f)
  recorded-eq now email accounts s t e (err x) u f = rw (e, store_accounts) (rw f)

  -- The answers of the store, one after the other.
  pub store_accounts-eq :
      (now : ℤ) (email : Bytes) (accounts : List Account) (s : State S) (r : Outcome Bool) (t : S)
      → sv.data_store.upsert_accounts_for_user email accounts s.store ≡ (r, t)
      → store_accounts sv now email accounts s ≡ stored now email s (r, t)
  unfolding store_accounts
  store_accounts-eq now email accounts s (ok true) t e =
      recorded-eq now email accounts s t e _ _ refl
  store_accounts-eq now email accounts s (ok false) t e = rw (e, store_accounts)
  store_accounts-eq now email accounts s (err x) t e = rw (e, store_accounts)

  recorded_ok :
      (s s' : State S) (q : Outcome Bool) (u : S) (m : Bytes)
      → recorded s (q, u) ≡ (ok m, s')
      → (m ≡ sync_final_resp) × (q ≡ ok true) × (u ≡ s'.store) × (s'.user_infos ≡ s.user_infos)
  recorded_ok s s' (ok true) u m h =
      (ok_inj (ap (λ p. p.0) h), refl, ap (λ p. p.1.store) h, ap (λ p. p.1.user_infos) (sym h))
  recorded_ok s s' (ok false) u m h = absurd (err-ne-ok (ap (λ p. p.0) h))
  recorded_ok s s' (err x) u m h = absurd (err-ne-ok (ap (λ p. p.0) h))

  stored_ok :
      (now : ℤ) (email : Bytes) (accounts : List Account) (s s' : State S) (r : Outcome Bool)
      (t : S) (m : Bytes)
      → sv.data_store.upsert_accounts_for_user email accounts s.store ≡ (r, t)
      → stored now email s (r, t) ≡ (ok m, s')
      → (m ≡ sync_final_resp) × StoredAndRecorded now email accounts s s'
  stored_ok now email accounts s s' (ok true) t m e h =
      let (a, b, c, d) = recorded_ok s s' _ _ m h in (a, (t, e, λ i. (b i, c i), d))
  stored_ok now email accounts s s' (ok false) t m e h = absurd (err-ne-ok (ap (λ p. p.0) h))
  stored_ok now email accounts s s' (err x) t m e h = absurd (err-ne-ok (ap (λ p. p.0) h))

  pub to_store_accounts :
      (now : ℤ) (request email : Bytes) (sent : List Sent) (accounts : List Account) (s : State S)
      → read_final sv request s ≡ (ok (email, sent), s)
      → accounts_of email sent ≡ ok accounts
      → handle_sync_final sv now request s ≡ store_accounts sv now email accounts s
  unfolding handle_sync_final
  to_store_accounts now request email sent accounts s r a = rw (r, handle_sync_final) (rw a)

  -- An answer that the synchronisation is complete means that the store took every account of the
  -- request, and after that the time; nothing else is ever answered but an exception.
  pub handle_sync_final_ok :
      (now : ℤ) (request email : Bytes) (sent : List Sent) (accounts : List Account)
      (s s' : State S) (m : Bytes)
      → read_final sv request s ≡ (ok (email, sent), s)
      → accounts_of email sent ≡ ok accounts
      → handle_sync_final sv now request s ≡ (ok m, s')
      → (m ≡ sync_final_resp) × StoredAndRecorded now email accounts s s'
  handle_sync_final_ok now request email sent accounts s s' m r a h =
      stored_ok now email accounts s s' _ _ m refl (
        sym (store_accounts-eq now email accounts s _ _ refl)
        ∙ sym (to_store_accounts now request email sent accounts s r a)
        ∙ h)
