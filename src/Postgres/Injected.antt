-- ===== src/Postgres/Injected.antt =====
-- What the texts of accounts can do to the statement of `upsert_accounts_for_user`.
use mathlib.Core.List.{append_assoc}
use sync_server.Base.{
  ℕ, ◌+◌, ◌≤◌, ◌<◌, ◌≡◌, refl, false, none, some, [], ◌∷◌, ◌++◌, Bytes, codes, length, arith, ltb,
  ap, ◌%◌, ◌^◌, ◌-◌,
}
use sync_server.Base.Long.{print_long}
use sync_server.Store.{Account}
use sync_server.Postgres.Sql.{
  upsert_account_prepare_1, upsert_account_prepare_2, Buffer, put, increase_buffer, flag_text,
  comma, row, texts, then_put, add_row, separate, add_rows, upsert_buffer,
}
use sync_server.Postgres.Fits.{rows_text, upsert_text, length-row, free_room}

-- The account `a` with a text in its URL that ends the row and begins one for another user.
abbrev pub injected : Account → Bytes → Account → Account
injected a victim b = record a {
  url =
      a.url
      ++ codes "', "
      ++ print_long a.update_time
      ++ codes ", "
      ++ flag_text a.deleted
      ++ codes "), ('"
      ++ b.account_name
      ++ comma
      ++ victim
      ++ comma
      ++ b.user_name
      ++ comma
      ++ b.password
      ++ comma
      ++ b.old_password
      ++ comma
      ++ b.url;
  update_time = b.update_time;
  deleted = b.deleted;
}

-- Texts are copied without escaping. For each account of a user, and each account of any other
-- user, there is one account whose upsert by the first user is the statement that writes both.
pub upsert_text-injected :
    (user victim : Bytes) (a b : Account)
    → upsert_text user (injected a victim b ∷ [])
      ≡ upsert_account_prepare_1
        ++ row user a
        ++ codes ", "
        ++ row victim b
        ++ upsert_account_prepare_2
unfolding upsert_text rows_text row print_long
upsert_text-injected user victim a b = simp append_assoc refl

wide :
    (n sz t : ℕ)
    → n + 90 ≤ sz - t
    → sz < 2 ^ 32
    → t < sz
    → ltb ((sz + 2 ^ 32 - t) % 2 ^ 32) (((n + 70) % 2 ^ 32 + 20) % 2 ^ 32) ≡ false
wide n sz t asked most inside =
    let free = free_room sz t inside most in
    let needed : ((n + 70) % 2 ^ 32 + 20) % 2 ^ 32 ≡ n + 90 = omega arith in
    rw (free, needed) (ground arith)

not_below : {a b : ℕ} → b ≤ a → ltb a b ≡ false
not_below h = ground arith

unwritten :
    (user : Bytes) (a : Account) (b : Buffer)
    → texts a + 90 ≤ b.sz - length b.text
    → b.sz ≤ length b.text + length (row user a)
    → b.sz < 2 ^ 32
    → length b.text < b.sz
    → add_row user a b ≡ none
unfolding add_row put increase_buffer
unwritten user a b asked written most inside =
    rw (wide (texts a) b.sz (length b.text) asked most inside) (rw (not_below written) refl)

-- The length of the user's name is not part of what is asked of the buffer: with a name of more than
-- 36 bytes there are accounts for which the statement is written past its end.
pub upsert_buffer-none :
    (user : Bytes) (a : Account)
    → texts a + 90 ≤ 567
    → 567
      ≤ texts a
        + length user
        + 28
        + length (print_long a.update_time)
        + length (flag_text a.deleted)
    → upsert_buffer user (a ∷ []) ≡ none
unfolding upsert_buffer add_rows add_row separate then_put put increase_buffer
upsert_buffer-none user a asked written =
    let b : Buffer = record { sz = 600; text = upsert_account_prepare_1 } in
    ap
      (λ o.
        then_put (then_put o some) (λ b1. put upsert_account_prepare_2 (increase_buffer 300 b1)))
      (unwritten user a b asked (omega (arith, length-row user a)) (omega arith) (omega arith))
