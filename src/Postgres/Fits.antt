-- ===== src/Postgres/Fits.antt =====
-- When the buffer of `upsert_accounts_for_user` is large enough.
pub mod Rows
use mathlib.Core.List.{append_assoc, append-nil}
use sync_server.Base.{
  ℕ, suc, ◌+◌, ◌*◌, ◌/◌, ◌%◌, ◌^◌, ◌≤◌, ◌<◌, ◌≡◌, refl, ap, sym, ◌∙◌, Bool, true, false, Option,
  none, some, List, [], ◌∷◌, ◌++◌, Bytes, codes, ltb, lt→ltb, Bool-cases, inl, inr, ◌-◌, length,
  length-append, arith, ℤ, pos, negsuc, if◌then◌else◌,
}
use sync_server.Base.Decimal.{length-digits-le}
use sync_server.Base.Long.{print_long}
use sync_server.Store.{Account}
use sync_server.Postgres.Sql.{
  upsert_account_prepare_1, upsert_account_prepare_2, Buffer, put, increase_buffer, flag_text, row,
  texts, then_put, add_row, separate, add_rows, upsert_buffer,
}

-- The rows and their separators.
unfoldable pub rows_text : Bytes → Bool → List Account → Bytes
rows_text user first [] = []
rows_text user first (a ∷ accounts) =
    (if first then [] else codes ", ") ++ row user a ++ rows_text user false accounts

-- The statement that is meant.
unfoldable pub upsert_text : Bytes → List Account → Bytes
unfolding rows_text
upsert_text user accounts =
    upsert_account_prepare_1 ++ rows_text user true accounts ++ upsert_account_prepare_2

unfoldable pub all_texts : List Account → ℕ
unfolding texts
all_texts [] = 0
all_texts (a ∷ accounts) = texts a + 70 + all_texts accounts

length-print_long-le : (z : ℤ) → length (print_long z) ≤ 20
unfolding print_long
length-print_long-le (pos n) = omega (arith, length-digits-le 19 n)
length-print_long-le (negsuc n) = omega (arith, length-digits-le 19 (suc n))

length-flag_text-le : (b : Bool) → length (flag_text b) ≤ 5
length-flag_text-le true = omega arith
length-flag_text-le false = omega arith

pub length-row :
    (user : Bytes) (a : Account)
    → length (row user a)
      ≡ texts a
        + length user
        + 28
        + length (print_long a.update_time)
        + length (flag_text a.deleted)
unfolding row texts
length-row user a = simp length-append (omega arith)

length-row-le : (user : Bytes) (a : Account) → length (row user a) ≤ texts a + length user + 53
length-row-le user a =
    omega
      (arith, length-row user a, length-print_long-le a.update_time, length-flag_text-le a.deleted)

pub put_lem :
    (s : Bytes) (b : Buffer)
    → length b.text + length s < b.sz
    → put s b ≡ some (record b { text = b.text ++ s })
unfolding put
put_lem s b room = rw (lt→ltb _ _ room) refl

-- The room that a buffer has when it has been increased, while nothing wraps around.
record HasRoom (needed : ℕ) (b c : Buffer) : Type 0 where
  same : c.text ≡ b.text
  enough : (length c.text + needed + 20 ≤ c.sz)
  least : b.sz ≤ c.sz
  most : (c.sz < 2 ^ 32)

pub free_room : (sz t : ℕ) → t < sz → sz < 2 ^ 32 → (sz + 2 ^ 32 - t) % 2 ^ 32 ≡ sz - t
free_room sz t inside most = omega arith

grown_room :
    (needed sz t : ℕ)
    → sz < t + needed + 20
    → 2 * (t + 2 * needed) + 100 < 2 ^ 32
    → t < sz
    → 500 ≤ sz
    → let grown = (needed + sz * 5 / 4) % 2 ^ 32 in
      (t + needed + 20 ≤ (grown + grown % 8) % 2 ^ 32) × (sz ≤ (grown + grown % 8) % 2 ^ 32)
grown_room needed sz t short small inside least =
    let whole : (needed + sz * 5 / 4) % 2 ^ 32 ≡ needed + sz * 5 / 4 = omega arith in
    rw whole (omega arith, omega arith)

increase_buffer-HasRoom :
    (needed : ℕ) (b : Buffer)
    → length b.text < b.sz
    → 500 ≤ b.sz
    → b.sz < 2 ^ 32
    → 2 * (length b.text + 2 * needed) + 100 < 2 ^ 32
    → HasRoom needed b (increase_buffer needed b)
unfolding increase_buffer
increase_buffer-HasRoom needed b inside least most small =
    elim (Bool-cases (ltb ((b.sz + 2 ^ 32 - length b.text) % 2 ^ 32) ((needed + 20) % 2 ^ 32))) [
      | inl short ↦
          let free = free_room b.sz (length b.text) inside most in
          let (enough, more) =
            grown_room needed b.sz (length b.text) (ground arith) small inside least in
          rw short (record { same = refl; enough = enough; least = more; most = omega arith })
      | inr wide ↦
          let free = free_room b.sz (length b.text) inside most in
          rw wide (record { same = refl; enough = ground arith; least = omega arith; most = most })
    ]
