-- ===== src/Postgres/Fits/Rows.antt =====
-- The rows of the upsert, and the whole statement.
use mathlib.Core.List.{append_assoc, append-nil}
use sync_server.Base.{
  ℕ, ◌+◌, ◌*◌, ◌%◌, ◌^◌, ◌≤◌, ◌<◌, ◌≡◌, refl, ap, sym, ◌∙◌, Bool, true, false, Option, none, some,
  List, [], ◌∷◌, ◌++◌, Bytes, codes, length, length-append, arith, if◌then◌else◌,
}
use sync_server.Store.{Account}
use sync_server.Postgres.Sql.{
  upsert_account_prepare_1, upsert_account_prepare_2, Buffer, put, increase_buffer, row, texts,
  then_put, add_row, separate, add_rows, upsert_buffer,
}
use sync_server.Postgres.Fits.{
  rows_text, upsert_text, all_texts, length-row-le, put_lem, increase_buffer-HasRoom,
}

-- Room for a separator, and for `rest` bytes of accounts before anything wraps around.
record IsReady (rest : ℕ) (b : Buffer) : Type 0 where
  inside : length b.text + 3 ≤ b.sz
  least : 500 ≤ b.sz
  most : b.sz < 2 ^ 32
  small : 2 * (length b.text + 2 * rest) + 2000 < 2 ^ 32

-- A step that gives a buffer with this text added.
record Wrote (rest : ℕ) (s : Bytes) (b : Buffer) (r : Option Buffer) : Type 0 where
  buffer : Buffer
  given : r ≡ some buffer
  added : buffer.text ≡ b.text ++ s
  ready : IsReady rest buffer

comma_text : Bool → Bytes
comma_text first = if first then [] else codes ", "

add_row-Wrote :
    (user : Bytes) (a : Account) (b : Buffer) (rest : ℕ)
    → length user ≤ 34
    → length b.text < b.sz
    → 500 ≤ b.sz
    → b.sz < 2 ^ 32
    → 2 * (length b.text + 2 * (texts a + 70 + rest)) + 1996 < 2 ^ 32
    → Wrote rest (row user a) b (add_row user a b)
unfolding add_row
add_row-Wrote user a b rest short inside least most small =
    let needed : (texts a + 70) % 2 ^ 32 ≡ texts a + 70 = omega arith in
    let grown = increase_buffer-HasRoom (texts a + 70) b inside least most (omega arith) in
    let c = increase_buffer (texts a + 70) b in
    let len = length-row-le user a in
    let text_len = ap length grown.same in
    let all = length-append c.text (row user a) in
    record {
      buffer = record c { text = c.text ++ row user a };
      given = rw needed (put_lem (row user a) c (omega (arith, grown.enough)));
      added = ap (λ t. t ++ row user a) grown.same;
      ready = record {
        inside = omega (arith, grown.enough);
        least = omega (arith, grown.least);
        most = grown.most;
        small = omega arith;
      };
    }

separate-add_row :
    (user : Bytes) (first : Bool) (a : Account) (b : Buffer) (rest : ℕ)
    → length user ≤ 34
    → IsReady (texts a + 70 + rest) b
    → Wrote rest (comma_text first ++ row user a) b (then_put (separate first b) (add_row user a))
unfolding comma_text separate then_put
separate-add_row user true a b rest short h =
    add_row-Wrote user a b rest short (omega (arith, h.inside)) h.least h.most
      (omega (arith, h.small))
separate-add_row user false a b rest short h =
    let len = length-append b.text (codes ", ") in
    let b1 = record b { text = b.text ++ codes ", " } in
    let w =
      add_row-Wrote user a b1 rest short (omega (arith, h.inside)) h.least h.most
        (omega (arith, h.small)) in
    record {
      buffer = w.buffer;
      given = rw (put_lem (codes ", ") b (omega (arith, h.inside))) w.given;
      added = w.added ∙ append_assoc b.text (codes ", ") (row user a);
      ready = w.ready;
    }

then_put_assoc :
    (o : Option Buffer) (f g : Buffer → Option Buffer)
    → then_put (then_put o f) g ≡ then_put o (λ b. then_put (f b) g)
unfolding then_put
then_put_assoc none f g = refl
then_put_assoc (some b) f g = refl

length-all_texts : (accounts : List Account) → 70 * length accounts ≤ all_texts accounts
unfolding all_texts
length-all_texts [] = omega arith
length-all_texts (a ∷ accounts) = omega (arith, length-all_texts accounts)

add_rows-Wrote :
    (user : Bytes) (first : Bool) (accounts : List Account) (b : Buffer)
    → length user ≤ 34
    → IsReady (all_texts accounts) b
    → Wrote 0 (rows_text user first accounts) b (add_rows user first accounts b)
unfolding add_rows rows_text all_texts comma_text then_put
add_rows-Wrote user first [] b short h = record {
  buffer = b;
  given = refl;
  added = sym (append-nil b.text);
  ready = h;
}
add_rows-Wrote user first (a ∷ accounts) b short h =
    let one = separate-add_row user first a b (all_texts accounts) short h in
    let more = add_rows-Wrote user false accounts one.buffer short one.ready in
    record {
      buffer = more.buffer;
      given =
          sym (then_put_assoc (separate first b) (add_row user a) (add_rows user false accounts))
          ∙ ap (λ o. then_put o (add_rows user false accounts)) one.given
          ∙ more.given;
      added =
          more.added
          ∙ ap (λ t. t ++ rows_text user false accounts) one.added
          ∙ append_assoc b.text (comma_text first ++ row user a) (rows_text user false accounts);
      ready = more.ready;
    }

-- The rest of the statement.
finish_upsert : Buffer → Option Buffer
unfolding put increase_buffer
finish_upsert b = put upsert_account_prepare_2 (increase_buffer 300 b)

finish_upsert-Wrote :
    (b : Buffer)
    → IsReady 0 b
    → (c : Buffer) × (finish_upsert b ≡ some c) × (c.text ≡ b.text ++ upsert_account_prepare_2)
unfolding finish_upsert
finish_upsert-Wrote b r =
    let grown =
      increase_buffer-HasRoom 300 b (omega (arith, r.inside)) r.least r.most
        (omega (arith, r.small)) in
    let c = increase_buffer 300 b in
    (
      record c { text = c.text ++ upsert_account_prepare_2 },
      put_lem upsert_account_prepare_2 c (omega (arith, grown.enough)),
      ap (λ t. t ++ upsert_account_prepare_2) grown.same,
    )

-- If the user's name has no more than 34 bytes, and the accounts' texts together stay well below
-- 2 ^ 32, then no write goes past the end of the buffer, whatever the texts are, and the buffer
-- holds the statement that is meant: a row for each account, in order.
pub upsert_buffer-upsert_text :
    (user : Bytes) (accounts : List Account)
    → length user ≤ 34
    → 4 * all_texts accounts + 3000 < 2 ^ 32
    → (b : Buffer) × (upsert_buffer user accounts ≡ some b) × (b.text ≡ upsert_text user accounts)
unfolding upsert_buffer upsert_text then_put finish_upsert
upsert_buffer-upsert_text user accounts short small =
    let few = length-all_texts accounts in
    let b0 : Buffer = record { sz = (500 + 100 * length accounts) % 2 ^ 32; text = [] } in
    let b1 : Buffer = record b0 { text = upsert_account_prepare_1 } in
    let first = put_lem upsert_account_prepare_1 b0 (omega arith) in
    let rows = add_rows-Wrote user true accounts b1 short (record {
      inside = omega arith;
      least = omega arith;
      most = omega arith;
      small = omega arith;
    }) in
    let (c, given, added) = finish_upsert-Wrote rows.buffer rows.ready in
    (
      c,
      ap (λ o. then_put o (λ b. then_put (add_rows user true accounts b) finish_upsert)) first
          ∙ ap (λ o. then_put o finish_upsert) rows.given
          ∙ given,
      added ∙ ap (λ t. t ++ upsert_account_prepare_2) rows.added,
    )
