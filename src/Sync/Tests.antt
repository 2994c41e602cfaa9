-- ===== src/Sync/Tests.antt =====
-- A client that has the newer version of one account and the older one of another.
use sync_server.Base.{◌≡◌, refl, false, [], ◌∷◌, Bytes, codes, ℤ, pos, beq}
use sync_server.Map.{Map, get}
use sync_server.Store.{Account}
use sync_server.Sync.Reconcile.{Request, Distinct}
use sync_server.Sync.Converge.{
  IsKeyed, client_after, server_after, reply_to, newest, time_in, time_of, sides_agree,
}

abbrev account : Bytes → ℤ → Account
account name time = record {
  account_name = name;
  account_uuid = codes "bob";
  user_name = codes "b";
  password = codes "x";
  old_password = codes "y";
  url = codes "u";
  update_time = time;
  deleted = false;
}

abbrev stored : Map Account
stored =
    (codes "bank", account (codes "bank") (pos 3))
    ∷ (codes "mail", account (codes "mail") (pos 9))
    ∷ (codes "shop", account (codes "shop") (pos 4))
    ∷ []

abbrev request : Request
request = (codes "mail", pos 5) ∷ (codes "bank", pos 7) ∷ []

request-Distinct : Distinct request
unfolding beq
request-Distinct = ((refl, tt), (tt, tt))

stored-IsKeyed : IsKeyed stored
stored-IsKeyed = (refl, (refl, (refl, tt)))

sides_agree_example :
    (client_after (codes "mail") request (reply_to (pos 10) request stored)
      ≡ newest (time_in (codes "mail") request) (time_of (get (codes "mail") stored)))
    × (server_after (codes "mail") request stored (reply_to (pos 10) request stored)
        ≡ newest (time_in (codes "mail") request) (time_of (get (codes "mail") stored)))
sides_agree_example =
    sides_agree (pos 10) request stored (codes "mail") request-Distinct stored-IsKeyed
