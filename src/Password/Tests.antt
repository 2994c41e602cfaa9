-- ===== src/Password/Tests.antt =====
-- Hashes at a concrete digest: the password itself, cut off in no way.
use sync_server.Base.{◌≡◌, refl, [], ◌∷◌, codes}
use sync_server.Password.{hex_encode}

encodes : hex_encode (0 ∷ 0x1f ∷ 0xa0 ∷ []) ≡ codes "001fa0"
unfolding hex_encode
encodes = refl
