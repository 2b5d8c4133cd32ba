-- ===== src/ClaimSet/Sync/Lists.antt =====
-- What listOwnedClaims makes of the listed claims.
