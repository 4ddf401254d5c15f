-- ===== src/Secp256k1/Points/Tests.antt =====
-- Runs of pointMultiply in ecdsa.c.
