-- ===== src/Auth/Tokens/Tests.antt =====
-- Tokens and secrets at concrete inputs.
