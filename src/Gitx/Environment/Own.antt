-- ===== src/Gitx/Environment/Own.antt =====
-- Which entries git is started with.
use persona.Gitx.Environment
