-- ===== src/Examples/Accepting.antt =====
-- A run of the accept thread of a new server.
