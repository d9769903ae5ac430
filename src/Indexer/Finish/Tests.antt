-- ===== src/Indexer/Finish/Tests.antt =====
-- A task over an empty memory store whose walk finds nothing.
