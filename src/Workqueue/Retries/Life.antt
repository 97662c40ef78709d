-- ===== src/Workqueue/Retries/Life.antt =====
-- All the attempts on a failing key, over workqueue/dispatcher/dispatcher.go and
-- workqueue/inmem/inmem.go.
