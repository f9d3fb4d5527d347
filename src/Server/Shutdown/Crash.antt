-- ===== src/Server/Shutdown/Crash.antt =====
-- What becomes of the process of backend/cmd/server/main.go where `time.NewTicker` panics in a loop.
use maelstromhub.Config.{Config}
