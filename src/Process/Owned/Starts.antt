-- ===== src/Process/Owned/Starts.antt =====
-- The starts of the worker and of the reconciler, call by call.
use config_srl.Process.Handles.{Owned}
