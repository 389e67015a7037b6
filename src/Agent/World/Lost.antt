-- ===== src/Agent/World/Lost.antt =====
-- A deletion that is cancelled while it waits for the lock on the state (`WorkloadOperation::Delete`
-- of `command`, podmesh-agent/src/service.rs).
use podmesh.Map.{get}
use podmesh.Agent.Deploy.{DeleteAnswers}
use podmesh.Agent.State.{Config, StoredWorkload}
use podmesh.Agent.Admission.{Env}
use podmesh.Agent.Deploy.Waits.{end_delete}
use podmesh.Prelude.{string_eq, none, String}
use podmesh.Agent.World.{get, World, DeleteAnswers, StoredWorkload, Config, Env, end_delete, settle}

unfoldable pub cut_deletion : String → StoredWorkload → DeleteAnswers → World → World
unfolding settle
cut_deletion id w a s =
    settle id none (record s.service { store = (end_delete w a s.service).store }) s
