-- ===== src/Service/Serving/Refused.antt =====
-- A request that is not admitted.
use pass_ctrl.Prelude.{List}
use pass_ctrl.Pipeline.State.{AgentResult, State}
use pass_ctrl.Runtime.Engine.{TemplateEngine}
use pass_ctrl.Runtime.Admission.{Network, AdmissionAgent}
use pass_ctrl.Runtime.Admission.Proxy.{Visit}
use pass_ctrl.Runtime.Admission.Execute.{execute_admission}
use pass_ctrl.Service.Serving.{Agent, Clock, execute_server}

module _ {W Addr Prefix : Type 0} (clock : Clock W) (net : Network Addr Prefix)
    (engine : TemplateEngine) (agent : AdmissionAgent Prefix) (rest : List (Agent W)) where
  -- The visit as the server agent leaves it.
  abbrev pub reached : Visit → W → Visit
  reached v w = record v { state = (execute_server (clock w).0 v.state).1 }

  -- The admission as the second agent, with the second reading of the clock.
  abbrev pub admitted : Visit → W → AgentResult × Visit
  admitted v w = execute_admission net engine agent (clock (clock w).1).0 (reached v w)
