-- ===== src/Tests/Agents.antt =====
-- Resource agents: pkg/reactor/resourceagent_test.go.
use mathlib.Core.List.{Perm}
use mathlib.Core.List.Perm
use linstor_gateway.Base.{◌≡◌, refl, [], ◌∷◌}
use linstor_gateway.Base.Outcome.{ok}
use linstor_gateway.Base.Text.{Text, Dict, codes, eq}
use linstor_gateway.Reactor.Agent.{ResourceAgent, marshal_agent, unmarshal_agent, fresh_agent}
use linstor_gateway.Reactor.Agent.Order.{marshal_agent-perm}
use linstor_gateway.Reactor.Agent.Writable.{IsWritable}
use linstor_gateway.Reactor.Agent.RoundTrip.{unmarshal_agent-marshal_agent}
use linstor_gateway.Tests.Env.{toy, toy-ShellLaws}

abbrev agent : ResourceAgent
agent = record {
  type = codes "ocf:heartbeat:IPaddr2";
  name = codes "service_ip0";
  attributes = (codes "ip", codes "10.0.0.1") ∷ (codes "cidr_netmask", codes "16") ∷ [];
}

abbrev swapped : Dict Text
swapped = (codes "cidr_netmask", codes "16") ∷ (codes "ip", codes "10.0.0.1") ∷ []

marshal_agent-perm_example :
    marshal_agent toy (record agent { attributes = swapped }) ≡ marshal_agent toy agent
marshal_agent-perm_example =
    marshal_agent-perm toy agent swapped
      (Perm.swap (codes "cidr_netmask", codes "16") (codes "ip", codes "10.0.0.1") [])

agent-IsWritable : IsWritable agent
unfolding eq
agent-IsWritable = record {
  plain_type = refl;
  plain_name = refl;
  plain_keys = (refl, (refl, tt));
  distinct = ((refl, tt), (tt, tt));
}

unmarshal_agent-marshal_agent_example :
    (text : Text) × (attributes : Dict Text) × (marshal_agent toy agent ≡ ok text)
    × Perm attributes agent.attributes
    × (unmarshal_agent toy fresh_agent text ≡ ok (record agent { attributes = attributes }))
unmarshal_agent-marshal_agent_example =
    unmarshal_agent-marshal_agent toy toy-ShellLaws agent agent-IsWritable
