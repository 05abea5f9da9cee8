-- ===== src/Examples/Expiry.antt =====
-- The expiry of tickets at a concrete input: one ticket is due, another is still running.
use yusui.Prelude.{◌≡◌, refl, some, none, [], ◌∷◌, select, length, ◌+◌}
use yusui.Exec.{ok}
use yusui.Store.Rows.{YusuiTicket}
use yusui.Store.Tickets.{is_due}
use yusui.Gateway.Memory.{Memory, memory, revoke_rule}
use yusui.Policy.World.{Engine, World}
use yusui.Policy.Scheduler.{expire_due}
use yusui.Policy.Progress.Revoking.{Answers}
use yusui.Policy.Progress.Expiring.{Ended, expire_due-Ended}
use yusui.Examples.World.{live_ticket, binding, tables, conn_of}

abbrev overdue : YusuiTicket
overdue = record live_ticket { id = 6; pub_id = 106; expires_at = some 500 }

abbrev mocked : Engine Memory (Unit {0})
mocked = record {
  gateway = memory;
  src_peer_ips = "100.64.0.1" ∷ [];
  closer = none;
  parse_addr = λ s. some s;
  ulid = λ n. n + 200;
}

abbrev world : World Memory (Unit {0})
world = record {
  conn =
      conn_of
        (record tables { tickets = live_ticket ∷ overdue ∷ []; policy_bindings = binding ∷ [] });
  forwards = [];
  gw = record { rules = [] };
  shell = tt;
  minted = 0;
}

mocked-Answers : Answers mocked
unfolding revoke_rule
mocked-Answers agent rule g = refl

one_due : length (select (is_due 1000) (live_ticket ∷ overdue ∷ [])) ≡ 1
unfolding is_due
one_due = refl

expire_due-Ended_example :
    ((expire_due mocked world).0 ≡ ok (length (select (is_due 1000) world.conn.tickets)))
    × Ended
        (select (is_due 1000) world.conn.tickets)
        world.conn.tables
        (expire_due mocked world).1.conn.tables
expire_due-Ended_example =
    expire_due-Ended mocked mocked-Answers world (λ n. refl) ((refl, tt), (tt, tt))
