-- ===== src/Tests/RegistryRuns.antt =====
-- Sessions that register and leave, and a task that is completed while it is claimed.
use mcp_dispatch.Base.{true, false, some, List, [], ◌∷◌, ◌≡◌, refl, arith}
use mcp_dispatch.Base.Dict.{get, put}
use mcp_dispatch.Base.Sort.{sort_by, sort_with}
use mcp_dispatch.Ident.{is_id, before_pid, durable_nick}
use mcp_dispatch.Relay.{Relay, live_agents, live_sessions_of}
use mcp_dispatch.Digest.{watermark}
use mcp_dispatch.Server.Registry.{
  blank as no_record, register_agent, touch_agent, release_id, touch_record, reap_empty_inboxes,
  reap_dead_presence, known_agents,
}
use mcp_dispatch.Server.Registry.Watermark.{release-register-watermark}
use mcp_dispatch.Server.Registry.Calls.{Call, registers, releases, reaps, step, run, HasSpool}
use mcp_dispatch.Bridge.Roster.{write_remote_roster}
use mcp_dispatch.Bridge.Roster.Local.{Unlisted, registered-Unlisted}
use mcp_dispatch.Transport.{Repo, blank}
use mcp_dispatch.Tasks.{called}
use mcp_dispatch.Tasks.Work.Lost.{steps, Undone, complete-lost}
use mcp_dispatch.Tests.ServerRuns.{relay}
use mcp_dispatch.Tests.TaskRuns.{task, store}

abbrev known : Relay
known = record relay {
  agents =
      ("bob", some (record no_record { nick = "bob"; first_seen = 100; last_seen = 150 })) ∷ [];
}

release-register-watermark_example :
    watermark (register_agent (release_id known "bob-3" 900) "bob-12" 2_000 "/home/bob") "bob"
    ≡ (900, true)
unfolding is_id durable_nick before_pid get live_sessions_of live_agents sort_by release_id
    touch_agent put
release-register-watermark_example =
    release-register-watermark known (release_id known "bob-3" 900) "bob" "bob-3" "bob-12" 900 2_000
      "/home/bob" (record no_record { nick = "bob"; first_seen = 100; last_seen = 150 }) refl refl
      refl refl refl refl refl refl

abbrev calls : List Call
calls = releases "bob-3" 900 ∷ reaps false ∷ registers "bob-12" 2_000 "/home/bob" ∷ []

has_spool : HasSpool "bob-3" calls (register_agent known "bob-3" 200 "/home/bob")
unfolding HasSpool step register_agent release_id touch_agent touch_record get is_id durable_nick
    before_pid reap_empty_inboxes reap_dead_presence known_agents put sort_with sort_by
has_spool = (refl, (refl, (refl, tt)))

abbrev clone : Repo
clone = record { lanes = ("bob-3", blank ∷ []) ∷ ("amy-7", blank ∷ []) ∷ []; channels = [] }

registered-Unlisted_example :
    Unlisted "bob-3"
      (write_remote_roster clone (run calls (register_agent known "bob-3" 200 "/home/bob")))
unfolding is_id durable_nick before_pid
registered-Unlisted_example =
    registered-Unlisted known "bob-3" 200 "/home/bob" calls clone refl refl has_spool

-- The claim has created its marker and not written it.
complete-lost_example :
    Undone "task-1" "amy-7" "bob-8" 20 21 2 task
      (steps "task-1" "amy-7" "bob-8" 20 21 2 (store, called))
unfolding get
complete-lost_example =
    complete-lost "task-1" "amy-7" "bob-8" 20 21 store task 2 refl refl refl refl (omega arith)
      (omega arith)
