-- ===== src/Tests/ClaimRuns.antt =====
-- Processes that claim one id and reap its presence file.
use mcp_dispatch.Base.{List, [], ◌∷◌, ◌≡◌, ◌≢◌, refl}
use mcp_dispatch.Base.Dict.{get, put, remove}
use mcp_dispatch.Ident.{is_id}
use mcp_dispatch.Server.Claim.{
  Start, Event, starts, looks, goes_on, holding, begin_claim, advance, open_file, try_lock, look,
  happen, set_phase,
}
use mcp_dispatch.Server.Claim.Holders.{run_events, QuietUnlinks, at_first, run_events-one_holder}

abbrev as_bob : Start
as_bob = record { explicit = "bob-3"; agent_ids = [] }

-- Process 0 reaps the file of a dead session, and claims its id; so does process 1, which opens the
-- new file before that is locked.
abbrev calm : List Event
calm =
    looks 0 "bob-3"
    ∷ goes_on 0
    ∷ goes_on 0
    ∷ goes_on 0
    ∷ starts 0 as_bob
    ∷ goes_on 0
    ∷ starts 1 as_bob
    ∷ goes_on 1
    ∷ goes_on 0
    ∷ goes_on 1
    ∷ []

quiet : QuietUnlinks calm (at_first (("bob-3", 4) ∷ []) 5)
unfolding happen set_phase look advance try_lock open_file begin_claim get put remove is_id
quiet = (tt, (tt, ((λ q n. rw n refl), (tt, (tt, (tt, (tt, (tt, (tt, (tt, tt))))))))))

first_holds : (run_events calm (at_first (("bob-3", 4) ∷ []) 5)).phase 0 ≡ holding "bob-3" 5
unfolding run_events happen set_phase look advance try_lock open_file begin_claim get put remove
    is_id
first_holds = refl

run_events-one_holder_example :
    (run_events calm (at_first (("bob-3", 4) ∷ []) 5)).phase 1 ≢ holding "bob-3" 5
run_events-one_holder_example =
    run_events-one_holder (("bob-3", 4) ∷ []) 5 calm 0 1 "bob-3" 5 5 quiet refl first_holds

-- Process 1 reaps the file that process 0 has opened for its claim and not yet locked: process 0
-- then locks a file without a name, and process 2 a new one.
abbrev race : List Event
race =
    starts 0 as_bob
    ∷ goes_on 0
    ∷ looks 1 "bob-3"
    ∷ goes_on 1
    ∷ goes_on 1
    ∷ goes_on 1
    ∷ goes_on 0
    ∷ starts 2 as_bob
    ∷ goes_on 2
    ∷ goes_on 2
    ∷ []

race_first : (run_events race (at_first [] 0)).phase 0 ≡ holding "bob-3" 0
unfolding run_events happen set_phase look advance try_lock open_file begin_claim get put remove
    is_id
race_first = refl

race_second : (run_events race (at_first [] 0)).phase 2 ≡ holding "bob-3" 1
unfolding run_events happen set_phase look advance try_lock open_file begin_claim get put remove
    is_id
race_second = refl
