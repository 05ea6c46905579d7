-- ===== src/Tests/IdentRuns.antt =====
-- Ids and nicks.
use mcp_dispatch.Base.{String, true, false, ◌≡◌, refl, eq_iff, arith}
use mcp_dispatch.Base.Text.{keep, lstrip, take, rstrip, after_last}
use mcp_dispatch.Ident.{is_id, durable_nick, nick_for_dir}
use mcp_dispatch.Ident.Nick.{launched_session}
use Prim.Native.String.{◌++◌}

nick_of_session : durable_nick "publicai-1767991" ≡ "publicai"
unfolding durable_nick
nick_of_session = refl

nick_of_nick : durable_nick "web-app" ≡ "web-app"
unfolding durable_nick
nick_of_nick = refl

only_the_last_number : durable_nick "a-1-22" ≡ "a-1"
unfolding durable_nick
only_the_last_number = refl

bad_ids :
    (is_id "" ≡ false) × (is_id "-a" ≡ false) × (is_id "../x" ≡ false) × (is_id "a_b-9" ≡ true)
unfolding is_id
bad_ids = (refl, refl, refl, refl)

abbrev same : String → String
same s = s

nick_of_dir : nick_for_dir same "/home/u/code/web app/" ≡ "webapp"
unfolding nick_for_dir keep lstrip take rstrip after_last
nick_of_dir = refl

launched_session_example :
    (is_id (nick_for_dir same "/home/u/webapp" ++ "-" ++ "4711") ≡ true)
    × (durable_nick (nick_for_dir same "/home/u/webapp" ++ "-" ++ "4711")
        ≡ nick_for_dir same "/home/u/webapp")
unfolding nick_for_dir keep lstrip take rstrip after_last
launched_session_example =
    launched_session same "/home/u/webapp" "4711" (ground (arith, eq_iff "webapp" ""))
      (ground (arith, eq_iff "4711" ""), refl) (omega arith)
