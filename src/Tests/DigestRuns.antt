-- ===== src/Tests/DigestRuns.antt =====
-- A digest over the relay of the server's runs.
use mcp_dispatch.Base.{◌+◌, ◌≤◌, String, Bool, true, ◌==◌, some, [], sum_by, ◌≡◌, refl, arith}
use mcp_dispatch.Base.Dict.{get, put}
use mcp_dispatch.Base.Sort.{sort_by}
use mcp_dispatch.Ident.{before_pid, durable_nick}
use mcp_dispatch.Message.{is_expired}
use mcp_dispatch.Relay.{iter_pending}
use mcp_dispatch.Supervisor.Sources.{waiting_mail}
use mcp_dispatch.Digest.{mail_total, build}
use mcp_dispatch.Digest.Inboxes.{nick_inboxes, collect_mail}
use mcp_dispatch.Digest.Events.{TaskEvent, collect_tasks}
use mcp_dispatch.Digest.Mail.{weight, pending_from, collect_mail-sum, waiting_mail-le-mail_total}
use mcp_dispatch.Digest.Windows.{count_of, collect_tasks-join}
use mcp_dispatch.Tests.ServerRuns.{relay}
use mcp_dispatch.Tests.TaskRuns.{store}

from_amy : String → Bool
from_amy sender = sender == "amy-7"

collect_mail-sum_example :
    sum_by (weight from_amy) (collect_mail 1_720 relay "bob")
    ≡ pending_from from_amy 1_720 (nick_inboxes relay "bob")
collect_mail-sum_example = collect_mail-sum from_amy 1_720 relay "bob"

three_wait : mail_total (build relay store "bob" 1_720 1_720 (some 4) []) ≡ 3
unfolding build collect_mail nick_inboxes sort_by durable_nick before_pid iter_pending get put
    is_expired
three_wait = refl

waiting_mail-le-mail_total_example :
    waiting_mail 1_720 relay "bob" true
    ≤ mail_total (build relay store "bob" 1_720 1_720 (some 4) [])
waiting_mail-le-mail_total_example =
    waiting_mail-le-mail_total relay store "bob" 1_720 1_720 (some 4) [] true

any_event : TaskEvent → Bool
any_event e = true

collect_tasks-join_example :
    count_of any_event (collect_tasks store "bob" 2 9 []).0
    ≡ count_of any_event (collect_tasks store "bob" 2 6 []).0
      + count_of any_event (collect_tasks store "bob" 6 9 []).0
collect_tasks-join_example =
    collect_tasks-join any_event store "bob" [] 2 6 9 (omega arith) (omega arith)
