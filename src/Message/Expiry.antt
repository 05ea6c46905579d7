-- ===== src/Message/Expiry.antt =====
-- When a message expires.
use mcp_dispatch.Base.{ℕ, ◌+◌, ◌<◌, ◌≤◌, ◌≡◌, true, false, some, arith}
use mcp_dispatch.Message.{Message, is_expired}

-- A message with a positive ttl that is not `must_read` and has a readable timestamp has expired
-- exactly when more than ttl seconds have passed since that timestamp.
pub is_expired_iff :
    (now ttl : ℕ) (msg : Message)
    → msg.ttl ≡ some ttl
    → 0 < ttl
    → msg.must_read ≡ false
    → 0 < msg.timestamp
    → ((is_expired now msg ≡ true) → msg.timestamp + ttl < now)
      × (msg.timestamp + ttl < now → is_expired now msg ≡ true)
unfolding is_expired
is_expired_iff now ttl msg e p m s = (λ h. ground arith, λ h. ground arith)

-- What has expired stays so.
pub is_expired_mono :
    (now later : ℕ) (msg : Message)
    → now ≤ later
    → is_expired now msg ≡ true
    → is_expired later msg ≡ true
unfolding is_expired
is_expired_mono now later msg le h = ground arith

-- A `must_read` message never expires.
pub must_read-is_expired :
    (now : ℕ) (msg : Message) → msg.must_read ≡ true → is_expired now msg ≡ false
unfolding is_expired
must_read-is_expired now msg h = ground arith
