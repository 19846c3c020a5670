-- ===== src/Inbox/Calls.antt =====
-- The methods of the inbox store as data, and what sequences of calls do.
use pytitect.Prelude.{String, List, [], ◌∷◌, Datetime, Timedelta}
use pytitect.Maintenance.{Plan}
use pytitect.Inbox
use pytitect.Inbox.{InboxScope, InboxStore}

pub data Call : Type 0 where
  begin : InboxScope → String → String → Datetime → Timedelta → Call
  complete : InboxScope → String → String → Datetime → Call
  abandon : InboxScope → String → String → Call
  purge : Plan → Call

-- The store after a call, whether it returned or raised.
unfoldable pub perform : Call → InboxStore → InboxStore
perform (begin scope message_id token now ttl) s = (Inbox.begin scope message_id token now ttl s).1
perform (complete scope message_id token now) s = (Inbox.complete scope message_id token now s).1
perform (abandon scope message_id token) s = (Inbox.abandon scope message_id token s).1
perform (purge plan) s = (Inbox.purge plan s).1

unfoldable pub perform_all : List Call → InboxStore → InboxStore
unfolding perform
perform_all [] s = s
perform_all (c ∷ cs) s = perform_all cs (perform c s)
