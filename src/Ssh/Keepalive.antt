-- ===== src/Ssh/Keepalive.antt =====
-- internal/ssh/keepalive.go: the requests that keep a connection alive.
use macos_exec_kubelet.Base.{String, Bool, true, Option, none, some, List, [], ◌∷◌, Error}

-- What the `select` of a round receives: a tick, with the reply to the request that follows, or the
-- end of the context.
pub data Wakeup : Type 0 where
  tick : Option Error → Wakeup
  done : Wakeup

pub data ConnCall : Type 0 where
  -- the name of the request, and whether a reply is wanted
  send_request : String → Bool → ConnCall
  log_error : Error → ConnCall
  stop_ticker : ConnCall

abbrev logged : Option Error → List ConnCall → List ConnCall
logged none rest = rest
logged (some e) rest = log_error e ∷ rest

-- The calls of some rounds of the loop; an error does not end it.
unfoldable pub send_keepalive : List Wakeup → List ConnCall
send_keepalive [] = []
send_keepalive (done ∷ rounds) = stop_ticker ∷ []
send_keepalive (tick reply ∷ rounds) =
    send_request "keepalive@openssh.com" true ∷ logged reply (send_keepalive rounds)
