-- ===== src/Session/Server/Handle.antt =====
-- `handle` of internal/session/server.go: the answer to one request. What the supervisor's commands do,
-- which take several of its steps, is an argument: the state behind them and the error's text.
use process_deck.Base.{Bool, true, not, ◌||◌, ◌==◌, Option, some, if◌then◌else◌}
use process_deck.Base.Text.{Text, codes, same}
use process_deck.Supervisor.{Sup}
use process_deck.Supervisor.Lifecycle.{logs_since}
use process_deck.Session.{Request, Response, protocol_version}
use process_deck.Session.Server.{Server, empty_response, attach_begin}

-- An attachment is answered in `attach`, all else at once.
pub data Reply : Type 0 where
  attached : Option Response → Reply
  answered : Response → Reply

abbrev pub Command : Type 0
Command = Text → Text → Sup → Sup × Text

abbrev other_version : Text
other_version =
    codes
      "runtime error: incompatible session protocol; use the procdeck version that started this session"

abbrev is_command : Text → Bool
is_command method =
    same method (codes "start") || same method (codes "stop") || same method (codes "restart")

unfoldable pub handle : Command → Request → Server → Server × Reply
unfolding same attach_begin logs_since
handle command req s =
    if not (req.version == protocol_version)
    then (s, answered (record empty_response { error = other_version }))
    else if same req.method (codes "attach")
    then (let (s1, refusal) = attach_begin s in (s1, attached refusal))
    else if same req.method (codes "logs")
    then (
      s,
      answered (record empty_response { logs = some (logs_since s.sup req.process req.cursor) }),
    )
    else if same req.method (codes "shutdown")
    then (record s { sup = record s.sup { ctx_done = true } }, answered empty_response)
    else if is_command req.method
    then (let (sup, error) = command req.method req.process s.sup in
        (record s { sup = sup }, answered (record empty_response { error = error })))
    else (
      s,
      answered (record empty_response { error = codes "runtime error: unknown session request" }),
    )
