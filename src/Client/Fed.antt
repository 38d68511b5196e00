-- ===== src/Client/Fed.antt =====
-- What a preview's reader makes of the messages that the camera sends (pkg/baichuan/client.go).
use reolinkproxy.Base.{ℕ, ◌≡◌, List, [], ◌∷◌, ◌++◌, false, ◌==◌, if◌then◌else◌}
use reolinkproxy.Message.{Message}
use reolinkproxy.Client.Preview.{Preview, PreviewEvent, arrives, reads, stops, has_ended}
use reolinkproxy.Client.Parsed.{Parsed}

-- The messages of an id that arrived.
abbrev pub arrived : ℕ → List PreviewEvent → List Message
arrived msg_id [] = []
arrived msg_id (reads ∷ events) = arrived msg_id events
arrived msg_id (stops ∷ events) = arrived msg_id events
arrived msg_id (arrives m ∷ events) =
    let rest = arrived msg_id events in if msg_id == m.header.msg_id then m ∷ rest else rest

-- The messages so far are those that were parsed, then the others; and while nothing is lost, and the
-- reader goes on, the others are those in the queue.
record Follows (stream_type : ℕ) (all : List Message) (p : Preview) : Type 0 where
  pub done : List Message
  pub others : List Message
  pub split : all ≡ done ++ others
  pub queued : p.sub.dropped ≡ 0 → has_ended p.reader ≡ false → others ≡ p.sub.queue
  pub parsed : Parsed stream_type done p.reader
